-- ===== src/Rbt/Locate.antt =====
-- The node of a key that the tree has: its place, and the walk to it.
use balrog_os.Prelude.{
  ℕ, ◌<◌, ◌≤◌, ◌≡◌, refl, ◌≢◌, Bool, ap, sym, ◌∙◌, arith, ◌++◌, List, length, some, some-inj,
  none-some, inl, inr, All-imp, ◌==◌, false,
}
use mathlib.Core.Path.{subst}
use balrog_os.Rbt.{Rbt, left, found, descend, rbt_insert}
use balrog_os.Rbt.Shape.{Tree, node, Ctx, top, plug, entries, Focus, lo_of, hi_of, leaf}
use balrog_os.Rbt.Fixup.{IsRbt}
use balrog_os.Rbt.Place.{before, after, open_all, entries-plug_split, descend-Ends, hit, miss}
use balrog_os.Rbt.Order.{lookup, before-Below, after-Above, lookup-found, lookup-none}
use balrog_os.Rbt.Link.{split_at, split-Below}
use balrog_os.Rbt.Insert.{tree_cases}

pub record Located (n : ℕ) (t : Rbt) (key x : ℕ) (s : Tree) : Type 0 where
  pub place : Ctx
  pub low : Tree
  pub red : Bool
  pub high : Tree
  pub whole : plug place (node low x key red high) ≡ s
  pub walk : descend n t.nodes key 0 left t.root ≡ some (found x)

pub locate :
    (n : ℕ) (t : Rbt) (key x : ℕ) (es : List (ℕ × ℕ))
    → (rbt : IsRbt t es) → length es < n
    → key < 18446744073709551616
    → lookup key es ≡ some x
    → Located n t key x rbt.tree
locate n t key x es rbt fuel fits is =
    let size = ap length rbt.same in
    let is' = ap (lookup key) rbt.same ∙ is in
    elim (descend-Ends rbt.tree n key top (omega arith) rbt.holds (omega arith) fits
      (omega arith)) [
        | hit l a red r c whole walk ↦
            let f = open_all c (subst (Focus t top) (sym whole) rbt.holds) in
            let low = split-Below c l a key red r f in
            let same = some-inj (
              sym (lookup-found a key (before c ++ entries l) (entries r ++ after c) low)
              ∙ (ap (lookup key) (sym (split_at c l a key red r) ∙ ap entries whole) ∙ is')) in
            subst (λ (z : ℕ). Located n t key z rbt.tree) same
              record {
                place = c;
                low = l;
                red = red;
                high = r;
                whole = whole;
                walk =
                    subst (λ (z : ℕ). descend n t.nodes key 0 left z ≡ some (found a))
                      (sym rbt.holds.around) walk;
              }
        | miss p walk ↦
            let around =
              (open_all p.place {s = leaf}
                (subst (Focus t top) (sym p.is_whole) rbt.holds)).around in
            let from = p.from in
            let to = p.to in
            absurd (
              none-some (
                sym (
                  lookup-none key (before p.place) (after p.place)
                    (All-imp _ _ (before p.place)
                      (λ x q. let lt : x.1 < lo_of p.place = q in omega arith)
                      (before-Below t.nodes t.root 0 p.place around))
                    (All-imp _ _ (after p.place)
                      (λ x q. let le : hi_of p.place ≤ x.1 = q in omega arith)
                      (after-Above t.nodes t.root 0 p.place around)))
                ∙ (ap (lookup key) (sym (entries-plug_split p.place leaf) ∙ ap entries p.is_whole)
                    ∙ is')))
      ]

insert_found :
    (n : ℕ) (t : Rbt) (key fresh a : ℕ)
    → t.root ≢ 0
    → descend n t.nodes key 0 left t.root ≡ some (found a)
    → rbt_insert n t key fresh ≡ some (t, a)
unfolding rbt_insert
insert_found n t key fresh a real walk =
    let nz : (t.root == 0) ≡ false = ground arith in rw (nz, walk, rbt_insert) refl

root_real :
    (t : Rbt) (key x : ℕ) (es : List (ℕ × ℕ)) → IsRbt t es → lookup key es ≡ some x → t.root ≢ 0
root_real t key x es rbt is e = elim (tree_cases rbt.tree rbt.holds) [
  | inl empty ↦
      none-some
        (ap (λ (z : Tree). lookup key (entries z)) (sym empty) ∙ (ap (lookup key) rbt.same ∙ is))
  | inr real ↦ real (sym rbt.holds.around ∙ e)
]

-- rbt_insert of a key that is there answers its node, and changes nothing.
pub rbt_insert-found :
    (n : ℕ) (t : Rbt) (key fresh x : ℕ) (es : List (ℕ × ℕ))
    → IsRbt t es
    → length es < n
    → key < 18446744073709551616
    → lookup key es ≡ some x
    → rbt_insert n t key fresh ≡ some (t, x)
rbt_insert-found n t key fresh x es rbt fuel fits is =
    let at = locate n t key x es rbt fuel fits is in
    insert_found n t key fresh x (root_real t key x es rbt is) at.walk
