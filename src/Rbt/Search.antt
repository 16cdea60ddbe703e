-- ===== src/Rbt/Search.antt =====
-- rbt_search and rbt_minimum on a red-black tree.
use balrog_os.Prelude.{
  ℕ, zero, suc, ◌<◌, ◌≤◌, ◌≡◌, refl, Bool, false, ap, sym, ◌∙◌, arith, Option, none, some, List, [],
  ◌∷◌, ◌++◌, length, length-append, some-inj, none-some, ltb, ◌==◌, if◌then◌else◌, Bool-cases, inl,
  inr, All-imp,
}
use mathlib.Core.Path.{subst}
use balrog_os.Rbt.{
  Dir, left, right, Nodes, Rbt, Spot, found, below, child, descend, search, rbt_search,
  leftmost_from, rbt_minimum,
}
use balrog_os.Rbt.Shape.{Tree, leaf, node, top, entries, IsTree, Focus, addr, lo_of, hi_of}
use balrog_os.Rbt.Fixup.{IsRbt}
use balrog_os.Rbt.Place.{open_all, before, after, entries-plug_split, hit, miss, descend-Ends}
use balrog_os.Rbt.Order.{lookup, before-Below, after-Above, lookup-found, lookup-none}
use balrog_os.Rbt.Link.{split_at, split-Below}

abbrev spot_addr : Spot → ℕ
spot_addr (found a) = a
spot_addr (below p d) = 0

-- The two walks go the same way.
search-descend :
    (n : ℕ) (h : Nodes) (key parent : ℕ) (dir : Dir) (a : ℕ) (s : Spot)
    → descend n h key parent dir a ≡ some s
    → search n h key a ≡ some (spot_addr s)
unfolding search descend
search-descend zero h key parent dir a s e = absurd (none-some e)
search-descend (suc n) h key parent dir a s e =
    let side = if ltb (h a).key key then right else left in
    elim (Bool-cases (a == 0)) [
      | inl z ↦ rw z (ap (λ w. some (spot_addr w)) (some-inj (rw z at e)))
      | inr z ↦ elim (Bool-cases ((h a).key == key)) [
        | inl k ↦ rw (z, k) (ap (λ w. some (spot_addr w)) (some-inj (rw (z, k) at e)))
        | inr k ↦ rw (z, k) (search-descend n h key a side (child side (h a)) s (rw (z, k) at e))
      ]
    ]

abbrev pub or_null : Option ℕ → ℕ
or_null none = 0
or_null (some a) = a

-- In a red-black tree, with more fuel than it has nodes, rbt_search of a 64-bit key returns the
-- node of the first entry in order that has the key, or NULL where none has it.
pub rbt_search-lookup :
    (n : ℕ) (t : Rbt) (key : ℕ) (es : List (ℕ × ℕ))
    → IsRbt t es
    → length es < n
    → key < 18446744073709551616
    → rbt_search n t key ≡ some (or_null (lookup key es))
unfolding rbt_search
rbt_search-lookup n t key es rbt fuel fits =
    let size = ap length rbt.same in
    let at_root = λ (s : Spot) (walk : descend n t.nodes key 0 left (addr rbt.tree) ≡ some s).
      search-descend n t.nodes key 0 left t.root s
        (subst (λ (z : ℕ). descend n t.nodes key 0 left z ≡ some s) (sym rbt.holds.around) walk) in
    elim (descend-Ends rbt.tree n key top (omega arith) rbt.holds (omega arith) fits
      (omega arith)) [
        | hit l b red r c whole walk ↦
            let low =
              split-Below c l b key red r
                (open_all c (subst (Focus t top) (sym whole) rbt.holds)) in
            let split = sym rbt.same ∙ (ap entries (sym whole) ∙ split_at c l b key red r) in
            at_root (found b) walk
            ∙ ap (λ (z : Option ℕ). some (or_null z))
                (sym (ap (lookup key) split ∙ lookup-found b key _ _ low))
        | miss p walk ↦
            let around =
              (open_all p.place {s = leaf}
                (subst (Focus t top) (sym p.is_whole) rbt.holds)).around in
            let from = p.from in
            let to = p.to in
            let split =
              sym rbt.same ∙ (ap entries (sym p.is_whole) ∙ entries-plug_split p.place leaf) in
            at_root (below _ _) walk
            ∙ ap (λ (z : Option ℕ). some (or_null z))
                (sym (
                  ap (lookup key) split
                  ∙ lookup-none key _ _
                      (All-imp _ _ (before p.place)
                        (λ x q. let lt : x.1 < lo_of p.place = q in omega arith)
                        (before-Below t.nodes t.root 0 p.place around))
                      (All-imp _ _ (after p.place)
                        (λ x q. let le : hi_of p.place ≤ x.1 = q in omega arith)
                        (after-Above t.nodes t.root 0 p.place around))))
      ]

abbrev pub first : List (ℕ × ℕ) → ℕ
first [] = 0
first (x ∷ xs) = x.0

pub first-append :
    (xs : List (ℕ × ℕ)) (y : ℕ × ℕ) (ys zs : List (ℕ × ℕ))
    → first ((xs ++ (y ∷ ys)) ++ zs) ≡ first (xs ++ (y ∷ ys))
first-append [] y ys zs = refl
first-append (x ∷ xs) y ys zs = refl

leftmost-first :
    (n : ℕ) (h : Nodes) (lo hi up : ℕ) (l : Tree) (a k : ℕ) (red : Bool) (r : Tree)
    → IsTree h lo hi up (node l a k red r)
    → length (entries l) < n
    → leftmost_from n h a ≡ some (first (entries (node l a k red r)))
unfolding leftmost_from
leftmost-first zero h lo hi up l a k red r f fuel = absurd (omega arith)
leftmost-first (suc n) h lo hi up leaf a k red r (held, _, _, _, _) fuel = rw held.low_is refl
leftmost-first (suc n) h lo hi up (node l b j red' s) a k red r (held, _, _, fl, _) fuel =
    let size = length-append (entries l) ((b, j) ∷ entries s) in
    let inner = fl.0 in
    let nz : (b == 0) ≡ false = let real = inner.real in ground arith in
    rw (held.low_is, nz)
      (leftmost-first n h lo k a l b j red' s fl (omega arith)
        ∙ ap some (sym (first-append (entries l) (b, j) (entries s) ((a, k) ∷ entries r))))

minimum_tree :
    (s : Tree) (n : ℕ) (t : Rbt)
    → Focus t top s
    → length (entries s) < n
    → rbt_minimum n t ≡ some (first (entries s))
unfolding rbt_minimum
minimum_tree leaf n t f fuel = rw f.around refl
minimum_tree (node l a k red r) n t f fuel =
    let held = f.here.0 in
    let nz : (a == 0) ≡ false = let real = held.real in ground arith in
    let size = length-append (entries l) ((a, k) ∷ entries r) in
    rw (f.around, nz)
      (leftmost-first n t.nodes 0 18446744073709551616 0 l a k red r f.here (omega arith))

-- In a red-black tree, with more fuel than it has nodes, rbt_minimum returns the node of the first
-- entry in the order of the keys, or NULL where the tree is empty.
pub rbt_minimum-first :
    (n : ℕ) (t : Rbt) (es : List (ℕ × ℕ))
    → IsRbt t es
    → length es < n
    → rbt_minimum n t ≡ some (first es)
rbt_minimum-first n t es rbt fuel =
    minimum_tree rbt.tree n t rbt.holds (let size = ap length rbt.same in omega arith)
    ∙ ap (λ (z : List (ℕ × ℕ)). some (first z)) rbt.same
