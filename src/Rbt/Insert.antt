-- ===== src/Rbt/Insert.antt =====
-- rbt_insert on a red-black tree: a new node is linked at its place, and the colors are repaired.
use balrog_os.Prelude.{
  ℕ, ◌<◌, ◌≡◌, refl, ◌≢◌, Bool, true, false, ap, sym, ◌∙◌, arith, some, List, [], ◌++◌, All-imp,
  length, inl, inr, ◌⊎◌,
}
use mathlib.Core.Path.{subst}
use balrog_os.Rbt.{left, right, Rbt, put, set_red, created, found, below, descend, rbt_insert}
use balrog_os.Rbt.Shape.{
  Tree, leaf, node, Ctx, top, under, plug, entries, Focus, addr, lo_of, up_of,
}
use balrog_os.Rbt.Paint.{put-at}
use balrog_os.Rbt.Colors.{Rb}
use balrog_os.Rbt.Fixup.{IsRbt, insert_fixup-IsRbt}
use balrog_os.Rbt.Place.{
  open_all, before, after, side_of, entries-plug_split, Free, hit, miss, descend-Ends,
}
use balrog_os.Rbt.Order.{lookup, insert_entry, before-Below, insert_entry-old, lookup-found}
use balrog_os.Rbt.Link.{
  Unused, Focus-put, link, nonzero, open_colors, entries_new, split_at, split-Below,
}

-- What rbt_insert promises: a red-black tree with the entry of the key, whose node it answers.
pub record Inserts (n : ℕ) (t : Rbt) (key fresh : ℕ) (es : List (ℕ × ℕ)) : Type 0 where
  pub done : Rbt
  pub at : ℕ
  pub runs : rbt_insert n t key fresh ≡ some (done, at)
  pub holds : IsRbt done (insert_entry fresh key es)
  pub answer : lookup key (insert_entry fresh key es) ≡ some at

insert_hit :
    (n : ℕ) {t : Rbt} (key fresh a : ℕ) (es : List (ℕ × ℕ)) (l : Tree) (red : Bool) (r : Tree)
    (c : Ctx)
    → (rbt : IsRbt t es) → t.root ≢ 0
    → plug c (node l a key red r) ≡ rbt.tree
    → descend n t.nodes key 0 left t.root ≡ some (found a)
    → Inserts n t key fresh es
unfolding rbt_insert
insert_hit n {t} key fresh a es l red r c rbt real is walk =
    let low = split-Below c l a key red r (open_all c (subst (Focus t top) (sym is) rbt.holds)) in
    let split = sym rbt.same ∙ (ap entries (sym is) ∙ split_at c l a key red r) in
    let same =
      subst (λ (z : List (ℕ × ℕ)). insert_entry fresh key z ≡ z) (sym split)
        (insert_entry-old fresh a key (before c ++ entries l) (entries r ++ after c) low) in
    record {
      done = t;
      at = a;
      runs = rw (nonzero t.root real, walk, rbt_insert) refl;
      holds = subst (IsRbt t) (sym same) rbt;
      answer = rw same (
          subst (λ (z : List (ℕ × ℕ)). lookup key z ≡ some a) (sym split)
            (lookup-found a key (before c ++ entries l) (entries r ++ after c) low));
    }

place_real : (c : Ctx) {t : Rbt} → Focus t top (plug c leaf) → t.root ≢ 0 → up_of c ≢ 0
place_real top f real = absurd (real f.around)
place_real (under left a k red sib rest) f real =
    let g = open_all (under left a k red sib rest) {s = leaf} f in
    let held = g.around.0 in held.real
place_real (under right a k red sib rest) f real =
    let g = open_all (under right a k red sib rest) {s = leaf} f in
    let held = g.around.0 in held.real

insert_miss :
    (n : ℕ) {t : Rbt} (key fresh : ℕ) (es : List (ℕ × ℕ)) (rbt : IsRbt t es)
    (p : Free t key rbt.tree)
    → length es < n
    → t.root ≢ 0
    → fresh ≢ 0
    → Unused fresh es
    → descend n t.nodes key 0 left t.root ≡ some (below (up_of p.place) (side_of p.place))
    → Inserts n t key fresh es
unfolding rbt_insert
insert_miss n {t} key fresh es rbt p fuel real new unused walk =
    let c = p.place in
    let stored = created (up_of c) key (t.nodes fresh) in
    let old = subst (Focus t top) (sym p.is_whole) rbt.holds in
    let whole_is = ap entries p.is_whole ∙ rbt.same in
    let put_there =
      Focus-put fresh stored (plug c leaf) (subst (Unused fresh) (sym whole_is) unused) old in
    let around = (open_all c {s = leaf} old).around in
    let linked =
      link c fresh key (t.nodes fresh) (open_all c put_there) (place_real c old real) new p.from
        p.to (put-at fresh stored t.nodes) in
    let (m, ctx, blacks) =
      open_colors c leaf rbt.blacks
        (subst (λ (z : Tree). Rb z true rbt.blacks) (sym p.is_whole) rbt.colors) in
    let levels = p.levels in
    let size = ap length rbt.same in
    let (done, runs, good) =
      insert_fixup-IsRbt c n m (node leaf fresh key true leaf) (omega arith) linked ctx
        (blacks, blacks) in
    let same =
      entries_new c t.nodes t.root 0 fresh key true around p.from p.to
      ∙ ap (insert_entry fresh key) whole_is in
    let low =
      All-imp _ _ (before c) (λ x q. let lt : x.1 < lo_of c = q in let le = p.from in omega arith)
        (before-Below t.nodes t.root 0 c around) in
    record {
      done = done;
      at = fresh;
      runs = rw (nonzero t.root real, walk, runs, rbt_insert) refl;
      holds = subst (IsRbt done) same good;
      answer =
          subst (λ (z : List (ℕ × ℕ)). lookup key z ≡ some fresh) same
            (rw (entries-plug_split c (node leaf fresh key true leaf))
              (lookup-found fresh key (before c) (after c) low));
    }

insert_first :
    (n : ℕ) {t : Rbt} (key fresh : ℕ) (es : List (ℕ × ℕ))
    → es ≡ []
    → t.root ≡ 0
    → fresh ≢ 0
    → key < 18446744073709551616
    → Inserts n t key fresh es
unfolding rbt_insert
insert_first n {t} key fresh es none_there e new fits =
    let first = put fresh (created 0 key (t.nodes fresh)) t.nodes in
    let now = put-at fresh (created 0 key (t.nodes fresh)) t.nodes in
    let black = put-at fresh (record (first fresh) { red = false }) first in
    record {
      done = record t { root = fresh; nodes = set_red fresh false first };
      at = fresh;
      runs = rw (e, rbt_insert) refl;
      holds = rw none_there record {
        tree = node leaf fresh key false leaf;
        holds = record {
          around = refl;
          here = (
            record {
              real = new;
              key_is = rw (black, now) refl;
              red_is = rw black refl;
              parent_is = rw (black, now) refl;
              low_is = rw (black, now) refl;
              high_is = rw (black, now) refl;
            },
            omega arith,
            fits,
            tt,
            tt,
          );
        };
        blacks = 1;
        colors = (refl, refl);
        same = refl;
      };
      answer = rw none_there (lookup-found fresh key [] [] tt);
    }

pub tree_cases : {t : Rbt} (s : Tree) → Focus t top s → (s ≡ leaf) ⊎ (addr s ≢ 0)
tree_cases leaf f = inl refl
tree_cases (node l a k c r) f = let held = f.here.0 in inr held.real

-- On a heap that holds a red-black tree with a black root, with more fuel than the tree has nodes,
-- a key of 64 bits and a real address that no node has, rbt_insert returns. The heap then holds a
-- red-black tree with a black root whose entries are those before with the new node at its place
-- in the order of the keys, or those before where the key was there; the node that is returned is
-- the one of the key.
pub rbt_insert-Inserts :
    (n : ℕ) (t : Rbt) (key fresh : ℕ) (es : List (ℕ × ℕ))
    → IsRbt t es
    → length es < n
    → key < 18446744073709551616
    → fresh ≢ 0
    → Unused fresh es
    → Inserts n t key fresh es
rbt_insert-Inserts n t key fresh es rbt fuel fits new unused =
    elim (tree_cases rbt.tree rbt.holds) [
      | inl is ↦
          insert_first n key fresh es (sym rbt.same ∙ ap entries is) (rbt.holds.around ∙ ap addr is)
            new fits
      | inr real ↦
          let root_real : t.root ≢ 0 = rw rbt.holds.around real in
          let size = ap length rbt.same in
          elim (descend-Ends rbt.tree n key top (omega arith) rbt.holds (omega arith) fits
            (omega arith)) [
              | hit l b red r c whole walk ↦
                  insert_hit n key fresh b es l red r c rbt root_real whole (
                    subst (λ (z : ℕ). descend n t.nodes key 0 left z ≡ some (found b))
                      (sym rbt.holds.around) walk)
              | miss p walk ↦ insert_miss n key fresh es rbt p fuel root_real new unused (
                  subst
                    (λ (z : ℕ).
                      descend n t.nodes key 0 left z
                      ≡ some (below (up_of p.place) (side_of p.place)))
                    (sym rbt.holds.around) walk)
            ]
    ]
