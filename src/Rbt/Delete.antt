-- ===== src/Rbt/Delete.antt =====
-- rbt_delete and rbt_delete_key on a red-black tree.
use balrog_os.Prelude.{
  ℕ, ◌+◌, ◌<◌, ◌≤◌, ◌≡◌, refl, ◌≢◌, Bool, true, false, ap, sym, ◌∙◌, arith, ◌++◌, ◌∷◌, [], List,
  length, length-append, some, ◌==◌, not, ◌&&◌, append_assoc, append_nil,
}
use mathlib.Core.Path.{subst}
use balrog_os.Rbt.{left, right, Nodes, Rbt, leftmost_from}
use balrog_os.Rbt.Shape.{Tree, leaf, node, Ctx, top, under, plug, entries, Focus, addr, open_side}
use balrog_os.Rbt.Colors.{Rb, RbCtx, above_red}
use balrog_os.Rbt.Fixup.{IsRbt, depth}
use balrog_os.Rbt.Place.{before, after, entries-plug_split, open_all}
use balrog_os.Rbt.Order.{lookup, Below}
use balrog_os.Rbt.Link.{open_colors, split_at, split-Below}
use balrog_os.Rbt.Locate.{locate}
use balrog_os.Rbt.Single.{single_high, single_low}
use balrog_os.Rbt.Rekey.{here, moved}
use balrog_os.Rbt.Successor.{Leftmost, after-moved, before-Lefts, before-moved, Leftmost-least}
use balrog_os.Rbt.Replace.{successor-Removes}
use balrog_os.Rbt.Remove.{copy_entry, delete_node, rbt_delete}

abbrev pub two_children : Nodes → ℕ → Bool
two_children h x = not ((h x).low == 0) && not ((h x).high == 0)

-- The entries behind a deleted node: with two children it takes over the key of the next one.
abbrev pub hand_on : Bool → ℕ → List (ℕ × ℕ) → List (ℕ × ℕ)
hand_on false x es = es
hand_on true x [] = []
hand_on true x (e ∷ es) = (x, e.1) ∷ es

-- What rbt_delete promises of the node of a key.
pub record Deletes (n : ℕ) (t : Rbt) (key x : ℕ) (es : List (ℕ × ℕ)) : Type 0 where
  pub front : List (ℕ × ℕ)
  pub back : List (ℕ × ℕ)
  pub done : Rbt
  pub split : es ≡ front ++ ((x, key) ∷ back)
  pub smaller : Below key front
  pub runs : rbt_delete n t x ≡ some done
  pub holds : IsRbt done (front ++ hand_on (two_children t.nodes x) x back)

depth-le : (c : Ctx) → depth c ≤ length (before c) + length (after c)
depth-le top = omega arith
depth-le (under left a k c sib rest) =
    omega (arith, depth-le rest, length-append ((a, k) ∷ entries sib) (after rest))
depth-le (under right a k c sib rest) = omega (
  arith,
  depth-le rest,
  length-append (before rest) (entries sib ++ ((a, k) ∷ [])),
  length-append (entries sib) ((a, k) ∷ []),
)

depth-lt :
    (c : Ctx) (l : Tree) (a k : ℕ) (red : Bool) (r : Tree)
    → depth c < length (entries (plug c (node l a k red r)))
depth-lt c l a k red r = rw (split_at c l a k red r) (
    omega (
      arith,
      depth-le c,
      length-append (before c ++ entries l) ((a, k) ∷ (entries r ++ after c)),
      length-append (before c) (entries l),
      length-append (entries r) (after c),
    ))

and_false : (b : Bool) → (b && false) ≡ false
and_false true = refl
and_false false = refl

and_true : (a b : ℕ) → a ≢ 0 → b ≢ 0 → (not (a == 0) && not (b == 0)) ≡ true
and_true a b h k = ground arith

cons_tail : {x y : ℕ × ℕ} {xs ys : List (ℕ × ℕ)} → x ∷ xs ≡ y ∷ ys → xs ≡ ys
cons_tail e = cc

append_cancel : (xs ys zs : List (ℕ × ℕ)) → xs ++ ys ≡ xs ++ zs → ys ≡ zs
append_cancel [] ys zs e = e
append_cancel (x ∷ xs) ys zs e = append_cancel xs ys zs (cons_tail e)

module _ (n : ℕ) (t : Rbt) (x : ℕ) (real : x ≢ 0) where
  delete_single : two_children t.nodes x ≡ false → rbt_delete n t x ≡ delete_node n t x
  unfolding rbt_delete
  delete_single e = let nz : (x == 0) ≡ false = ground arith in rw (nz, e) refl

  delete_double :
      (b : ℕ)
      → two_children t.nodes x ≡ true
      → leftmost_from n t.nodes (t.nodes x).high ≡ some b
      → rbt_delete n t x ≡ delete_node n (record t { nodes = copy_entry x b t.nodes }) b
  unfolding rbt_delete
  delete_double b e left_is =
      let nz : (x == 0) ≡ false = ground arith in rw (nz, e, left_is, rbt_delete) refl

module _ (c : Ctx) (n m : ℕ) {t : Rbt} (x key : ℕ) (red : Bool) (ctx : RbCtx c m)
    (low : depth c + 3 < n) where
  delete_leaf :
      (r : Tree)
      → Focus t c (node leaf x key red r)
      → Rb (node leaf x key red r) (above_red c) m
      → Deletes n t key x (entries (plug c (node leaf x key red r)))
  delete_leaf r f rb =
      let held = f.here.0 in
      let one : two_children t.nodes x ≡ false = rw held.low_is refl in
      let (done, runs, good) = single_high c n m x key red r f ctx rb low in
      record {
        front = before c ++ [];
        back = entries r ++ after c;
        done = done;
        split = split_at c leaf x key red r;
        smaller = split-Below c leaf x key red r f;
        runs = delete_single n t x held.real one ∙ runs;
        holds = rw (one, append_nil (before c)) (subst (IsRbt done) (entries-plug_split c r) good);
      }

  delete_low :
      (l : Tree)
      → addr l ≢ 0
      → Focus t c (node l x key red leaf)
      → Rb (node l x key red leaf) (above_red c) m
      → Deletes n t key x (entries (plug c (node l x key red leaf)))
  delete_low l real f rb =
      let held = f.here.0 in
      let one : two_children t.nodes x ≡ false =
        rw held.high_is (and_false (not ((t.nodes x).low == 0))) in
      let (done, runs, good) = single_low c n m x key red l real f ctx rb low in
      record {
        front = before c ++ entries l;
        back = after c;
        done = done;
        split = split_at c l x key red leaf;
        smaller = split-Below c l x key red leaf f;
        runs = delete_single n t x held.real one ∙ runs;
        holds =
            rw (one, append_assoc (before c) (entries l) (after c))
              (subst (IsRbt done) (entries-plug_split c l) good);
      }

-- The entries behind a node with two children begin with its successor.
back_next :
    (c : Ctx) (x key : ℕ) (red : Bool) (l r : Tree) (place : Ctx) (b j : ℕ) (bred : Bool)
    (kept : Tree)
    → before place ≡ before c ++ (entries l ++ ((x, key) ∷ []))
    → plug place (node leaf b j bred kept) ≡ plug c (node l x key red r)
    → entries r ++ after c ≡ (b, j) ∷ (entries kept ++ after place)
back_next c x key red l r place b j bred kept front same =
    append_cancel (before c ++ (entries l ++ ((x, key) ∷ []))) _ _ (
      sym (entries-plug_split (under right x key red l c) r)
      ∙ (ap entries (sym same)
          ∙ (entries-plug_split place (node leaf b j bred kept)
              ∙ ap (λ (z : List (ℕ × ℕ)). z ++ ((b, j) ∷ (entries kept ++ after place))) front)))

delete_two :
    (c : Ctx) (n m : ℕ) {t : Rbt} (x key : ℕ) (red : Bool) (l r : Tree)
    → addr l ≢ 0
    → addr r ≢ 0
    → Focus t c (node l x key red r)
    → Leftmost n t (under right x key red l c) (under right x key red l c) r
    → Rb (plug c (node l x key red r)) true m
    → length (entries (plug c (node l x key red r))) + 3 < n
    → Deletes n t key x (entries (plug c (node l x key red r)))
delete_two c n m {t} x key red l r real_l real_r f next colors fuel =
    let held = f.here.0 in
    let two : two_children t.nodes x ≡ true =
      rw (held.low_is, held.high_is) (and_true (addr l) (addr r) real_l real_r) in
    let (m', ctx, rb) =
      open_colors next.place (node leaf next.a next.k next.red next.kept) m
        (subst (λ (z : Tree). Rb z true m) (sym next.same) colors) in
    let levels = depth-lt next.place leaf next.a next.k next.red next.kept in
    let size = ap (λ (z : Tree). length (entries z)) next.same in
    let (done, runs, good) =
      successor-Removes n m' x key red l c next.place next.lefts next.a next.k next.red next.kept
        next.holds held.key_is ctx rb (omega arith) in
    let front = before-Lefts x key next.k red l c next.place next.lefts in
    let behind =
      back_next c x key red l r next.place next.a next.k next.red next.kept front next.same in
    let all =
      entries-plug_split (moved (under right x next.k red l c) next.lefts) next.kept
      ∙ (rw
          (
            before-moved x key next.k red l c next.place next.lefts,
            after-moved x key next.k red l c next.place next.lefts,
          )
          (simp append_assoc)) in
    record {
      front = before c ++ entries l;
      back = entries r ++ after c;
      done = done;
      split = split_at c l x key red r;
      smaller = split-Below c l x key red r f;
      runs = delete_double n t x held.real next.a two (rw held.high_is next.runs) ∙ runs;
      holds = rw (two, behind) (subst (IsRbt done) all good);
    }

-- The deletion of the node at a place, by its number of children.
delete_at :
    (c : Ctx) (n m : ℕ) {t : Rbt} (x key : ℕ) (red : Bool) (l r : Tree)
    → Focus t c (node l x key red r)
    → Rb (plug c (node l x key red r)) true m
    → length (entries (plug c (node l x key red r))) + 3 < n
    → Deletes n t key x (entries (plug c (node l x key red r)))
delete_at c n m x key red leaf r f colors fuel =
    let (m', ctx, rb) = open_colors c (node leaf x key red r) m colors in
    let levels = depth-lt c leaf x key red r in
    delete_leaf c n m' x key red ctx (omega arith) r f rb
delete_at c n m x key red (node ll a k red' lr) leaf f colors fuel =
    let l = node ll a k red' lr in
    let (m', ctx, rb) = open_colors c (node l x key red leaf) m colors in
    let levels = depth-lt c l x key red leaf in
    let held = (open_side left f).here.0 in
    delete_low c n m' x key red ctx (omega arith) l held.real f rb
delete_at c n m x key red (node ll a k red' lr) (node rl b j red'' rr) f colors fuel =
    let l = node ll a k red' lr in
    let r = node rl b j red'' rr in
    let held_l = (open_side left f).here.0 in
    let held_r = (open_side right f).here.0 in
    let size = ap length (split_at c l x key red r) in
    let size' = length-append (before c ++ entries l) ((x, key) ∷ (entries r ++ after c)) in
    let size'' = length-append (entries r) (after c) in
    let size_r = length-append (entries rl) ((b, j) ∷ entries rr) in
    delete_two c n m x key red l r held_l.real held_r.real f
      (Leftmost-least rl n (under right x key red l c) (under right x key red l c) b j red'' rr here
        (open_side right f) (omega arith))
      colors fuel

-- On a heap that holds a red-black tree with a black root, with four units of fuel more than the
-- tree has nodes, rbt_delete of the node of a 64-bit key returns. The heap then holds a red-black
-- tree with a black root, without the entry of the key; where the node had two children, it stays,
-- with the next key, and the node that had this key is out of the tree.
pub rbt_delete-Deletes :
    (n : ℕ) (t : Rbt) (key x : ℕ) (es : List (ℕ × ℕ))
    → IsRbt t es
    → length es + 3 < n
    → key < 18446744073709551616
    → lookup key es ≡ some x
    → Deletes n t key x es
rbt_delete-Deletes n t key x es rbt fuel fits is =
    let size = ap length rbt.same in
    let at = locate n t key x es rbt (omega arith) fits is in
    let f = open_all at.place (subst (Focus t top) (sym at.whole) rbt.holds) in
    subst (Deletes n t key x) (ap entries at.whole ∙ rbt.same) (
      delete_at at.place n rbt.blacks x key at.red at.low at.high f
        (subst (λ (z : Tree). Rb z true rbt.blacks) (sym at.whole) rbt.colors)
        (rw at.whole (omega arith)))
