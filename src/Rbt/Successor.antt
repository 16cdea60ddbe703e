-- ===== src/Rbt/Successor.antt =====
-- The successor of a node with two children, and the copy of its entry.
use balrog_os.Prelude.{
  ℕ, zero, suc, ◌<◌, ◌≡◌, refl, ◌≢◌, Bool, true, false, ap, ◌∙◌, arith, ◌++◌, ◌∷◌, [], List, length,
  length-append, some, ◌==◌, if◌then◌else◌,
}
use mathlib.Core.Path.{fun_ext}
use balrog_os.Rbt.{Dir, left, right, Nodes, Rbt, put, set_child, set_parent, get_dir, leftmost_from}
use balrog_os.Rbt.Shape.{Tree, leaf, node, Ctx, under, plug, entries, Focus, addr, open_side}
use balrog_os.Rbt.Colors.{RbCtx, BlackAbove}
use balrog_os.Rbt.Balance.{AtSide}
use balrog_os.Rbt.Fixup.{depth}
use balrog_os.Rbt.Place.{before, after}
use balrog_os.Rbt.Rekey.{Lefts, here, more, moved}
use balrog_os.Rbt.Remove.{copy_entry, promote}

module _ (x k j : ℕ) (red : Bool) (s : Tree) (rest : Ctx) where
  black_same :
      (red' : Bool)
      → BlackAbove (under right x k red' s rest)
      → BlackAbove (under right x j red' s rest)
  black_same true h = h
  black_same false h = h

  ctx_same :
      (red' : Bool) (n : ℕ)
      → RbCtx (under right x k red' s rest) n
      → RbCtx (under right x j red' s rest) n
  ctx_same true n h = h
  ctx_same false n h = h

  BlackAbove-moved :
      (c : Ctx) (l : Lefts (under right x k red s rest) c)
      → BlackAbove c
      → BlackAbove (moved (under right x j red s rest) l)
  BlackAbove-moved c here h = black_same red h
  BlackAbove-moved (under left a e true sib c) (more _ _ _ _ l) h = elim h [ ]
  BlackAbove-moved (under left a e false sib c) (more _ _ _ _ l) h = tt

  pub RbCtx-moved :
      (c : Ctx) (l : Lefts (under right x k red s rest) c) (n : ℕ)
      → RbCtx c n
      → RbCtx (moved (under right x j red s rest) l) n
  RbCtx-moved c here n h = ctx_same red n h
  RbCtx-moved (under left a e true sib c) (more _ _ _ _ l) n h =
      (h.0, BlackAbove-moved c l (h.1), RbCtx-moved c l n (h.2))
  RbCtx-moved (under left a e false sib c) (more _ _ _ _ l) n h =
      (h.0, RbCtx-moved c l (suc n) (h.1))

  pub AtSide-moved :
      (c : Ctx) (l : Lefts (under right x k red s rest) c) (d : Dir)
      → AtSide c d
      → AtSide (moved (under right x j red s rest) l) d
  AtSide-moved c here d h = h
  AtSide-moved (under left a e r sib c) (more _ _ _ _ l) d h = h

  pub depth-moved :
      (c : Ctx) (l : Lefts (under right x k red s rest) c)
      → depth (moved (under right x j red s rest) l) ≡ depth c
  depth-moved c here = refl
  depth-moved (under left a e r sib c) (more _ _ _ _ l) = ap suc (depth-moved c l)

  pub after-moved :
      (c : Ctx) (l : Lefts (under right x k red s rest) c)
      → after (moved (under right x j red s rest) l) ≡ after c
  after-moved c here = refl
  after-moved (under left a e r sib c) (more _ _ _ _ l) =
      ap (λ (z : List (ℕ × ℕ)). ((a, e) ∷ entries sib) ++ z) (after-moved c l)

  pub before-Lefts :
      (c : Ctx)
      → Lefts (under right x k red s rest) c
      → before c ≡ before rest ++ (entries s ++ ((x, k) ∷ []))
  before-Lefts c here = refl
  before-Lefts (under left a e r sib c) (more _ _ _ _ l) = before-Lefts c l

  pub before-moved :
      (c : Ctx) (l : Lefts (under right x k red s rest) c)
      → before (moved (under right x j red s rest) l) ≡ before rest ++ (entries s ++ ((x, j) ∷ []))
  before-moved c here = refl
  before-moved (under left a e r sib c) (more _ _ _ _ l) = before-moved c l

-- The walk to the left, from a node.
pub record Leftmost (n : ℕ) (t : Rbt) (base c : Ctx) (s : Tree) : Type 0 where
  pub place : Ctx
  pub lefts : Lefts base place
  pub a : ℕ
  pub k : ℕ
  pub red : Bool
  pub kept : Tree
  pub holds : Focus t place (node leaf a k red kept)
  pub same : plug place (node leaf a k red kept) ≡ plug c s
  pub runs : leftmost_from n t.nodes (addr s) ≡ some a

leftmost_here : (n : ℕ) (h : Nodes) (a : ℕ) → (h a).low ≡ 0 → leftmost_from (suc n) h a ≡ some a
unfolding leftmost_from
leftmost_here n h a e = rw e refl

leftmost_on :
    (n : ℕ) (h : Nodes) (a l : ℕ)
    → (h a).low ≡ l
    → l ≢ 0
    → leftmost_from (suc n) h a ≡ leftmost_from n h l
unfolding leftmost_from
leftmost_on n h a l e real = let nz : (l == 0) ≡ false = ground arith in rw (e, nz) refl

pub Leftmost-least :
    (l : Tree) (n : ℕ) {t : Rbt} (base c : Ctx) (a k : ℕ) (red : Bool) (r : Tree)
    → Lefts base c
    → Focus t c (node l a k red r)
    → length (entries l) < n
    → Leftmost n t base c (node l a k red r)
Leftmost-least l zero base c a k red r lefts f fuel = absurd (omega arith)
Leftmost-least leaf (suc n) {t} base c a k red r lefts f fuel = record {
  place = c;
  lefts = lefts;
  a = a;
  k = k;
  red = red;
  kept = r;
  holds = f;
  same = refl;
  runs = let held = f.here.0 in leftmost_here n t.nodes a held.low_is;
}
Leftmost-least (node l b j red' q) (suc n) {t} base c a k red r lefts f fuel =
    let size = length-append (entries l) ((b, j) ∷ entries q) in
    let g = open_side left f in
    let inner = g.here.0 in
    let held = f.here.0 in
    let rest =
      Leftmost-least l n base (under left a k red r c) b j red' q (more a k red r lefts) g
        (omega arith) in
    record {
      place = rest.place;
      lefts = rest.lefts;
      a = rest.a;
      k = rest.k;
      red = rest.red;
      kept = rest.kept;
      holds = rest.holds;
      same = rest.same;
      runs = leftmost_on n t.nodes a b held.low_is inner.real ∙ rest.runs;
    }

module _ (x b : ℕ) (b_x : b ≢ x) (h : Nodes) where
  copy_parent : (copy_entry x b h b).parent ≡ (h b).parent
  unfolding copy_entry put
  copy_parent = ground arith

  copy_get_dir : get_dir (copy_entry x b h) b ≡ get_dir h b
  unfolding get_dir copy_entry put
  copy_get_dir = ground arith

copy_child_y :
    (d : Dir) (x b : ℕ) (h : Nodes) (u q : ℕ)
    → b ≢ u
    → (y : ℕ) → set_child d u q (copy_entry x b h) y ≡ copy_entry x b (set_child d u q h) y
unfolding copy_entry put
copy_child_y left x b h u q b_u y = ground arith
copy_child_y right x b h u q b_u y = ground arith

copy_parent_y :
    (x b : ℕ) (h : Nodes) (q v : ℕ)
    → b ≢ q
    → (y : ℕ) → set_parent q v (copy_entry x b h) y ≡ copy_entry x b (set_parent q v h) y
unfolding copy_entry put
copy_parent_y x b h q v b_q y = ground arith

if_apply {ℓ κ} :
    {A : Type ℓ} {B : Type κ} (f : A → B) (c : Bool) (y z : A)
    → (if c then f y else f z) ≡ f (if c then y else z)
if_apply f true y z = refl
if_apply f false y z = refl

-- The copy may as well come after the node has left the tree.
pub promote-copy :
    (t : Rbt) (x b q : ℕ)
    → b ≢ x
    → b ≢ (t.nodes b).parent
    → b ≢ q
    → promote (record t { nodes = copy_entry x b t.nodes }) b q
      ≡ record (promote t b q) { nodes = copy_entry x b (promote t b q).nodes }
unfolding promote
promote-copy t x b q b_x b_u b_q =
    let h = t.nodes in
    let u : ℕ = (h b).parent in
    let cp = copy_entry x b in
    let d = get_dir h b in
    let linked = if u == 0 then h else set_child d u q h in
    let child_eq = fun_ext (copy_child_y d x b h u q b_u) in
    let parent_eq = fun_ext (copy_parent_y x b linked q (linked b).parent b_q) in
    let linked_eq : (if u == 0 then cp h else set_child d u q (cp h)) ≡ cp linked =
      rw child_eq (if_apply cp (u == 0) h (set_child d u q h)) in
    rw
      (
        copy_parent x b b_x h,
        copy_get_dir x b b_x h,
        linked_eq,
        copy_parent x b b_x linked,
        parent_eq,
      )
      (ap (λ (z : Nodes). record (promote t b q) { nodes = z })
        (if_apply cp (q == 0) linked (set_parent q (linked b).parent linked)))
