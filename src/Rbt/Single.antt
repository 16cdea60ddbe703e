-- ===== src/Rbt/Single.antt =====
-- rbt_delete of a node with at most one child.
use balrog_os.Prelude.{
  ℕ, suc, ◌+◌, ◌<◌, ◌≤◌, ◌≡◌, refl, ◌≢◌, inl, inr, Bool, false, arith, some, ◌==◌, List,
}
use balrog_os.Rbt.{Nodes, Rbt}
use balrog_os.Rbt.Shape.{
  Tree, leaf, node, Ctx, top, under, plug, entries, IsTree, Focus, addr, lo_of, hi_of, up_of, close,
}
use balrog_os.Rbt.Lift.{get_dir-side}
use balrog_os.Rbt.Colors.{Rb, RbCtx, above_red}
use balrog_os.Rbt.Fixup.{IsRbt, depth}
use balrog_os.Rbt.Mended.{real_at}
use balrog_os.Rbt.Balance.{AtSide}
use balrog_os.Rbt.Promote.{promote_x, promote-IsTree, promote-IsCtx}
use balrog_os.Rbt.Spliced.{Kept-high, Kept-low, settled}
use balrog_os.Rbt.Remove.{promoted, dir_of, promote, delete_node}

pub tree_widen :
    (h : Nodes) (lo lo' hi hi' up : ℕ) (s : Tree)
    → lo' ≤ lo
    → hi ≤ hi'
    → IsTree h lo hi up s
    → IsTree h lo' hi' up s
tree_widen h lo lo' hi hi' up leaf p q f = tt
tree_widen h lo lo' hi hi' up (node l a k c r) p q (held, from, to, fl, fr) = (
  held,
  omega arith,
  omega arith,
  tree_widen h lo lo' k k a l p (omega arith) fl,
  tree_widen h (suc k) (suc k) hi hi' a r (omega arith) q fr,
)

-- The direction that rbt_delete takes down is the side of the node.
pub dir_of-AtSide :
    (c : Ctx) {t : Rbt} (l : Tree) (x k : ℕ) (red : Bool) (r : Tree)
    → Focus t c (node l x k red r)
    → AtSide c (dir_of t.nodes x)
unfolding dir_of
dir_of-AtSide top l x k red r f = tt
dir_of-AtSide (under e g kg gc uncle rest) {t} l x k red r f =
    let held = f.here.0 in
    let up = held.parent_is in
    let real = real_at e (node l x k red r) g kg gc uncle (close e f) in
    let nz : ((t.nodes x).parent == 0) ≡ false = rw up (ground arith) in
    rw nz
      (get_dir-side e (node l x k red r) g kg gc uncle x (close e f) refl held.real held.parent_is)

pub promoted_high : (h : Nodes) (x b : ℕ) → (h x).low ≡ 0 → (h x).high ≡ b → promoted h x ≡ b
unfolding promoted
promoted_high h x b low high = rw low high

pub promoted_low : (h : Nodes) (x b : ℕ) → (h x).low ≡ b → b ≢ 0 → promoted h x ≡ b
unfolding promoted
promoted_low h x b low real = let nz : (b == 0) ≡ false = ground arith in rw (low, nz) refl

-- The deletion of the node `x`, at its place, with what is kept of it.
abbrev pub Removes : ℕ → Rbt → ℕ → List (ℕ × ℕ) → Type 0
Removes n t x es = (done : Rbt) × (delete_node n t x ≡ some done) × IsRbt done es

pub single_high :
    (c : Ctx) (n m : ℕ) {t : Rbt} (x k : ℕ) (red : Bool) (s : Tree)
    → Focus t c (node leaf x k red s)
    → RbCtx c m
    → Rb (node leaf x k red s) (above_red c) m
    → depth c + 3 < n
    → Removes n t x (entries (plug c s))
unfolding delete_node
single_high c n m {t} x k red s f ctx rb fuel =
    let (held, from, to, _, fs) = f.here in
    let kept = promoted_high t.nodes x (addr s) held.low_is held.high_is in
    let same =
      promote_x t c x k (suc k) (hi_of c) s f.around held.real held.key_is held.parent_is fs from to
        (omega arith) (omega arith) (inl (omega arith)) in
    let place : Focus (promote t x (addr s)) c s = record {
      around =
          promote-IsCtx t c x k (suc k) (hi_of c) s f.around held.real held.key_is held.parent_is fs
            from to (omega arith) (omega arith) (inl (omega arith));
      here =
          tree_widen ((promote t x (addr s)).nodes) (suc k) (lo_of c) (hi_of c) (hi_of c) (up_of c)
            s (omega arith) (omega arith)
            (promote-IsTree t c x k (suc k) (hi_of c) s f.around held.real held.key_is
              held.parent_is fs from to (omega arith) (omega arith) (inl (omega arith)));
    } in
    rw (kept, delete_node)
      (settled c n m x (dir_of t.nodes x) red s (rw same held.parent_is) (rw same held.red_is) place
        ctx (Kept-high x k red (above_red c) s m rb) (dir_of-AtSide c leaf x k red s f) fuel)

pub single_low :
    (c : Ctx) (n m : ℕ) {t : Rbt} (x k : ℕ) (red : Bool) (s : Tree)
    → addr s ≢ 0
    → Focus t c (node s x k red leaf)
    → RbCtx c m
    → Rb (node s x k red leaf) (above_red c) m
    → depth c + 3 < n
    → Removes n t x (entries (plug c s))
unfolding delete_node
single_low c n m {t} x k red s real f ctx rb fuel =
    let (held, from, to, fs, _) = f.here in
    let kept = promoted_low t.nodes x (addr s) held.low_is real in
    let same =
      promote_x t c x k (lo_of c) k s f.around held.real held.key_is held.parent_is fs from to
        (omega arith) (omega arith) (inr (omega arith)) in
    let place : Focus (promote t x (addr s)) c s = record {
      around =
          promote-IsCtx t c x k (lo_of c) k s f.around held.real held.key_is held.parent_is fs from
            to (omega arith) (omega arith) (inr (omega arith));
      here =
          tree_widen ((promote t x (addr s)).nodes) (lo_of c) (lo_of c) k (hi_of c) (up_of c) s
            (omega arith) (omega arith)
            (promote-IsTree t c x k (lo_of c) k s f.around held.real held.key_is held.parent_is fs
              from to (omega arith) (omega arith) (inr (omega arith)));
    } in
    rw (kept, delete_node)
      (settled c n m x (dir_of t.nodes x) red s (rw same held.parent_is) (rw same held.red_is) place
        ctx (Kept-low x k red (above_red c) s m rb) (dir_of-AtSide c s x k red leaf f) fuel)
