-- ===== src/Rbt/Frame.antt =====
-- Stores that leave a tree, and what is around it, alone: they go to nodes with other keys.
use balrog_os.Prelude.{ℕ, suc, ◌≤◌, ◌<◌, ◌≡◌, ◌≢◌, ◌⊎◌, inl, inr, Bool, arith}
use balrog_os.Rbt.{left, right, Nodes}
use balrog_os.Rbt.Shape.{Tree, leaf, node, Ctx, top, under, Holds, IsTree, IsCtx, lo_of, hi_of}

pub Holds-same :
    {h h' : Nodes} {a k : ℕ} {c : Bool} {up l r : ℕ}
    → h' a ≡ h a
    → Holds h a k c up l r
    → Holds h' a k c up l r
Holds-same e f = record {
  real = f.real;
  key_is = rw e f.key_is;
  red_is = rw e f.red_is;
  parent_is = rw e f.parent_is;
  low_is = rw e f.low_is;
  high_is = rw e f.high_is;
}

-- The two heaps agree at the nodes whose key is in a range, or outside of it.
abbrev pub Inside : Nodes → Nodes → ℕ → ℕ → Type 0
Inside h h' lo hi = (y : ℕ) → y ≢ 0 → lo ≤ (h y).key → (h y).key < hi → h' y ≡ h y

abbrev pub Outside : Nodes → Nodes → ℕ → ℕ → Type 0
Outside h h' lo hi = (y : ℕ) → y ≢ 0 → ((h y).key < lo) ⊎ (hi ≤ (h y).key) → h' y ≡ h y

pub tree_frame :
    {h h' : Nodes} (lo hi up : ℕ) (s : Tree)
    → Inside h h' lo hi
    → IsTree h lo hi up s
    → IsTree h' lo hi up s
tree_frame lo hi up leaf same f = tt
tree_frame lo hi up (node l a k c r) same (f, from, to, fl, fr) = (
  Holds-same (same a f.real (omega (arith, f.key_is)) (omega (arith, f.key_is))) f,
  from,
  to,
  tree_frame lo k a l (λ y real p q. same y real p (omega arith)) fl,
  tree_frame (suc k) hi a r (λ y real p q. same y real (omega arith) q) fr,
)

pub ctx_frame :
    {h h' : Nodes} (root p : ℕ) (c : Ctx)
    → Outside h h' (lo_of c) (hi_of c)
    → IsCtx h root p c
    → IsCtx h' root p c
ctx_frame root p top same f = f
ctx_frame root p (under left a k c sib rest) same (f, from, to, fs, fr) = (
  Holds-same (same a f.real (inr (omega (arith, f.key_is)))) f,
  from,
  to,
  tree_frame (suc k) (hi_of rest) a sib (λ y real p q. same y real (inr (omega arith))) fs,
  ctx_frame root a rest
      (λ y real p. same y real (elim p [ inl q ↦ inl q | inr q ↦ inr (omega arith) ])) fr,
)
ctx_frame root p (under right a k c sib rest) same (f, from, to, fs, fr) = (
  Holds-same (same a f.real (inl (omega (arith, f.key_is)))) f,
  from,
  to,
  tree_frame (lo_of rest) k a sib (λ y real p q. same y real (inl (omega arith))) fs,
  ctx_frame root a rest
      (λ y real p. same y real (elim p [ inl q ↦ inl (omega arith) | inr q ↦ inr q ])) fr,
)
