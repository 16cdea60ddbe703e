-- ===== src/Rbt/Turn.antt =====
-- A rotation of a tree at its place: the rotating node goes below its child.
use balrog_os.Prelude.{
  ℕ, suc, ◌≤◌, ◌<◌, ◌≡◌, refl, ◌≢◌, ◌⊎◌, inl, inr, ap, sym, ◌∙◌, arith, if◌then◌else◌, ◌==◌,
}
use mathlib.Core.Path.{subst}
use balrog_os.Rbt.{Dir, left, right, flip, Nodes, child, with_child}
use balrog_os.Rbt.Shape.{
  Tree, leaf, node, Ctx, top, under, IsTree, IsCtx, addr, lo_of, hi_of, up_of,
}
use balrog_os.Rbt.Frame.{tree_frame, ctx_frame}

-- The root of a subtree is no node whose key is out of its range.
pub root_apart :
    (h : Nodes) (lo hi up : ℕ) (s : Tree) (y : ℕ)
    → IsTree h lo hi up s
    → y ≢ 0
    → ((h y).key < lo) ⊎ (hi ≤ (h y).key)
    → addr s ≢ y
root_apart h lo hi up leaf y f real out = λ e. real (sym e)
root_apart h lo hi up (node l a k c r) y (held, from, to, fl, fr) real out =
    let key = held.key_is in
    λ e.
      let same : (h a).key ≡ (h y).key = ap (λ (z : ℕ). (h z).key) e in
      elim out [ inl q ↦ absurd (omega arith) | inr q ↦ absurd (omega arith) ]

-- The node above a place is no node whose key is in the range of the place.
pub up_apart :
    (h : Nodes) (root p : ℕ) (c : Ctx) (y : ℕ)
    → IsCtx h root p c
    → y ≢ 0
    → lo_of c ≤ (h y).key
    → (h y).key < hi_of c
    → y ≢ up_of c
up_apart h root p top y f real from to = real
up_apart h root p (under left a k c sib rest) y (held, _, _, fs, fr) real from to =
    let key = held.key_is in
    λ e. let same : (h y).key ≡ (h a).key = ap (λ (z : ℕ). (h z).key) e in absurd (omega arith)
up_apart h root p (under right a k c sib rest) y (held, _, _, fs, fr) real from to =
    let key = held.key_is in
    λ e. let same : (h y).key ≡ (h a).key = ap (λ (z : ℕ). (h z).key) e in absurd (omega arith)

-- A subtree that gets another node above it.
pub reparent :
    {h h' : Nodes} (lo hi up up' : ℕ) (s : Tree)
    → (addr s ≢ 0 → h' (addr s) ≡ record (h (addr s)) { parent = up' })
    → ((y : ℕ) → y ≢ 0 → y ≢ addr s → lo ≤ (h y).key → (h y).key < hi → h' y ≡ h y)
    → IsTree h lo hi up s
    → IsTree h' lo hi up' s
reparent lo hi up up' leaf now same f = tt
reparent {h} lo hi up up' (node l a k c r) now same (held, from, to, fl, fr) =
    let key = held.key_is in
    let ne = λ (y : ℕ) (n : (h y).key ≢ k) (e : y ≡ a). n (ap (λ (z : ℕ). (h z).key) e ∙ key) in
    (
      record {
        real = held.real;
        key_is = rw (now held.real) held.key_is;
        red_is = rw (now held.real) held.red_is;
        parent_is = rw (now held.real) refl;
        low_is = rw (now held.real) held.low_is;
        high_is = rw (now held.real) held.high_is;
      },
      from,
      to,
      tree_frame lo k a l (λ y real p q. same y real (ne y (omega arith)) p (omega arith)) fl,
      tree_frame (suc k) hi a r (λ y real p q. same y real (ne y (omega arith)) (omega arith) q) fr,
    )

root_same : (root' root a p : ℕ) → a ≢ 0 → root' ≡ (if a == 0 then p else root) → root ≡ root'
root_same root' root a p real now = ground arith

-- What is around a place keeps its nodes, but for the link to the place.
pub relinked :
    {h h' : Nodes} (root root' x p : ℕ) (c : Ctx)
    → x ≢ 0
    → lo_of c ≤ (h x).key
    → (h x).key < hi_of c
    → root' ≡ (if up_of c == 0 then p else root)
    → ((e : Dir)
        → up_of c ≢ 0
        → child e (h (up_of c)) ≡ x
        → child (flip e) (h (up_of c)) ≢ x
        → h' (up_of c) ≡ with_child e p (h (up_of c)))
    → ((y : ℕ) → y ≢ 0 → y ≢ up_of c → ((h y).key < lo_of c) ⊎ (hi_of c ≤ (h y).key) → h' y ≡ h y)
    → IsCtx h root x c
    → IsCtx h' root' p c
relinked root root' x p top real from to now link same f = now
relinked {h} {h'} root root' x p (under left a k c sib rest) real from to now link same
      (held, lo, hi, fs, fr) =
    let key = held.key_is in
    let ne = λ (y : ℕ) (n : (h y).key ≢ k) (e : y ≡ a). n (ap (λ (z : ℕ). (h z).key) e ∙ key) in
    let linked =
      link left held.real held.low_is
        (rw held.high_is (root_apart h (suc k) (hi_of rest) a sib x fs real (inl (omega arith)))) in
    (
      record {
        real = held.real;
        key_is = rw linked held.key_is;
        red_is = rw linked held.red_is;
        parent_is = rw linked held.parent_is;
        low_is = rw linked refl;
        high_is = rw linked held.high_is;
      },
      lo,
      hi,
      tree_frame (suc k) (hi_of rest) a sib
          (λ y ry p q. same y ry (ne y (omega arith)) (inr (omega arith))) fs,
      subst (λ (z : ℕ). IsCtx h' z a rest) (root_same root' root a p held.real now)
          (ctx_frame root a rest
            (λ y ry p.
              same y ry (elim p [ inl q ↦ ne y (omega arith) | inr q ↦ ne y (omega arith) ])
                (elim p [ inl q ↦ inl q | inr q ↦ inr (omega arith) ]))
            fr),
    )
relinked {h} {h'} root root' x p (under right a k c sib rest) real from to now link same
      (held, lo, hi, fs, fr) =
    let key = held.key_is in
    let ne = λ (y : ℕ) (n : (h y).key ≢ k) (e : y ≡ a). n (ap (λ (z : ℕ). (h z).key) e ∙ key) in
    let linked =
      link right held.real held.high_is
        (rw held.low_is (root_apart h (lo_of rest) k a sib x fs real (inr (omega arith)))) in
    (
      record {
        real = held.real;
        key_is = rw linked held.key_is;
        red_is = rw linked held.red_is;
        parent_is = rw linked held.parent_is;
        low_is = rw linked held.low_is;
        high_is = rw linked refl;
      },
      lo,
      hi,
      tree_frame (lo_of rest) k a sib
          (λ y ry p q. same y ry (ne y (omega arith)) (inl (omega arith))) fs,
      subst (λ (z : ℕ). IsCtx h' z a rest) (root_same root' root a p held.real now)
          (ctx_frame root a rest
            (λ y ry p.
              same y ry (elim p [ inl q ↦ ne y (omega arith) | inr q ↦ ne y (omega arith) ])
                (elim p [ inl q ↦ inl (omega arith) | inr q ↦ inr q ]))
            fr),
    )
