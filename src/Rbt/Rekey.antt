-- ===== src/Rbt/Rekey.antt =====
-- The node to delete takes the key of its successor: the tree around the place of the successor.
use balrog_os.Prelude.{ℕ, suc, ◌<◌, ◌≡◌, refl, ◌≢◌, inl, inr, Bool, sym, ◌∙◌, arith}
use mathlib.Core.Path.{subst}
use balrog_os.Rbt.{left, right, Nodes}
use balrog_os.Rbt.Shape.{Tree, Ctx, under, Holds, IsTree, IsCtx, addr, lo_of, hi_of, up_of}
use balrog_os.Rbt.Frame.{Holds-same, tree_frame, ctx_frame}
use balrog_os.Rbt.Paint.{ne_of_key}
use balrog_os.Rbt.Single.{tree_widen}

-- A place that is reached from another one by going left.
pub data Lefts (base : Ctx) : Ctx → Type 0 where
  here : Lefts base base
  more :
      {c : Ctx} (a k : ℕ) (red : Bool) (sib : Tree)
      → Lefts base c
      → Lefts base (under left a k red sib c)

-- The same place from another base.
abbrev pub moved : {base c : Ctx} → Ctx → Lefts base c → Ctx
moved base' here = base'
moved base' (more a k red sib l) = under left a k red sib (moved base' l)

module _ (x k j : ℕ) (red : Bool) (s : Tree) (rest : Ctx) where
  pub hi_of-moved :
      (c : Ctx) (l : Lefts (under right x k red s rest) c)
      → hi_of (moved (under right x j red s rest) l) ≡ hi_of c
  hi_of-moved c here = refl
  hi_of-moved (under left a e red' sib c) (more _ _ _ _ l) = refl

  pub up_of-moved :
      (c : Ctx) (l : Lefts (under right x k red s rest) c)
      → up_of (moved (under right x j red s rest) l) ≡ up_of c
  up_of-moved c here = refl
  up_of-moved (under left a e red' sib c) (more _ _ _ _ l) = refl

  pub lo_of-moved :
      (c : Ctx) (l : Lefts (under right x k red s rest) c)
      → lo_of (moved (under right x j red s rest) l) ≡ suc j
  lo_of-moved c here = refl
  lo_of-moved (under left a e red' sib c) (more _ _ _ _ l) = lo_of-moved c l

  pub lo_of-Lefts : (c : Ctx) → Lefts (under right x k red s rest) c → lo_of c ≡ suc k
  lo_of-Lefts c here = refl
  lo_of-Lefts (under left a e red' sib c) (more _ _ _ _ l) = lo_of-Lefts c l

module _ (h h' : Nodes) (root x k j : ℕ) (red : Bool) (s : Tree) (rest : Ctx)
    (key_is : (h x).key ≡ k) (now_key : (h' x).key ≡ j) (now_red : (h' x).red ≡ (h x).red)
    (now_parent : (h' x).parent ≡ (h x).parent) (now_low : (h' x).low ≡ (h x).low)
    (now_high : (h' x).high ≡ (h x).high) (same : (y : ℕ) → y ≢ x → h' y ≡ h y) (up : k < j) where
  other : (y : ℕ) → (h y).key ≢ k → h' y ≡ h y
  other y ne = same y (ne_of_key h x y k key_is ne)

  pub IsTree-rekey : (lo hi u : ℕ) (t : Tree) → k < lo → IsTree h lo hi u t → IsTree h' lo hi u t
  IsTree-rekey lo hi u t lt f = tree_frame lo hi u t (λ y real p q. other y (omega arith)) f

  pub IsCtx-moved :
      (c : Ctx) (l : Lefts (under right x k red s rest) c) (p : ℕ)
      → j < hi_of c
      → IsCtx h root p c
      → IsCtx h' root p (moved (under right x j red s rest) l)
  IsCtx-moved c here p to (held, from, below, fs, fr) = (
    record {
      real = held.real;
      key_is = now_key;
      red_is = now_red ∙ held.red_is;
      parent_is = now_parent ∙ held.parent_is;
      low_is = now_low ∙ held.low_is;
      high_is = now_high ∙ held.high_is;
    },
    omega arith,
    to,
    tree_widen h' (lo_of rest) (lo_of rest) k j x s (omega arith) (omega arith)
        (tree_frame (lo_of rest) k x s (λ y real q r. other y (omega arith)) fs),
    ctx_frame root x rest
        (λ y real q. other y (elim q [ inl r ↦ omega arith | inr r ↦ omega arith ])) fr,
  )
  IsCtx-moved (under left a e red' sib c) (more _ _ _ _ l) p to (held, from, below, fs, fr) =
      let low = lo_of-Lefts x k j red s rest c l in
      let low' = lo_of-moved x k j red s rest c l in
      let high = hi_of-moved x k j red s rest c l in
      let key = held.key_is in
      (
        Holds-same (other a (omega arith)) (
            subst (λ (z : ℕ). Holds h a e red' z p (addr sib))
              (sym (up_of-moved x k j red s rest c l)) held),
        omega arith,
        omega arith,
        subst (λ (z : ℕ). IsTree h' (suc e) z a sib) (sym high)
            (IsTree-rekey (suc e) (hi_of c) a sib (omega arith) fs),
        IsCtx-moved c l a (omega arith) fr,
      )
