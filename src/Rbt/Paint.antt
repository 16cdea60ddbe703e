-- ===== src/Rbt/Paint.antt =====
-- A node gets another color, at its place.
use balrog_os.Prelude.{ℕ, suc, ◌≡◌, refl, ◌≢◌, inl, inr, Bool, ap, ◌∙◌, arith}
use balrog_os.Rbt.{Node, Nodes, Rbt, put, set_red}
use balrog_os.Rbt.Shape.{Tree, node, Ctx, Focus, lo_of, hi_of}
use balrog_os.Rbt.Frame.{tree_frame, ctx_frame}

pub put-at : (a : ℕ) (n : Node) (h : Nodes) → put a n h a ≡ n
unfolding put
put-at a n h = ground arith

pub put-ne : (a y : ℕ) (n : Node) (h : Nodes) → y ≢ a → put a n h y ≡ h y
unfolding put
put-ne a y n h ne = ground arith

-- A node whose key differs is another one.
pub ne_of_key : (h : Nodes) (a y k : ℕ) → (h a).key ≡ k → (h y).key ≢ k → y ≢ a
ne_of_key h a y k e ne same = ne (ap (λ (z : ℕ). (h z).key) same ∙ e)

pub Focus-paint :
    (v : Bool) {t : Rbt} {c : Ctx} (l : Tree) (a k : ℕ) (red : Bool) (r : Tree)
    → Focus t c (node l a k red r)
    → Focus (record t { nodes = set_red a v t.nodes }) c (node l a k v r)
Focus-paint v {t} {c} l a k red r f =
    let (held, from, to, fl, fr) = f.here in
    let other = λ (y : ℕ) (ne : (t.nodes y).key ≢ k).
      put-ne a y (record (t.nodes a) { red = v }) t.nodes
        (ne_of_key t.nodes a y k held.key_is ne) in
    let now = put-at a (record (t.nodes a) { red = v }) t.nodes in
    record {
      around =
          ctx_frame t.root a c
            (λ y real p. other y (elim p [ inl q ↦ omega arith | inr q ↦ omega arith ])) f.around;
      here = (
        record {
          real = held.real;
          key_is = rw now held.key_is;
          red_is = rw now refl;
          parent_is = rw now held.parent_is;
          low_is = rw now held.low_is;
          high_is = rw now held.high_is;
        },
        from,
        to,
        tree_frame (lo_of c) k a l (λ y real p q. other y (omega arith)) fl,
        tree_frame (suc k) (hi_of c) a r (λ y real p q. other y (omega arith)) fr,
      );
    }
