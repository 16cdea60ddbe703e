-- ===== src/Rbt/Spliced.antt =====
-- After a node has left the tree: the colors are repaired, by its child or by `__delete_fixup`.
use balrog_os.Prelude.{
  ℕ, zero, suc, ◌+◌, ◌<◌, ◌≡◌, refl, Bool, true, false, ap, sym, ◌∙◌, arith, some, ◌==◌,
  if◌then◌else◌, List, Bool-cases, ==_iff, inl, inr,
}
use mathlib.Core.Path.{subst, fun_ext}
use balrog_os.Rbt.{
  Dir, left, right, Node, Nodes, Rbt, child, with_child, put, set_child, set_red, is_red,
}
use balrog_os.Rbt.Shape.{
  Tree, leaf, node, Ctx, top, under, plug, entries, Focus, addr, up_of, close_all, close,
}
use balrog_os.Rbt.Paint.{Focus-paint}
use balrog_os.Rbt.Lift.{Focus-At}
use balrog_os.Rbt.Colors.{Rb, RbCtx, plug-Rb, Rb-below_black, entries-plug}
use balrog_os.Rbt.Fixup.{IsRbt, depth}
use balrog_os.Rbt.Balance.{AtSide, balance}
use balrog_os.Rbt.Remove.{settle_colors}

-- What remains of a node with at most one child, and its color.
pub data Kept (red : Bool) (s : Tree) (n : ℕ) : Type 0 where
  red_leaf : red ≡ true → s ≡ leaf → n ≡ 0 → Kept red s n
  black_leaf : red ≡ false → s ≡ leaf → n ≡ 1 → Kept red s n
  black_red :
      (l : Tree) (a k : ℕ) (r : Tree)
      → red ≡ false
      → s ≡ node l a k true r
      → n ≡ 1
      → Rb l true 0
      → Rb r true 0
      → Kept red s n

Kept-black : (s : Tree) (n m : ℕ) → n ≡ suc m → m ≡ 0 → Rb s false m → Kept false s n
Kept-black leaf n m e z h = black_leaf refl refl (omega arith)
Kept-black (node l a k true r) n m e z h =
    black_red l a k r refl refl (omega arith) (subst (Rb l true) z (h.1))
      (subst (Rb r true) z (h.2))
Kept-black (node l a k false r) n zero e z h = elim h [ ]
Kept-black (node l a k false r) n (suc m) e z h = absurd (omega arith)

Kept-red : (s : Tree) (n : ℕ) → n ≡ 0 → Rb s true n → Kept true s n
Kept-red leaf n z h = red_leaf refl refl z
Kept-red (node l a k true r) n z h = absurd (let e = h.0 in cc)
Kept-red (node l a k false r) zero z h = elim h [ ]
Kept-red (node l a k false r) (suc n) z h = absurd (omega arith)

pub Kept-high :
    (x k : ℕ) (red above : Bool) (s : Tree) (n : ℕ)
    → Rb (node leaf x k red s) above n
    → Kept red s n
Kept-high x k true above s n h = Kept-red s n (h.1) (h.2)
Kept-high x k false above s zero h = elim h [ ]
Kept-high x k false above s (suc n) h = Kept-black s (suc n) n refl (h.0) (h.1)

pub Kept-low :
    (x k : ℕ) (red above : Bool) (s : Tree) (n : ℕ)
    → Rb (node s x k red leaf) above n
    → Kept red s n
Kept-low x k true above s n h = Kept-red s n (h.2) (h.1)
Kept-low x k false above s zero h = elim h [ ]
Kept-low x k false above s (suc n) h = Kept-black s (suc n) n refl (h.1) (h.0)

put_same_at : (a : ℕ) (n : Node) (h : Nodes) → n ≡ h a → (x : ℕ) → put a n h x ≡ h x
unfolding put
put_same_at a n h e x = elim (Bool-cases (x == a)) [
  | inl is ↦ rw is (e ∙ ap h (sym ((==_iff x a).0 is)))
  | inr is ↦ rw is refl
]

-- A store of what is there changes nothing.
put_same : (a : ℕ) (n : Node) (h : Nodes) → n ≡ h a → put a n h ≡ h
put_same a n h e = fun_ext (λ x. put_same_at a n h e x)

with_child_same : (d : Dir) (n : Node) (v : ℕ) → child d n ≡ v → with_child d v n ≡ n
with_child_same left n v e = rw (sym e) refl
with_child_same right n v e = rw (sym e) refl

if_same {ℓ} : {A : Type ℓ} (b : Bool) (x : A) → (if b then x else x) ≡ x
if_same true x = refl
if_same false x = refl

null_again :
    (c : Ctx) {t : Rbt} (d : Dir)
    → AtSide c d
    → Focus t c leaf
    → (if up_of c == 0 then t.nodes else set_child d (up_of c) 0 t.nodes) ≡ t.nodes
null_again top d side f = refl
null_again (under e a k c sib rest) {t} d side f =
    let at = Focus-At e leaf a k c sib (close e f) in
    let same =
      put_same a (with_child d 0 (t.nodes a)) t.nodes
        (rw side (with_child_same e (t.nodes a) 0 at.near_is)) in
    rw same (if_same (a == 0) t.nodes)

-- The repair of the colors ends with a red-black tree.
abbrev Settled : ℕ → Rbt → (x kept : ℕ) → Dir → List (ℕ × ℕ) → Type 0
Settled n t x kept d es = (done : Rbt) × (settle_colors n t x kept d ≡ some done) × IsRbt done es

module _ (c : Ctx) (n : ℕ) {t : Rbt} (x : ℕ) (d : Dir) (up_is : (t.nodes x).parent ≡ up_of c) where
  Settled-red :
      (t.nodes x).red ≡ true
      → Focus t c leaf
      → RbCtx c 0
      → Settled n t x 0 d (entries (plug c leaf))
  unfolding settle_colors
  Settled-red red f ctx =
      let (m, colors) = plug-Rb c leaf 0 ctx refl in
      (
        t,
        rw red refl,
        record {
          tree = plug c leaf;
          holds = close_all c f;
          blacks = m;
          colors = colors;
          same = refl;
        },
      )

  Settled-black :
      (t.nodes x).red ≡ false
      → Focus t c leaf
      → RbCtx c 1
      → AtSide c d
      → depth c + 3 < n
      → Settled n t x 0 d (entries (plug c leaf))
  unfolding settle_colors
  Settled-black black f ctx side fuel =
      let rest = balance c n 0 leaf d fuel side f ctx refl in
      (
        rest.end,
        rw (black, up_is, null_again c d side f) rest.runs,
        record {
          tree = rest.tree;
          holds = rest.holds;
          blacks = rest.blacks;
          colors = rest.colors;
          same = rest.same;
        },
      )

  Settled-child :
      (l : Tree) (a k : ℕ) (r : Tree)
      → (t.nodes x).red ≡ false
      → Focus t c (node l a k true r)
      → RbCtx c 1
      → Rb l true 0
      → Rb r true 0
      → Settled n t x a d (entries (plug c (node l a k true r)))
  unfolding settle_colors
  Settled-child l a k r black f ctx rb_l rb_r =
      let held = f.here.0 in
      let red = held.red_is in
      let is : is_red t.nodes a ≡ true = let real = held.real in ground arith in
      let (m, colors) =
        plug-Rb c (node l a k false r) 1 ctx (Rb-below_black l 0 rb_l, Rb-below_black r 0 rb_r) in
      (
        record t { nodes = set_red a false t.nodes },
        rw (black, is, red) refl,
        record {
          tree = plug c (node l a k false r);
          holds = close_all c (Focus-paint false l a k true r f);
          blacks = m;
          colors = colors;
          same = entries-plug c (node l a k false r) (node l a k true r) refl;
        },
      )

pub settled :
    (c : Ctx) (n m : ℕ) {t : Rbt} (x : ℕ) (d : Dir) (red : Bool) (s : Tree)
    → (t.nodes x).parent ≡ up_of c
    → (t.nodes x).red ≡ red
    → Focus t c s
    → RbCtx c m
    → Kept red s m
    → AtSide c d
    → depth c + 3 < n
    → (done : Rbt) × (settle_colors n t x (addr s) d ≡ some done) × IsRbt done (entries (plug c s))
settled c n m {t} x d red s up_is is f ctx (red_leaf r e z) side fuel =
    subst (λ (w : Tree). Settled n t x (addr w) d (entries (plug c w))) (sym e)
      (Settled-red c n x d up_is (is ∙ r) (subst (Focus t c) e f) (subst (RbCtx c) z ctx))
settled c n m {t} x d red s up_is is f ctx (black_leaf b e z) side fuel =
    subst (λ (w : Tree). Settled n t x (addr w) d (entries (plug c w))) (sym e)
      (Settled-black c n x d up_is (is ∙ b) (subst (Focus t c) e f) (subst (RbCtx c) z ctx) side
        fuel)
settled c n m {t} x d red s up_is is f ctx (black_red l a k r b e z rb_l rb_r) side fuel =
    subst (λ (w : Tree). Settled n t x (addr w) d (entries (plug c w))) (sym e)
      (Settled-child c n x d up_is l a k r (is ∙ b) (subst (Focus t c) e f) (subst (RbCtx c) z ctx)
        rb_l rb_r)
