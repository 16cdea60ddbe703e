-- ===== src/Rbt/Round.antt =====
-- One round of `__insert_fixup` at a red node below a red one, in its three cases.
use balrog_os.Prelude.{ℕ, suc, ◌≡◌, refl, ◌≢◌, Bool, true, false, ◌∙◌, arith, ◌==◌}
use mathlib.Core.Path.{subst}
use balrog_os.Rbt.{
  Dir, left, right, flip, Nodes, Rbt, child, is_red, get_dir, rotate, recolor, lift, fixup_turn,
}
use balrog_os.Rbt.Shape.{
  Tree, leaf, node, Ctx, under, mk, IsTree, Focus, addr, lo_of, hi_of, close, open_side,
}
use balrog_os.Rbt.Rotated.{rotate-Focus}
use balrog_os.Rbt.Lift.{Focus-At, children_differ, get_dir-side, lift-Focus}
use balrog_os.Rbt.Colors.{Rb, root_red}

module _ (t : Rbt) (ptr p g u : ℕ) (e : Dir) (parent_is : (t.nodes ptr).parent ≡ p)
    (grand_is : (t.nodes p).parent ≡ g) (dir_is : get_dir t.nodes p ≡ e)
    (uncle_is : child (flip e) (t.nodes g) ≡ u) where
  turn_red : is_red t.nodes u ≡ true → fixup_turn t ptr ≡ (recolor t p u g, g)
  unfolding fixup_turn
  turn_red red = rw (parent_is, grand_is, dir_is, uncle_is, red) refl

  turn_outer :
      is_red t.nodes u ≡ false
      → (ptr == child (flip e) (t.nodes p)) ≡ false
      → fixup_turn t ptr ≡ (lift t ptr p g e, p)
  unfolding fixup_turn
  turn_outer black outer = rw (parent_is, dir_is, outer, grand_is, uncle_is, black) refl

  turn_inner :
      is_red t.nodes u ≡ false
      → (ptr == child (flip e) (t.nodes p)) ≡ true
      → fixup_turn t ptr ≡ (
        lift (rotate t p e) p (((rotate t p e).nodes p).parent) g e,
        ((rotate t p e).nodes p).parent,
      )
  unfolding fixup_turn
  turn_inner black inner = rw (parent_is, dir_is, inner, grand_is, uncle_is, black) refl

-- A subtree that is a red node, whose own subtrees are in order.
abbrev pub RedNode : Tree → ℕ → Type 0
RedNode leaf n = ⊥
RedNode (node l a k true r) n = Rb l true n × Rb r true n
RedNode (node l a k false r) n = ⊥

-- The node above a place, and the one above that.
pub above_is :
    (d : Dir) {t : Rbt} (n : ℕ) {p kp : ℕ} {c : Bool} {sib : Tree} {rest : Ctx} (s : Tree)
    → RedNode s n
    → Focus t (under d p kp c sib rest) s
    → (t.nodes (addr s)).parent ≡ p
above_is d n leaf red f = elim red [ ]
above_is d n (node l a k true r) red f = let held = f.here.0 in held.parent_is
above_is d n (node l a k false r) red f = elim red [ ]

pub real_red : {t : Rbt} (n : ℕ) {c : Ctx} (s : Tree) → RedNode s n → Focus t c s → addr s ≢ 0
real_red n leaf red f = elim red [ ]
real_red n (node l a k true r) red f = let held = f.here.0 in held.real
real_red n (node l a k false r) red f = elim red [ ]

pub Rb-RedNode : (s : Tree) (n : ℕ) → RedNode s n → Rb s false n
Rb-RedNode leaf n red = elim red [ ]
Rb-RedNode (node l a k true r) n red = (refl, red.0, red.1)
Rb-RedNode (node l a k false r) n red = elim red [ ]

pub addr-mk : (d : Dir) (s t : Tree) (a k : ℕ) (c : Bool) → addr (mk d s a k c t) ≡ a
addr-mk left s t a k c = refl
addr-mk right s t a k c = refl

pub root-is_red :
    (h : Nodes) (lo hi up : ℕ) (s : Tree) → IsTree h lo hi up s → is_red h (addr s) ≡ root_red s
root-is_red h lo hi up leaf f = refl
root-is_red h lo hi up (node l a k c r) (held, _, _, _, _) =
    let real = held.real in let red = held.red_is in ground arith

pub far-is_red :
    (e : Dir) {t : Rbt} {c : Ctx} (near : Tree) (g kg : ℕ) (cg : Bool) (far : Tree)
    → Focus t c (mk e near g kg cg far)
    → is_red t.nodes (addr far) ≡ root_red far
far-is_red left {t} {c} near g kg cg far f =
    let (_, _, _, _, held) = f.here in root-is_red t.nodes (suc kg) (hi_of c) g far held
far-is_red right {t} {c} near g kg cg far f =
    let (_, _, _, held, _) = f.here in root-is_red t.nodes (lo_of c) kg g far held

module _ (d e : Dir) {t : Rbt} {rest : Ctx} (s : Tree) (p kp : ℕ) (sib : Tree) (g kg n : ℕ)
    (uncle : Tree) (f : Focus t (under d p kp true sib (under e g kg false uncle rest)) s)
    (red : RedNode s n) where
  pub whole : Focus t rest (mk e (mk d s p kp true sib) g kg false uncle)
  whole = close e (close d f)

  parent_at : (t.nodes (addr s)).parent ≡ p
  parent_at = above_is d n s red f

  parent_real : p ≢ 0
  parent_real = let at = Focus-At d s p kp true sib (close d f) in at.real

  grand_at : (t.nodes p).parent ≡ g
  grand_at = let at = Focus-At d s p kp true sib (close d f) in at.parent_is

  dir_at : get_dir t.nodes p ≡ e
  dir_at =
      get_dir-side e (mk d s p kp true sib) g kg false uncle p whole (addr-mk d s sib p kp true)
        parent_real grand_at

  uncle_at : child (flip e) (t.nodes g) ≡ addr uncle
  uncle_at = let at = Focus-At e (mk d s p kp true sib) g kg false uncle whole in at.far_is

  uncle_red : is_red t.nodes (addr uncle) ≡ root_red uncle
  uncle_red = far-is_red e (mk d s p kp true sib) g kg false uncle whole

  pub round_red : root_red uncle ≡ true → fixup_turn t (addr s) ≡ (recolor t p (addr uncle) g, g)
  round_red e' =
      turn_red t (addr s) p g (addr uncle) e parent_at grand_at dir_at uncle_at (uncle_red ∙ e')

ne-== : (a b : ℕ) → a ≢ b → (b == a) ≡ false
ne-== a b h = ground arith

eq-== : (a b : ℕ) → a ≡ b → (b == a) ≡ true
eq-== a b h = ground arith

-- The node is on the outer side of its parent.
pub round_outer :
    (e : Dir) {t : Rbt} {rest : Ctx} (s : Tree) (p kp : ℕ) (sib : Tree) (g kg n : ℕ) (uncle : Tree)
    → Focus t (under e p kp true sib (under e g kg false uncle rest)) s
    → RedNode s n
    → root_red uncle ≡ false
    → (fixup_turn t (addr s) ≡ (lift t (addr s) p g e, p))
      × Focus (lift t (addr s) p g e) rest (mk e s p kp false (mk e sib g kg true uncle))
round_outer e {t} s p kp sib g kg n uncle f red black =
    let at = Focus-At e s p kp true sib (close e f) in
    let differ = children_differ e s p kp true sib (close e f) (real_red n s red f) in
    let above = parent_at e e s p kp sib g kg n uncle f red in
    let grand = grand_at e e s p kp sib g kg n uncle f red in
    (
      turn_outer t (addr s) p g (addr uncle) e above grand
          (dir_at e e s p kp sib g kg n uncle f red) (uncle_at e e s p kp sib g kg n uncle f red)
          (uncle_red e e s p kp sib g kg n uncle f red ∙ black)
          (rw at.far_is (ne-== (addr sib) (addr s) differ)),
      lift-Focus e s p kp sib g kg uncle (addr s) (rw above grand)
          (whole e e s p kp sib g kg n uncle f red),
    )

-- A node on the inner side takes the place of its parent.
rotate_in :
    (e : Dir) {t : Rbt} {c : Ctx} (near : Tree) (z kz : ℕ) (cz : Bool) (far : Tree) (p kp : ℕ)
    (cp : Bool) (sib : Tree)
    → Focus t c (mk (flip e) (mk e near z kz cz far) p kp cp sib)
    → Focus (rotate t p e) c (mk e (mk e sib p kp cp near) z kz cz far)
rotate_in left near z kz cz far p kp cp sib f = rotate-Focus left sib p kp cp near z kz cz far f
rotate_in right near z kz cz far p kp cp sib f = rotate-Focus right sib p kp cp near z kz cz far f

pub RedNode-mk :
    (e : Dir) (near far : Tree) (z kz n : ℕ)
    → Rb near true n
    → Rb far true n
    → RedNode (mk e near z kz true far) n
RedNode-mk left near far z kz n h k = (h, k)
RedNode-mk right near far z kz n h k = (k, h)

pub round_inner :
    (e : Dir) {t : Rbt} {rest : Ctx} (near : Tree) (z kz : ℕ) (far : Tree) (p kp : ℕ) (sib : Tree)
    (g kg n : ℕ) (uncle : Tree)
    → Focus t
        (under (flip e) p kp true sib (under e g kg false uncle rest))
        (mk e near z kz true far)
    → Rb near true n
    → Rb far true n
    → root_red uncle ≡ false
    → (fixup_turn t z ≡ (lift (rotate t p e) p z g e, z))
      × Focus
          (lift (rotate t p e) p z g e)
          rest
          (mk e (mk e sib p kp true near) z kz false (mk e far g kg true uncle))
round_inner e {t} near z kz far p kp sib g kg n uncle f rb_near rb_far black =
    let s = mk e near z kz true far in
    let red = RedNode-mk e near far z kz n rb_near rb_far in
    let root = addr-mk e near far z kz true in
    let at = Focus-At (flip e) s p kp true sib (close (flip e) f) in
    let turned = rotate_in e near z kz true far p kp true sib (close (flip e) f) in
    let below = Focus-At e sib p kp true near (open_side e {s = mk e sib p kp true near} turned) in
    let pivot = Focus-At e (mk e sib p kp true near) z kz true far turned in
    (
      subst (λ (a : ℕ). fixup_turn t z ≡ (lift (rotate t p e) p a g e, a)) below.parent_is
          (turn_inner t z p g (addr uncle) e
            (subst (λ (a : ℕ). (t.nodes a).parent ≡ p) root
              (parent_at (flip e) e s p kp sib g kg n uncle f red))
            (grand_at (flip e) e s p kp sib g kg n uncle f red)
            (dir_at (flip e) e s p kp sib g kg n uncle f red)
            (uncle_at (flip e) e s p kp sib g kg n uncle f red)
            (uncle_red (flip e) e s p kp sib g kg n uncle f red ∙ black)
            (eq-== (child (flip e) (t.nodes p)) z (at.near_is ∙ root))),
      lift-Focus e (mk e sib p kp true near) z kz far g kg uncle p
          (rw below.parent_is pivot.parent_is) (close e turned),
    )
