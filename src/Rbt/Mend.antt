-- ===== src/Rbt/Mend.antt =====
-- The cases of `__delete_fixup`, at a place whose subtree lacks a black node.
use balrog_os.Prelude.{ℕ, suc, ◌≡◌, refl, Bool, true, false, ◌∙◌, ◌==◌, if◌then◌else◌}
use mathlib.Core.Path.{subst}
use balrog_os.Rbt.{Dir, left, right, flip, Rbt, child, set_red, is_red, get_dir, rotate}
use balrog_os.Rbt.Shape.{
  Tree, node, Ctx, under, mk, Focus, addr, lo_of, hi_of, up_of, close, open_side,
}
use balrog_os.Rbt.Paint.{Focus-paint}
use balrog_os.Rbt.Rotated.{rotate-Focus}
use balrog_os.Rbt.Lift.{At, Focus-At, paint_mk, paint_near, paint_far, rotate_up}
use balrog_os.Rbt.Round.{root-is_red, far-is_red, addr-mk}
use balrog_os.Rbt.Colors.{root_red}
use balrog_os.Rbt.Remove.{
  over, again, red_sibling, far_painted, near_painted, entry_painted, sibling_painted, delete_turn,
}

-- A place from the other side, and its subtree.
pub open_far :
    (d : Dir) {t : Rbt} {c : Ctx} (s : Tree) (a k : ℕ) (red : Bool) (far : Tree)
    → Focus t c (mk d s a k red far)
    → Focus t (under (flip d) a k red s c) far
open_far left s a k red far f = open_side right f
open_far right s a k red far f = open_side left f

pub close_far :
    (d : Dir) {t : Rbt} {c : Ctx} (s : Tree) (a k : ℕ) (red : Bool) (far : Tree)
    → Focus t (under (flip d) a k red s c) far
    → Focus t c (mk d s a k red far)
close_far left s a k red far f = close right f
close_far right s a k red far f = close left f

near-is_red :
    (d : Dir) {t : Rbt} {c : Ctx} (s : Tree) (a k : ℕ) (red : Bool) (far : Tree)
    → Focus t c (mk d s a k red far)
    → is_red t.nodes (addr s) ≡ root_red s
near-is_red left {t} {c} s a k red far f =
    let (_, _, _, held, _) = f.here in root-is_red t.nodes (lo_of c) k a s held
near-is_red right {t} {c} s a k red far f =
    let (_, _, _, _, held) = f.here in root-is_red t.nodes (suc k) (hi_of c) a s held

mk-is_red :
    (d : Dir) (s : Tree) (a k : ℕ) (red : Bool) (far : Tree) → root_red (mk d s a k red far) ≡ red
mk-is_red left s a k red far = refl
mk-is_red right s a k red far = refl

-- What a round reads: the entry, its sibling, and the sibling's children.
module _ (t : Rbt) (a w : ℕ) (d : Dir) (w_is : child (flip d) (t.nodes a) ≡ w) where
  turn_red : is_red t.nodes w ≡ true → delete_turn t a d ≡ again (red_sibling t a w d) a d
  unfolding delete_turn
  turn_red e = rw (w_is, e) refl

  module _ (far near : ℕ) (black : is_red t.nodes w ≡ false)
      (far_is : child (flip d) (t.nodes w) ≡ far) (near_is : child d (t.nodes w) ≡ near) where
    turn_far :
        is_red t.nodes far ≡ true → delete_turn t a d ≡ over (rotate (far_painted t a w far) a d)
    unfolding delete_turn
    turn_far e = rw (w_is, black, far_is, e) refl

    turn_near :
        is_red t.nodes far ≡ false
        → is_red t.nodes near ≡ true
        → delete_turn t a d ≡ again (rotate (near_painted t w near) w (flip d)) a d
    unfolding delete_turn
    turn_near nf e = rw (w_is, black, far_is, near_is, nf, e) refl

    turn_entry :
        is_red t.nodes far ≡ false
        → is_red t.nodes near ≡ false
        → (t.nodes a).red ≡ true
        → delete_turn t a d ≡ over (entry_painted t a w)
    unfolding delete_turn
    turn_entry nf nn e = rw (w_is, black, far_is, near_is, nf, nn, e) refl

    turn_up :
        is_red t.nodes far ≡ false
        → is_red t.nodes near ≡ false
        → (t.nodes a).red ≡ false
        → delete_turn t a d
          ≡ again
              (sibling_painted t w)
              (t.nodes a).parent
              (if (t.nodes a).parent == 0 then d else get_dir t.nodes a)
    unfolding delete_turn
    turn_up nf nn e = rw (w_is, black, far_is, near_is, nf, nn, e) refl

-- The sibling, and whether it is red.
sibling :
    (d : Dir) {t : Rbt} {c : Ctx} (s : Tree) (p kp : ℕ) (pc : Bool) (near : Tree) (w kw : ℕ)
    (wc : Bool) (far : Tree)
    → Focus t c (mk d s p kp pc (mk d near w kw wc far))
    → (child (flip d) (t.nodes p) ≡ w) × (is_red t.nodes w ≡ wc)
sibling d {t} s p kp pc near w kw wc far f =
    let sib = mk d near w kw wc far in
    let at = Focus-At d s p kp pc sib f in
    (
      at.far_is ∙ addr-mk d near far w kw wc,
      subst (λ (z : ℕ). is_red t.nodes z ≡ wc) (addr-mk d near far w kw wc)
          (far-is_red d s p kp pc sib f ∙ mk-is_red d near w kw wc far),
    )

-- A red sibling goes above the entry.
pub mend_red :
    (d : Dir) {t : Rbt} {rest : Ctx} (s : Tree) (p kp : ℕ) (pc : Bool) (near : Tree) (w kw : ℕ)
    (far : Tree)
    → Focus t rest (mk d s p kp pc (mk d near w kw true far))
    → (delete_turn t p d ≡ again (red_sibling t p w d) p d)
      × Focus (red_sibling t p w d) (under d p kp true near (under d w kw false far rest)) s
unfolding red_sibling
mend_red d {t} s p kp pc near w kw far f =
    let (w_is, red) = sibling d s p kp pc near w kw true far f in
    let turned = rotate-Focus d s p kp pc near w kw true far f in
    let painted =
      paint_mk false d (mk d s p kp true near) w kw true far
        (paint_near true d d s p kp pc near w kw true far turned) in
    (turn_red t p w d w_is red, open_side d (open_side d {s = mk d s p kp true near} painted))

module _ (d : Dir) {t : Rbt} {rest : Ctx} (s : Tree) (p kp : ℕ) (pc : Bool) (near : Tree) (w kw : ℕ)
    (far : Tree) (f : Focus t rest (mk d s p kp pc (mk d near w kw false far))) where
  At-sibling : At t.nodes d w kw false p (addr near) (addr far)
  At-sibling = (Focus-At d near w kw false far (open_far d s p kp pc (mk d near w kw false far) f))

  far_color : is_red t.nodes (addr far) ≡ root_red far
  far_color = far-is_red d near w kw false far (open_far d s p kp pc (mk d near w kw false far) f)

  near_color : is_red t.nodes (addr near) ≡ root_red near
  near_color = near-is_red d near w kw false far (open_far d s p kp pc (mk d near w kw false far) f)

  -- A black sibling without red children, below a red entry
  pub mend_entry :
      pc ≡ true
      → root_red far ≡ false
      → root_red near ≡ false
      → (delete_turn t p d ≡ over (entry_painted t p w))
        × Focus (entry_painted t p w) rest (mk d s p kp false (mk d near w kw true far))
  unfolding entry_painted
  mend_entry red nf nn =
      let (w_is, black) = sibling d s p kp pc near w kw false far f in
      let at = Focus-At d s p kp pc (mk d near w kw false far) f in
      let sib = At-sibling in
      (
        turn_entry t p w d w_is (addr far) (addr near) black sib.far_is sib.near_is (far_color ∙ nf)
            (near_color ∙ nn) (at.red_is ∙ red),
        paint_far true d d s p kp false near w kw false far
            (paint_mk false d s p kp pc (mk d near w kw false far) f),
      )

  -- A black sibling without red children, below a black entry
  pub mend_up :
      pc ≡ false
      → root_red far ≡ false
      → root_red near ≡ false
      → (delete_turn t p d
          ≡ again
              (sibling_painted t w)
              (up_of rest)
              (if up_of rest == 0 then d else get_dir t.nodes p))
        × Focus (sibling_painted t w) rest (mk d s p kp pc (mk d near w kw true far))
  unfolding sibling_painted
  mend_up red nf nn =
      let (w_is, black) = sibling d s p kp pc near w kw false far f in
      let at = Focus-At d s p kp pc (mk d near w kw false far) f in
      let sib = At-sibling in
      (
        subst
            (λ (z : ℕ).
              delete_turn t p d
              ≡ again (sibling_painted t w) z (if z == 0 then d else get_dir t.nodes p))
            at.parent_is
            (turn_up t p w d w_is (addr far) (addr near) black sib.far_is sib.near_is
              (far_color ∙ nf) (near_color ∙ nn) (at.red_is ∙ red)),
        paint_far true d d s p kp pc near w kw false far f,
      )

-- A red child of the sibling, on its outer side
pub mend_far :
    (d : Dir) {t : Rbt} {rest : Ctx} (s : Tree) (p kp : ℕ) (pc : Bool) (near : Tree) (w kw : ℕ)
    (fl : Tree) (u ku : ℕ) (fr : Tree)
    → Focus t rest (mk d s p kp pc (mk d near w kw false (node fl u ku true fr)))
    → (delete_turn t p d ≡ over (rotate (far_painted t p w u) p d))
      × Focus
          (rotate (far_painted t p w u) p d)
          rest
          (mk d (mk d s p kp false near) w kw pc (node fl u ku false fr))
unfolding far_painted
mend_far d {t} {rest} s p kp pc near w kw fl u ku fr f =
    let far = node fl u ku true fr in
    let far' = node fl u ku false fr in
    let (w_is, black) = sibling d s p kp pc near w kw false far f in
    let sib = At-sibling d s p kp pc near w kw far f in
    let inner =
      open_far d near w kw false far (open_far d s p kp pc (mk d near w kw false far) f) in
    let one =
      close_far d s p kp pc (mk d near w kw false far')
        (close_far d near w kw false far' (Focus-paint false fl u ku true fr inner)) in
    let at = Focus-At d s p kp pc (mk d near w kw false far') one in
    let h = set_red u false t.nodes in
    let two = paint_far (h p).red d d s p kp pc near w kw false far' one in
    let three = paint_mk false d s p kp pc (mk d near w kw (h p).red far') two in
    let four = rotate-Focus d s p kp false near w kw (h p).red far' three in
    (
      turn_far t p w d w_is u (addr near) black sib.far_is sib.near_is
          (far_color d s p kp pc near w kw far f),
      subst
          (λ (z : Bool).
            Focus (rotate (far_painted t p w u) p d) rest
              (mk d (mk d s p kp false near) w kw z far'))
          at.red_is four,
    )

-- A red child of the sibling, on its inner side
pub mend_near :
    (d : Dir) {t : Rbt} {rest : Ctx} (s : Tree) (p kp : ℕ) (pc : Bool) (nn : Tree) (x kx : ℕ)
    (nf : Tree) (w kw : ℕ) (far : Tree)
    → Focus t rest (mk d s p kp pc (mk d (mk d nn x kx true nf) w kw false far))
    → root_red far ≡ false
    → (delete_turn t p d ≡ again (rotate (near_painted t w x) w (flip d)) p d)
      × Focus
          (rotate (near_painted t w x) w (flip d))
          (under d p kp pc (mk d nn x kx false (mk d nf w kw true far)) rest)
          s
unfolding near_painted
mend_near d {t} {rest} s p kp pc nn x kx nf w kw far f black_far =
    let near = mk d nn x kx true nf in
    let (w_is, black) = sibling d s p kp pc near w kw false far f in
    let sib = At-sibling d s p kp pc near w kw far f in
    let inner = open_far d s p kp pc (mk d near w kw false far) f in
    let one = paint_near false d d nn x kx true nf w kw false far inner in
    let two = paint_mk true d (mk d nn x kx false nf) w kw false far one in
    let three = rotate_up d nn x kx false nf w kw true far two in
    (
      turn_near t p w d w_is (addr far) x black sib.far_is (sib.near_is ∙ addr-mk d nn nf x kx true)
          (far_color d s p kp pc near w kw far f ∙ black_far)
          (subst (λ (z : ℕ). is_red t.nodes z ≡ true) (addr-mk d nn nf x kx true)
            (near_color d s p kp pc near w kw far f ∙ mk-is_red d nn x kx true nf)),
      open_side d (close_far d s p kp pc (mk d nn x kx false (mk d nf w kw true far)) three),
    )
