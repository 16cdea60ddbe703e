-- ===== src/Rbt/Balance.antt =====
-- `__delete_fixup` at every place: fuel for a round at each level and three more is enough.
use balrog_os.Prelude.{
  ℕ, zero, suc, ◌+◌, ◌<◌, ◌≡◌, refl, inl, inr, Bool, true, false, sym, arith, ◌==◌, if◌then◌else◌,
}
use mathlib.Core.Path.{subst}
use balrog_os.Rbt.{Dir, left, right, Rbt, get_dir}
use balrog_os.Rbt.Shape.{Tree, leaf, node, Ctx, top, under, mk, plug, entries, Focus, up_of, close}
use balrog_os.Rbt.Lift.{Focus-At, get_dir-side}
use balrog_os.Rbt.Round.{addr-mk}
use balrog_os.Rbt.Colors.{
  Rb, RbCtx, Rb-black, Rb-red, Rb-below_red, Rb-below_black, Upper, RbCtx-Upper, entries-mk_far,
  entries-plug, entries-rotate,
}
use balrog_os.Rbt.Fixup.{depth}
use balrog_os.Rbt.Mend.{mend_red, mend_up}
use balrog_os.Rbt.Mended.{Mended, ends_top, Mended-again, real_at, black_case, below_red_case}

-- The sibling of a place that lacks a black node is a node.
data Sibling (d : Dir) (sib : Tree) (pc : Bool) (n : ℕ) : Type 0 where
  red_one :
      (near : Tree) (w kw : ℕ) (far : Tree)
      → sib ≡ mk d near w kw true far
      → pc ≡ false
      → Rb near true (suc n)
      → Rb far true (suc n)
      → Sibling d sib pc n
  black_one :
      (near : Tree) (w kw : ℕ) (far : Tree)
      → sib ≡ mk d near w kw false far
      → Rb near false n
      → Rb far false n
      → Sibling d sib pc n

view : (d : Dir) (sib : Tree) (pc : Bool) (n : ℕ) → Rb sib pc (suc n) → Sibling d sib pc n
view d leaf pc n h = absurd (omega arith)
view left (node l w kw true r) pc n h = red_one l w kw r refl (h.0) (h.1) (h.2)
view right (node l w kw true r) pc n h = red_one r w kw l refl (h.0) (h.2) (h.1)
view left (node l w kw false r) pc n h = black_one l w kw r refl (h.0) (h.1)
view right (node l w kw false r) pc n h = black_one r w kw l refl (h.1) (h.0)

-- Below a red node the sibling is black.
red_parent :
    (d : Dir) (n m : ℕ) {t : Rbt} {rest : Ctx} (s : Tree) (p kp : ℕ) (sib : Tree)
    → Focus t rest (mk d s p kp true sib)
    → Upper true rest (suc m)
    → Rb s true m
    → Rb sib true (suc m)
    → Mended (suc (suc n)) t p d (entries (plug rest (mk d s p kp true sib)))
red_parent d n m {t} {rest} s p kp sib f up rb_s rb_sib = elim (view d sib true m rb_sib) [
  | red_one near w kw far e wrong g h ↦ absurd (cc)
  | black_one near w kw far e rb_near rb_far ↦
      subst (λ (z : Tree). Mended (suc (suc n)) t p d (entries (plug rest (mk d s p kp true z))))
        (sym e)
        (below_red_case d n m s p kp near w kw far
          (subst (λ (z : Tree). Focus t rest (mk d s p kp true z)) e f) up rb_s rb_near rb_far)
]

-- A red sibling: it goes up, and the entry is red in the next round.
red_sibling_case :
    (d : Dir) (n m : ℕ) {t : Rbt} {rest : Ctx} (s : Tree) (p kp : ℕ) (near : Tree) (w kw : ℕ)
    (far : Tree)
    → Focus t rest (mk d s p kp false (mk d near w kw true far))
    → RbCtx rest (suc (suc m))
    → Rb s true m
    → Rb near true (suc m)
    → Rb far true (suc m)
    → Mended
        (suc (suc (suc n)))
        t
        p
        d
        (entries (plug rest (mk d s p kp false (mk d near w kw true far))))
red_sibling_case d n m {t} {rest} s p kp near w kw far f up rb_s rb_near rb_far =
    let (turn, holds) = mend_red d s p kp false near w kw far f in
    Mended-again (suc (suc n)) (real_at d s p kp false (mk d near w kw true far) f) turn
      (entries-plug rest _ _ (entries-rotate d s near far p kp w kw true false false true))
      (red_parent d n m {rest = under d w kw false far rest} s p kp near (close d holds)
        (refl, (Rb-below_black far (suc m) rb_far, up)) rb_s rb_near)

-- The direction that the loop goes on with is the side of its node.
abbrev pub AtSide : Ctx → Dir → Type 0
AtSide top e = Unit
AtSide (under d a k c sib rest) e = e ≡ d

next_side :
    (c : Ctx) {t : Rbt} (d : Dir) (s : Tree) (p kp : ℕ) (pc : Bool) (sib : Tree)
    → Focus t c (mk d s p kp pc sib)
    → AtSide c (if up_of c == 0 then d else get_dir t.nodes p)
next_side top d s p kp pc sib f = tt
next_side (under e g kg gc uncle rest) d s p kp pc sib f =
    let at = Focus-At d s p kp pc sib f in
    let real = real_at e (mk d s p kp pc sib) g kg gc uncle (close e f) in
    let nz : (g == 0) ≡ false = ground arith in
    rw nz (
      get_dir-side e (mk d s p kp pc sib) g kg gc uncle p (close e f) (addr-mk d s sib p kp pc)
        at.real at.parent_is)

pub balance :
    (c : Ctx) (n m : ℕ) {t : Rbt} (s : Tree) (e : Dir)
    → depth c + 3 < n
    → AtSide c e
    → Focus t c s
    → RbCtx c (suc m)
    → Rb s true m
    → Mended n t (up_of c) e (entries (plug c s))
balance top zero m s e fuel side f ctx rb_s = absurd (omega arith)
balance top (suc n) m {t} s e fuel side f ctx rb_s = record {
  end = t;
  tree = s;
  blacks = m;
  runs = ends_top n t 0 e refl;
  holds = f;
  colors = rb_s;
  same = refl;
}
balance (under d p kp pc sib rest) zero m s e fuel side f ctx rb_s = absurd (omega arith)
balance (under d p kp pc sib rest) (suc zero) m s e fuel side f ctx rb_s = absurd (omega arith)
balance (under d p kp pc sib rest) (suc (suc zero)) m s e fuel side f ctx rb_s =
    absurd (omega arith)
balance (under d p kp true sib rest) (suc (suc (suc n))) m {t} s e fuel side f ctx rb_s =
    let (rb_sib, up) = RbCtx-Upper d p kp true sib rest (suc m) ctx in
    subst
      (λ (z : Dir). Mended (suc (suc (suc n))) t p z (entries (plug rest (mk d s p kp true sib))))
      (sym side) (red_parent d (suc n) m s p kp sib (close d f) up rb_s rb_sib)
balance (under d p kp false sib rest) (suc (suc (suc n))) m {t} s e fuel side f ctx rb_s =
    let (rb_sib, up) = RbCtx-Upper d p kp false sib rest (suc m) ctx in
    subst
      (λ (z : Dir). Mended (suc (suc (suc n))) t p z (entries (plug rest (mk d s p kp false sib))))
      (sym side)
      (elim (view d sib false m rb_sib) [
        | red_one near w kw far is _ rb_near rb_far ↦
            subst
              (λ (z : Tree).
                Mended (suc (suc (suc n))) t p d (entries (plug rest (mk d s p kp false z))))
              (sym is)
              (red_sibling_case d n m s p kp near w kw far
                (subst (λ (z : Tree). Focus t rest (mk d s p kp false z)) is (close d f)) up rb_s
                rb_near rb_far)
        | black_one near w kw far is rb_near rb_far ↦
            subst
              (λ (z : Tree).
                Mended (suc (suc (suc n))) t p d (entries (plug rest (mk d s p kp false z))))
              (sym is)
              (let g = subst (λ (z : Tree). Focus t rest (mk d s p kp false z)) is (close d f) in
                elim (black_case d (suc n) m s p kp false near w kw far g up rb_s rb_near rb_far) [
                  | inl done ↦ done
                  | inr (bf, bn) ↦
                      let (turn, holds) = mend_up d s p kp false near w kw far g refl bf bn in
                      let sib' = mk d near w kw true far in
                      Mended-again (suc (suc n))
                        (real_at d s p kp false (mk d near w kw false far) g) turn
                        (entries-plug rest _ _ (
                          entries-mk_far d s sib' (mk d near w kw false far) p kp false false
                            (entries-mk_far d near far far w kw true false refl)))
                        (balance rest (suc (suc n)) (suc m) (mk d s p kp false sib') _ (omega arith)
                          (next_side rest d s p kp false (mk d near w kw false far) g) holds up
                          (Rb-black d s sib' p kp true m (Rb-below_black s m rb_s) (
                            Rb-red d near far w kw m (Rb-below_red near m bn rb_near)
                              (Rb-below_red far m bf rb_far))))
                ])
      ])
