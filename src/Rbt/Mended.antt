-- ===== src/Rbt/Mended.antt =====
-- `__delete_fixup`: its rounds end, and leave a red-black tree with the entries that were there.
use balrog_os.Prelude.{
  ℕ, suc, ◌≡◌, refl, ◌≢◌, ◌⊎◌, inl, inr, Bool, true, false, sym, ◌∙◌, arith, some, ◌==◌, List,
}
use balrog_os.Rbt.{Dir, left, right, Rbt}
use balrog_os.Rbt.Shape.{Tree, leaf, node, Ctx, top, mk, plug, entries, Focus, close, close_all}
use balrog_os.Rbt.Lift.{Focus-At}
use balrog_os.Rbt.Colors.{
  Rb, root_red, Rb-black, Rb-red, Rb-below_red, Rb-below_black, above_red, Upper, plug-Rb,
  plug-mk-Rb, entries-mk_far, entries-plug, entries-rotate,
}
use balrog_os.Rbt.Remove.{over, again, delete_turn, delete_fixup}
use balrog_os.Rbt.Mend.{mend_entry, mend_far, mend_near}

-- The loop ends, with a red-black tree that has these entries.
pub record Mended (n : ℕ) (t : Rbt) (a : ℕ) (d : Dir) (es : List (ℕ × ℕ)) : Type 0 where
  pub end : Rbt
  pub tree : Tree
  pub blacks : ℕ
  pub runs : delete_fixup n t a d ≡ some end
  pub holds : Focus end top tree
  pub colors : Rb tree true blacks
  pub same : entries tree ≡ es

module _ (n : ℕ) (t : Rbt) (a : ℕ) (d : Dir) where
  pub ends_top : a ≡ 0 → delete_fixup (suc n) t a d ≡ some t
  unfolding delete_fixup
  ends_top e = rw e refl

  ends_over :
      (t' : Rbt) → a ≢ 0 → delete_turn t a d ≡ over t' → delete_fixup (suc n) t a d ≡ some t'
  unfolding delete_fixup
  ends_over t' real e = let nz : (a == 0) ≡ false = ground arith in rw (nz, e, delete_fixup) refl

  goes_again :
      (t' : Rbt) (a' : ℕ) (d' : Dir)
      → a ≢ 0
      → delete_turn t a d ≡ again t' a' d'
      → delete_fixup (suc n) t a d ≡ delete_fixup n t' a' d'
  unfolding delete_fixup
  goes_again t' a' d' real e =
      let nz : (a == 0) ≡ false = ground arith in rw (nz, e, delete_fixup) refl

pub Mended-again :
    (n : ℕ) {t t' : Rbt} {a a' : ℕ} {d d' : Dir} {es es' : List (ℕ × ℕ)}
    → a ≢ 0
    → delete_turn t a d ≡ again t' a' d'
    → es ≡ es'
    → Mended n t' a' d' es
    → Mended (suc n) t a d es'
Mended-again n {t} {t'} {a} {a'} {d} {d'} real e same rest = record {
  end = rest.end;
  tree = rest.tree;
  blacks = rest.blacks;
  runs = goes_again n t a d t' a' d' real e ∙ rest.runs;
  holds = rest.holds;
  colors = rest.colors;
  same = rest.same ∙ same;
}

Mended-over :
    (n : ℕ) {t t' : Rbt} {a : ℕ} {d : Dir} {es : List (ℕ × ℕ)} (rest : Ctx) (s : Tree)
    → a ≢ 0
    → delete_turn t a d ≡ over t'
    → Focus t' rest s
    → (m : ℕ) × Rb (plug rest s) true m
    → entries (plug rest s) ≡ es
    → Mended (suc n) t a d es
Mended-over n {t} {t'} {a} {d} rest s real e f colors same = record {
  end = t';
  tree = plug rest s;
  blacks = colors.0;
  runs = ends_over n t a d t' real e;
  holds = close_all rest f;
  colors = colors.1;
  same = same;
}

pub real_at :
    (d : Dir) {t : Rbt} {c : Ctx} (s : Tree) (p kp : ℕ) (pc : Bool) (far : Tree)
    → Focus t c (mk d s p kp pc far)
    → p ≢ 0
real_at d s p kp pc far f = let at = Focus-At d s p kp pc far f in at.real

-- A black sibling with a red child on its outer side.
far_case :
    (d : Dir) (n m : ℕ) {t : Rbt} {rest : Ctx} (s : Tree) (p kp : ℕ) (pc : Bool) (near : Tree)
    (w kw : ℕ) (fl : Tree) (u ku : ℕ) (fr : Tree)
    → Focus t rest (mk d s p kp pc (mk d near w kw false (node fl u ku true fr)))
    → Upper pc rest (suc m)
    → Rb s true m
    → Rb near false m
    → Rb (node fl u ku true fr) false m
    → Mended
        (suc n)
        t
        p
        d
        (entries (plug rest (mk d s p kp pc (mk d near w kw false (node fl u ku true fr)))))
far_case d n m {t} {rest} s p kp pc near w kw fl u ku fr f up rb_s rb_near rb_far =
    let far = node fl u ku true fr in
    let far' = node fl u ku false fr in
    let (turn, holds) = mend_far d s p kp pc near w kw fl u ku fr f in
    Mended-over n rest (mk d (mk d s p kp false near) w kw pc far')
      (real_at d s p kp pc (mk d near w kw false far) f) turn holds
      (plug-mk-Rb pc d rest (mk d s p kp false near) far' w kw (suc m) up
        (Rb-black d s near p kp true m (Rb-below_black s m rb_s) rb_near)
        (Rb-below_black fl m (rb_far.1), Rb-below_black fr m (rb_far.2)))
      (entries-plug rest _ _ (
        entries-rotate d s near far' p kp w kw false pc pc false
        ∙ entries-mk_far d s (mk d near w kw false far') (mk d near w kw false far) p kp pc pc
            (entries-mk_far d near far' far w kw false false refl)))

far_case_mk :
    (d : Dir) (n m : ℕ) {t : Rbt} {rest : Ctx} (s : Tree) (p kp : ℕ) (pc : Bool) (near : Tree)
    (w kw : ℕ) (fn : Tree) (u ku : ℕ) (ff : Tree)
    → Focus t rest (mk d s p kp pc (mk d near w kw false (mk d fn u ku true ff)))
    → Upper pc rest (suc m)
    → Rb s true m
    → Rb near false m
    → Rb fn true m
    → Rb ff true m
    → Mended
        (suc n)
        t
        p
        d
        (entries (plug rest (mk d s p kp pc (mk d near w kw false (mk d fn u ku true ff)))))
far_case_mk left n m s p kp pc near w kw fn u ku ff f up rb_s rb_near rb_n rb_f =
    far_case left n m s p kp pc near w kw fn u ku ff f up rb_s rb_near (refl, rb_n, rb_f)
far_case_mk right n m s p kp pc near w kw fn u ku ff f up rb_s rb_near rb_n rb_f =
    far_case right n m s p kp pc near w kw ff u ku fn f up rb_s rb_near (refl, rb_f, rb_n)

-- A black sibling with a red child on its inner side only.
near_case :
    (d : Dir) (n m : ℕ) {t : Rbt} {rest : Ctx} (s : Tree) (p kp : ℕ) (pc : Bool) (nn : Tree)
    (x kx : ℕ) (nf : Tree) (w kw : ℕ) (far : Tree)
    → Focus t rest (mk d s p kp pc (mk d (mk d nn x kx true nf) w kw false far))
    → root_red far ≡ false
    → Upper pc rest (suc m)
    → Rb s true m
    → Rb nn true m
    → Rb nf true m
    → Rb far false m
    → Mended
        (suc (suc n))
        t
        p
        d
        (entries (plug rest (mk d s p kp pc (mk d (mk d nn x kx true nf) w kw false far))))
near_case d n m {t} {rest} s p kp pc nn x kx nf w kw far f black up rb_s rb_nn rb_nf rb_far =
    let (turn, holds) = mend_near d s p kp pc nn x kx nf w kw far f black in
    Mended-again (suc n) (real_at d s p kp pc (mk d (mk d nn x kx true nf) w kw false far) f) turn
      (entries-plug rest _ _ (
        entries-mk_far d s (mk d nn x kx false (mk d nf w kw true far))
          (mk d (mk d nn x kx true nf) w kw false far) p kp pc pc
          (sym (entries-rotate d nn nf far x kx w kw true false false true))))
      (far_case_mk d n m s p kp pc nn x kx nf w kw far (close d holds) up rb_s
        (Rb-below_black nn m rb_nn) rb_nf (Rb-below_red far m black rb_far))

-- Either a child of the black sibling is red, and the loop ends, or none is.
pub black_case :
    (d : Dir) (n m : ℕ) {t : Rbt} {rest : Ctx} (s : Tree) (p kp : ℕ) (pc : Bool) (near : Tree)
    (w kw : ℕ) (far : Tree)
    → Focus t rest (mk d s p kp pc (mk d near w kw false far))
    → Upper pc rest (suc m)
    → Rb s true m
    → Rb near false m
    → Rb far false m
    → Mended (suc (suc n)) t p d (entries (plug rest (mk d s p kp pc (mk d near w kw false far))))
      ⊎ ((root_red far ≡ false) × (root_red near ≡ false))
black_case d n m s p kp pc near w kw (node fl u ku true fr) f up rb_s rb_near rb_far =
    inl (far_case d (suc n) m s p kp pc near w kw fl u ku fr f up rb_s rb_near rb_far)
black_case d n m s p kp pc leaf w kw leaf f up rb_s rb_near rb_far = inr (refl, refl)
black_case d n m s p kp pc leaf w kw (node fl u ku false fr) f up rb_s rb_near rb_far =
    inr (refl, refl)
black_case d n m s p kp pc (node l x kx false r) w kw leaf f up rb_s rb_near rb_far =
    inr (refl, refl)
black_case d n m s p kp pc (node l x kx false r) w kw (node fl u ku false fr) f up rb_s rb_near
      rb_far =
    inr (refl, refl)
black_case left n m s p kp pc (node l x kx true r) w kw leaf f up rb_s rb_near rb_far =
    inl (
      near_case left n m s p kp pc l x kx r w kw leaf f refl up rb_s (rb_near.1) (rb_near.2) rb_far)
black_case left n m s p kp pc (node l x kx true r) w kw (node fl u ku false fr) f up rb_s rb_near
      rb_far =
    inl (
      near_case left n m s p kp pc l x kx r w kw (node fl u ku false fr) f refl up rb_s (rb_near.1)
        (rb_near.2) rb_far)
black_case right n m s p kp pc (node l x kx true r) w kw leaf f up rb_s rb_near rb_far =
    inl (
      near_case right n m s p kp pc r x kx l w kw leaf f refl up rb_s (rb_near.2) (rb_near.1)
        rb_far)
black_case right n m s p kp pc (node l x kx true r) w kw (node fl u ku false fr) f up rb_s rb_near
      rb_far =
    inl (
      near_case right n m s p kp pc r x kx l w kw (node fl u ku false fr) f refl up rb_s (rb_near.2)
        (rb_near.1) rb_far)

-- Below a red node two rounds are enough.
pub below_red_case :
    (d : Dir) (n m : ℕ) {t : Rbt} {rest : Ctx} (s : Tree) (p kp : ℕ) (near : Tree) (w kw : ℕ)
    (far : Tree)
    → Focus t rest (mk d s p kp true (mk d near w kw false far))
    → Upper true rest (suc m)
    → Rb s true m
    → Rb near false m
    → Rb far false m
    → Mended (suc (suc n)) t p d (entries (plug rest (mk d s p kp true (mk d near w kw false far))))
below_red_case d n m {t} {rest} s p kp near w kw far f up rb_s rb_near rb_far =
    elim (black_case d n m s p kp true near w kw far f up rb_s rb_near rb_far) [
      | inl done ↦ done
      | inr (bf, bn) ↦
          let (turn, holds) = mend_entry d s p kp true near w kw far f refl bf bn in
          Mended-over (suc n) rest (mk d s p kp false (mk d near w kw true far))
            (real_at d s p kp true (mk d near w kw false far) f) turn holds
            (plug-Rb rest _ (suc m) (up.1) (
              Rb-black d s (mk d near w kw true far) p kp (above_red rest) m
                (Rb-below_black s m rb_s)
                (Rb-red d near far w kw m (Rb-below_red near m bn rb_near)
                  (Rb-below_red far m bf rb_far))))
            (entries-plug rest _ _ (
              entries-mk_far d s (mk d near w kw true far) (mk d near w kw false far) p kp false
                true (entries-mk_far d near far far w kw true false refl)))
    ]
