-- ===== src/Rbt/Fixup.antt =====
-- `__insert_fixup`: its rounds end, and leave a red-black tree with the entries that were there.
use balrog_os.Prelude.{ℕ, zero, suc, ◌<◌, ◌≡◌, refl, Bool, true, false, sym, ◌∙◌, arith, some, List}
use mathlib.Core.Path.{subst}
use balrog_os.Rbt.{
  black_root, insert_fixup, set_red, Dir, left, right, flip, Rbt, recolor, fixup_turn, fixup_goes,
}
use balrog_os.Rbt.Shape.{Tree, leaf, node, Ctx, top, under, mk, plug, entries, Focus, addr, close}
use balrog_os.Rbt.Lift.{recolor-Focus}
use balrog_os.Rbt.Paint.{Focus-paint}
use balrog_os.Rbt.Round.{
  RedNode, RedNode-mk, Rb-RedNode, addr-mk, round_red, round_outer, round_inner,
}
use balrog_os.Rbt.Settle.{Settles, goes, goes_red, settle_top, settle_black_parent, settle_lifted}
use balrog_os.Rbt.Colors.{
  Rb-below_black, Rb, RbCtx, Nearly, Rb-red, Rb-black, Rb-below_red, root_red, entries-mk,
  entries-plug, entries-rotate,
}

-- The nodes above a place
abbrev pub depth : Ctx → ℕ
depth top = 0
depth (under d a k c sib rest) = suc (depth rest)

settle_outer :
    (e : Dir) (n m : ℕ) {t : Rbt} {rest : Ctx} (s : Tree) (p kp : ℕ) (sib : Tree) (g kg : ℕ)
    (uncle : Tree)
    → Focus t (under e p kp true sib (under e g kg false uncle rest)) s
    → RedNode s m
    → RbCtx (under e p kp true sib (under e g kg false uncle rest)) m
    → root_red uncle ≡ false
    → Settles
        (suc (suc n))
        t
        (addr s)
        (entries (plug (under e p kp true sib (under e g kg false uncle rest)) s))
settle_outer e n m {t} {rest} s p kp sib g kg uncle f red ctx black =
    let (turn, lifted) = round_outer e s p kp sib g kg m uncle f red black in
    settle_lifted e n m (addr s) s p kp sib g kg uncle _ (goes_red e e m s f red) turn lifted
      (ctx.2.1) (Rb-RedNode s m red) (ctx.0) (Rb-below_red uncle m black (ctx.2.0))
      (sym (entries-plug rest _ _ (entries-rotate e s sib uncle p kp g kg true false false true)))

entries-rotate_in :
    (e : Dir) (near far sib : Tree) (z kz p kp : ℕ) (c c' b b' : Bool)
    → entries (mk e (mk e sib p kp c near) z kz b far)
      ≡ entries (mk (flip e) (mk e near z kz b' far) p kp c' sib)
entries-rotate_in left near far sib z kz p kp c c' b b' =
    entries-rotate left sib near far p kp z kz c c' b b'
entries-rotate_in right near far sib z kz p kp c c' b b' =
    entries-rotate right sib near far p kp z kz c c' b b'

settle_inner :
    (e : Dir) (n m : ℕ) {t : Rbt} {rest : Ctx} (near : Tree) (z kz : ℕ) (far : Tree) (p kp : ℕ)
    (sib : Tree) (g kg : ℕ) (uncle : Tree)
    → Focus t
        (under (flip e) p kp true sib (under e g kg false uncle rest))
        (mk e near z kz true far)
    → Rb near true m
    → Rb far true m
    → Rb sib true m
    → Rb uncle false m
    → RbCtx rest (suc m)
    → root_red uncle ≡ false
    → Settles (suc (suc n)) t z (
        entries (
          plug
            (under (flip e) p kp true sib (under e g kg false uncle rest))
            (mk e near z kz true far)))
settle_inner e n m {t} {rest} near z kz far p kp sib g kg uncle f rb_near rb_far rb_sib rb_uncle ctx
      black =
    let (turn, lifted) = round_inner e near z kz far p kp sib g kg m uncle f rb_near rb_far black in
    let red = RedNode-mk e near far z kz m rb_near rb_far in
    let on =
      subst (λ (a : ℕ). fixup_goes t a ≡ true) (addr-mk e near far z kz true)
        (goes_red (flip e) e m (mk e near z kz true far) f red) in
    let same =
      sym (entries-rotate e (mk e sib p kp true near) far uncle z kz g kg true false false true)
      ∙ entries-mk e (mk e (mk e sib p kp true near) z kz true far)
          (mk (flip e) (mk e near z kz true far) p kp true sib) uncle g kg false false
          (entries-rotate_in e near far sib z kz p kp true true true true) in
    settle_lifted e n m z (mk e sib p kp true near) z kz far g kg uncle _ on turn lifted ctx
      (Rb-red e sib near p kp m rb_sib rb_near) rb_far (Rb-below_red uncle m black rb_uncle)
      (entries-plug rest _ _ same)

settle_black :
    (d e : Dir) (n m : ℕ) {t : Rbt} {rest : Ctx} (s : Tree) (p kp : ℕ) (sib : Tree) (g kg : ℕ)
    (uncle : Tree)
    → Focus t (under d p kp true sib (under e g kg false uncle rest)) s
    → RedNode s m
    → RbCtx (under d p kp true sib (under e g kg false uncle rest)) m
    → root_red uncle ≡ false
    → Settles
        (suc (suc n))
        t
        (addr s)
        (entries (plug (under d p kp true sib (under e g kg false uncle rest)) s))
settle_black left left n m s p kp sib g kg uncle f red ctx black =
    settle_outer left n m s p kp sib g kg uncle f red ctx black
settle_black right right n m s p kp sib g kg uncle f red ctx black =
    settle_outer right n m s p kp sib g kg uncle f red ctx black
settle_black right left n m (node l z kz true r) p kp sib g kg uncle f red ctx black =
    settle_inner left n m l z kz r p kp sib g kg uncle f (red.0) (red.1) (ctx.0) (ctx.2.0) (ctx.2.1)
      black
settle_black left right n m (node l z kz true r) p kp sib g kg uncle f red ctx black =
    settle_inner right n m r z kz l p kp sib g kg uncle f (red.1) (red.0) (ctx.0) (ctx.2.0)
      (ctx.2.1) black
settle_black right left n m leaf p kp sib g kg uncle f red ctx black = elim red [ ]
settle_black left right n m leaf p kp sib g kg uncle f red ctx black = elim red [ ]
settle_black right left n m (node l z kz false r) p kp sib g kg uncle f red ctx black = elim red [ ]
settle_black left right n m (node l z kz false r) p kp sib g kg uncle f red ctx black = elim red [ ]

-- A round that moves red up, in front of the rounds that follow.
settle_step :
    (n : ℕ) {t t' : Rbt} (ptr ptr' : ℕ) (es es' : List (ℕ × ℕ))
    → fixup_goes t ptr ≡ true
    → fixup_turn t ptr ≡ (t', ptr')
    → es ≡ es'
    → Settles n t' ptr' es
    → Settles (suc n) t ptr es'
settle_step n {t} {t'} ptr ptr' es es' on turn same rest = record {
  end = rest.end;
  tree = rest.tree;
  runs = goes n t t' ptr ptr' on turn ∙ rest.runs;
  holds = rest.holds;
  colors = rest.colors;
  same = rest.same ∙ same;
}

entries-recolor :
    (e d : Dir) (s : Tree) (p kp : ℕ) (sib : Tree) (g kg : ℕ) (ul : Tree) (u ku : ℕ) (ur : Tree)
    → entries (mk e (mk d s p kp false sib) g kg true (node ul u ku false ur))
      ≡ entries (mk e (mk d s p kp true sib) g kg false (node ul u ku true ur))
entries-recolor left left s p kp sib g kg ul u ku ur = refl
entries-recolor left right s p kp sib g kg ul u ku ur = refl
entries-recolor right left s p kp sib g kg ul u ku ur = refl
entries-recolor right right s p kp sib g kg ul u ku ur = refl

-- Fuel for a round at each level is enough.
settle :
    (c : Ctx) (n m : ℕ) {t : Rbt} (s : Tree)
    → depth c < n
    → Focus t c s
    → RbCtx c m
    → RedNode s m
    → Settles n t (addr s) (entries (plug c s))
settle top (suc n) m s fuel f ctx red = settle_top n m s f red
settle top zero m s fuel f ctx red = absurd (omega arith)
settle (under d p kp false sib rest) (suc n) m s fuel f ctx red =
    settle_black_parent n m d s f ctx red
settle (under d p kp false sib rest) zero m s fuel f ctx red = absurd (omega arith)
settle (under d p kp true sib top) n m s fuel f ctx red = elim (ctx.1) [ ]
settle (under d p kp true sib (under e g kg true uncle rest)) n m s fuel f ctx red =
    elim (ctx.1) [ ]
settle (under d p kp true sib (under e g kg false (node ul u ku true ur) rest)) (suc n) m {t} s fuel
      f ctx red =
    let uncle = node ul u ku false ur in
    let parent = mk d s p kp false sib in
    let (_, rb_l, rb_r) = ctx.2.0 in
    let moved = recolor-Focus d e s p kp sib g kg ul u ku ur (close e (close d f)) in
    let rb_parent =
      Rb-black d s sib p kp true m (Rb-RedNode s m red) (Rb-below_black sib m (ctx.0)) in
    let again = settle rest n (suc m) (mk e parent g kg true uncle) (omega arith) moved (ctx.2.1) (
      RedNode-mk e parent uncle g kg (suc m) rb_parent
        (Rb-below_black ul m rb_l, Rb-below_black ur m rb_r)) in
    settle_step n (addr s) g _ _ (goes_red d e m s f red)
      (round_red d e s p kp sib g kg m (node ul u ku true ur) f red refl)
      (entries-plug rest (mk e parent g kg true uncle)
        (mk e (mk d s p kp true sib) g kg false (node ul u ku true ur))
        (entries-recolor e d s p kp sib g kg ul u ku ur))
      (subst
        (λ (a : ℕ).
          Settles n (recolor t p u g) a (entries (plug rest (mk e parent g kg true uncle))))
        (addr-mk e parent uncle g kg true) again)
settle (under d p kp true sib (under e g kg false leaf rest)) (suc (suc n)) m s fuel f ctx red =
    settle_black d e n m s p kp sib g kg leaf f red ctx refl
settle (under d p kp true sib (under e g kg false (node ul u ku false ur) rest)) (suc (suc n)) m s
      fuel f ctx red =
    settle_black d e n m s p kp sib g kg (node ul u ku false ur) f red ctx refl
settle (under d p kp true sib (under e g kg false uncle rest)) zero m s fuel f ctx red =
    absurd (omega arith)
settle (under d p kp true sib (under e g kg false uncle rest)) (suc zero) m s fuel f ctx red =
    absurd (omega arith)

-- The heap holds a red-black tree with a black root, and with these entries.
pub record IsRbt (t : Rbt) (es : List (ℕ × ℕ)) : Type 0 where
  pub tree : Tree
  pub holds : Focus t top tree
  pub blacks : ℕ
  pub colors : Rb tree true blacks
  pub same : entries tree ≡ es

blacken :
    {t : Rbt} (s : Tree) (es : List (ℕ × ℕ))
    → Focus t top s
    → Nearly s
    → entries s ≡ es
    → IsRbt (black_root t) es
unfolding black_root
blacken leaf es f colors same = elim colors [ ]
blacken {t} (node l a k c r) es f (m, colors) same = record {
  tree = node l a k false r;
  holds =
      subst
        (λ (z : ℕ). Focus (record t { nodes = set_red z false t.nodes }) top (node l a k false r))
        (sym f.around) (Focus-paint false l a k c r f);
  blacks = m;
  colors = Rb-below_red (node l a k false r) m refl colors;
  same = same;
}

pub insert_fixup-IsRbt :
    (c : Ctx) (n m : ℕ) {t : Rbt} (s : Tree)
    → depth c < n
    → Focus t c s
    → RbCtx c m
    → RedNode s m
    → (done : Rbt) × (insert_fixup n t (addr s) ≡ some done) × IsRbt done (entries (plug c s))
unfolding insert_fixup
insert_fixup-IsRbt c n m s fuel f ctx red =
    let end = settle c n m s fuel f ctx red in
    (
      black_root end.end,
      rw (end.runs, insert_fixup) refl,
      blacken end.tree (entries (plug c s)) end.holds end.colors end.same,
    )
