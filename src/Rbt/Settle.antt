-- ===== src/Rbt/Settle.antt =====
-- Where the loop of `__insert_fixup` ends, and where it goes on.
use balrog_os.Prelude.{
  ℕ, suc, ◌≤◌, ◌<◌, ◌≡◌, refl, ◌≢◌, Bool, true, false, ap, ◌∙◌, arith, some, List,
}
use balrog_os.Rbt.{Dir, left, right, Nodes, Rbt, fixup_turn, fixup_goes, fixup_loop}
use balrog_os.Rbt.Shape.{
  Tree, leaf, node, Ctx, top, under, mk, plug, entries, IsCtx, Focus, addr, lo_of, hi_of, up_of,
  close, close_all,
}
use balrog_os.Rbt.Lift.{Focus-At}
use balrog_os.Rbt.Round.{RedNode, Rb-RedNode, above_is}
use balrog_os.Rbt.Colors.{Rb, RbCtx, head_red, Nearly, Rb-red, Rb-black, plug-Nearly}

-- The loop ends with a tree that is red-black once its root is black, and has these entries.
pub record Settles (n : ℕ) (t : Rbt) (ptr : ℕ) (es : List (ℕ × ℕ)) : Type 0 where
  pub end : Rbt
  pub tree : Tree
  pub runs : fixup_loop n t ptr ≡ some end
  pub holds : Focus end top tree
  pub colors : Nearly tree
  pub same : entries tree ≡ es

ctx_real :
    (d : Dir) (h : Nodes) (root p b j : ℕ) (red : Bool) (s : Tree) (r : Ctx)
    → IsCtx h root p (under d b j red s r)
    → b ≢ 0
ctx_real left h root p b j red s r f = let held = f.0 in held.real
ctx_real right h root p b j red s r f = let held = f.0 in held.real

-- The root is no node in the range of a place below another node.
root_ne :
    (h : Nodes) (root p : ℕ) (c : Ctx) (y : ℕ)
    → IsCtx h root p c
    → up_of c ≢ 0
    → lo_of c ≤ (h y).key
    → (h y).key < hi_of c
    → y ≢ root
root_ne h root p top y f real from to = absurd (real refl)
root_ne h root p (under left a k c sib top) y (held, _, _, _, is) real from to =
    let key = held.key_is in
    λ e.
      let same : (h y).key ≡ (h a).key = ap (λ (z : ℕ). (h z).key) (e ∙ is) in absurd (omega arith)
root_ne h root p (under right a k c sib top) y (held, _, _, _, is) real from to =
    let key = held.key_is in
    λ e.
      let same : (h y).key ≡ (h a).key = ap (λ (z : ℕ). (h z).key) (e ∙ is) in absurd (omega arith)
root_ne h root p (under left a k c sib (under d b j red s r)) y (_, _, to', _, f) real from to =
    root_ne h root a (under d b j red s r) y f (ctx_real d h root a b j red s r f) from
      (omega arith)
root_ne h root p (under right a k c sib (under d b j red s r)) y (_, from', _, _, f) real from to =
    root_ne h root a (under d b j red s r) y f (ctx_real d h root a b j red s r f) (omega arith) to

stops : (n : ℕ) (t : Rbt) (ptr : ℕ) → fixup_goes t ptr ≡ false → fixup_loop (suc n) t ptr ≡ some t
unfolding fixup_loop
stops n t ptr e = rw e refl

pub goes :
    (n : ℕ) (t t' : Rbt) (ptr ptr' : ℕ)
    → fixup_goes t ptr ≡ true
    → fixup_turn t ptr ≡ (t', ptr')
    → fixup_loop (suc n) t ptr ≡ fixup_loop n t' ptr'
unfolding fixup_loop
goes n t t' ptr ptr' e turn = rw (e, turn) refl

goes_top : (t : Rbt) (ptr : ℕ) → t.root ≡ ptr → fixup_goes t ptr ≡ false
unfolding fixup_goes
goes_top t ptr e = ground arith

goes_black :
    (t : Rbt) (ptr p : ℕ)
    → (t.nodes ptr).parent ≡ p
    → (t.nodes p).red ≡ false
    → fixup_goes t ptr ≡ false
unfolding fixup_goes
goes_black t ptr p e black = ground arith

goes_done : (t : Rbt) (ptr : ℕ) → (t.nodes ptr).red ≡ false → fixup_goes t ptr ≡ false
unfolding fixup_goes
goes_done t ptr black = ground arith

goes_on :
    (t : Rbt) (ptr p : ℕ)
    → ptr ≢ t.root
    → (t.nodes ptr).red ≡ true
    → (t.nodes ptr).parent ≡ p
    → (t.nodes p).red ≡ true
    → fixup_goes t ptr ≡ true
unfolding fixup_goes
goes_on t ptr p ne red e red' = ground arith

pub settle_top :
    (n m : ℕ) {t : Rbt} (s : Tree)
    → Focus t top s
    → RedNode s m
    → Settles (suc n) t (addr s) (entries s)
settle_top n m leaf f red = elim red [ ]
settle_top n m {t} (node l a k true r) f red = record {
  end = t;
  tree = node l a k true r;
  runs = stops n t a (goes_top t a f.around);
  holds = f;
  colors = plug-Nearly top l a k true r m tt (Rb-RedNode (node l a k true r) m red);
  same = refl;
}
settle_top n m (node l a k false r) f red = elim red [ ]

pub settle_black_parent :
    (n m : ℕ) (d : Dir) {t : Rbt} {p kp : ℕ} {sib : Tree} {rest : Ctx} (s : Tree)
    → Focus t (under d p kp false sib rest) s
    → RbCtx (under d p kp false sib rest) m
    → RedNode s m
    → Settles (suc n) t (addr s) (entries (plug (under d p kp false sib rest) s))
settle_black_parent n m d leaf f ctx red = elim red [ ]
settle_black_parent n m d {t} {p} {kp} {sib} {rest} (node l a k true r) f ctx red =
    let at = Focus-At d (node l a k true r) p kp false sib (close d f) in
    record {
      end = t;
      tree = plug (under d p kp false sib rest) (node l a k true r);
      runs = stops n t a (goes_black t a p (above_is d m (node l a k true r) red f) at.red_is);
      holds = close_all (under d p kp false sib rest) f;
      colors =
          plug-Nearly (under d p kp false sib rest) l a k true r m ctx
            (Rb-RedNode (node l a k true r) m red);
      same = refl;
    }
settle_black_parent n m d (node l a k false r) f ctx red = elim red [ ]

-- The loop goes on at a red node below a red one.
module _ (d e : Dir) {t : Rbt} (m : ℕ) {p kp g kg : ℕ} {c : Bool} {sib uncle : Tree}
    {rest : Ctx} where
  pub goes_red :
      (s : Tree)
      → Focus t (under d p kp true sib (under e g kg c uncle rest)) s
      → RedNode s m
      → fixup_goes t (addr s) ≡ true
  goes_red leaf f red = elim red [ ]
  goes_red (node l a k true r) f red =
      let at = Focus-At d (node l a k true r) p kp true sib (close d f) in
      let (held, from, to, _, _) = f.here in
      let key = held.key_is in
      goes_on t a p
        (root_ne t.nodes t.root a (under d p kp true sib (under e g kg c uncle rest)) a f.around
          at.real (omega arith) (omega arith))
        held.red_is (above_is d m (node l a k true r) red f) at.red_is
  goes_red (node l a k false r) f red = elim red [ ]

plug-mk-Nearly :
    (e : Dir) (c : Ctx) (s : Tree) (a k n : ℕ) (t : Tree)
    → RbCtx c n
    → Rb (mk e s a k false t) (head_red c) n
    → Nearly (plug c (mk e s a k false t))
plug-mk-Nearly left c s a k n t ctx h = plug-Nearly c s a k false t n ctx h
plug-mk-Nearly right c s a k n t ctx h = plug-Nearly c t a k false s n ctx h

-- After the rotation of the grandparent the loop ends at a black node.
pub settle_lifted :
    (e : Dir) (n m : ℕ) {t up : Rbt} {rest : Ctx} (ptr : ℕ) (s : Tree) (p kp : ℕ) (sib : Tree)
    (g kg : ℕ) (uncle : Tree) (es : List (ℕ × ℕ))
    → fixup_goes t ptr ≡ true
    → fixup_turn t ptr ≡ (up, p)
    → Focus up rest (mk e s p kp false (mk e sib g kg true uncle))
    → RbCtx rest (suc m)
    → Rb s false m
    → Rb sib true m
    → Rb uncle true m
    → entries (plug rest (mk e s p kp false (mk e sib g kg true uncle))) ≡ es
    → Settles (suc (suc n)) t ptr es
settle_lifted e n m {t} {up} {rest} ptr s p kp sib g kg uncle es goes_on turn f ctx rb_s rb_sib
      rb_uncle same =
    let at = Focus-At e s p kp false (mk e sib g kg true uncle) f in
    record {
      end = up;
      tree = plug rest (mk e s p kp false (mk e sib g kg true uncle));
      runs = goes (suc n) t up ptr p goes_on turn ∙ stops n up p (goes_done up p at.red_is);
      holds = close_all rest f;
      colors = plug-mk-Nearly e rest s p kp (suc m) (mk e sib g kg true uncle) ctx (
          Rb-black e s (mk e sib g kg true uncle) p kp (head_red rest) m rb_s
            (Rb-red e sib uncle g kg m rb_sib rb_uncle));
      same = same;
    }
