-- ===== src/Rbt/Lift.antt =====
-- The two ways a round of `__insert_fixup` changes the tree around its node: colors that move up,
-- and the rotation of the grandparent with the exchange of colors.
use balrog_os.Prelude.{ℕ, suc, ◌≡◌, refl, ◌≢◌, inl, inr, Bool, true, false, arith}
use mathlib.Core.Path.{subst}
use balrog_os.Rbt.{
  Dir, left, right, flip, Nodes, Rbt, child, set_red, get_dir, rotate, recolor, swap_colors, lift,
}
use balrog_os.Rbt.Shape.{
  Tree, leaf, node, Ctx, mk, Focus, addr, lo_of, hi_of, up_of, close, open_side,
}
use balrog_os.Rbt.Paint.{Focus-paint}
use balrog_os.Rbt.Rotated.{rotate-Focus}
use balrog_os.Rbt.Turn.{root_apart}

-- What the node at the root of a subtree holds, seen from one side.
pub record At (h : Nodes) (d : Dir) (a k : ℕ) (c : Bool) (up near far : ℕ) : Type 0 where
  pub real : a ≢ 0
  pub key_is : (h a).key ≡ k
  pub red_is : (h a).red ≡ c
  pub parent_is : (h a).parent ≡ up
  pub near_is : child d (h a) ≡ near
  pub far_is : child (flip d) (h a) ≡ far

pub Focus-At :
    (d : Dir) {t : Rbt} {c : Ctx} (s : Tree) (a k : ℕ) (red : Bool) (far : Tree)
    → Focus t c (mk d s a k red far)
    → At t.nodes d a k red (up_of c) (addr s) (addr far)
Focus-At left s a k red far f =
    let held = f.here.0 in
    record {
      real = held.real;
      key_is = held.key_is;
      red_is = held.red_is;
      parent_is = held.parent_is;
      near_is = held.low_is;
      far_is = held.high_is;
    }
Focus-At right s a k red far f =
    let held = f.here.0 in
    record {
      real = held.real;
      key_is = held.key_is;
      red_is = held.red_is;
      parent_is = held.parent_is;
      near_is = held.high_is;
      far_is = held.low_is;
    }

-- The two children of a node differ.
pub children_differ :
    (d : Dir) {t : Rbt} {c : Ctx} (s : Tree) (a k : ℕ) (red : Bool) (far : Tree)
    → Focus t c (mk d s a k red far)
    → addr s ≢ 0
    → addr far ≢ addr s
children_differ d leaf a k red far f real = absurd (real refl)
children_differ left {t} {c} (node l b j e r) a k red far f real =
    let (_, _, _, (held, from, to, _, _), ff) = f.here in
    let key = held.key_is in
    root_apart t.nodes (suc k) (hi_of c) a far b ff held.real (inl (omega arith))
children_differ right {t} {c} (node l b j e r) a k red far f real =
    let (_, _, _, ff, (held, from, to, _, _)) = f.here in
    let key = held.key_is in root_apart t.nodes (lo_of c) k a far b ff held.real (inr (omega arith))

pub paint_mk :
    (v : Bool) (d : Dir) {t : Rbt} {c : Ctx} (s : Tree) (a k : ℕ) (red : Bool) (far : Tree)
    → Focus t c (mk d s a k red far)
    → Focus (record t { nodes = set_red a v t.nodes }) c (mk d s a k v far)
paint_mk v left s a k red far f = Focus-paint v s a k red far f
paint_mk v right s a k red far f = Focus-paint v far a k red s f

pub paint_near :
    (v : Bool) (e d : Dir) {t : Rbt} {c : Ctx} (s : Tree) (p kp : ℕ) (red : Bool) (sib : Tree)
    (g kg : ℕ) (cg : Bool) (far : Tree)
    → Focus t c (mk e (mk d s p kp red sib) g kg cg far)
    → Focus (record t { nodes = set_red p v t.nodes }) c (mk e (mk d s p kp v sib) g kg cg far)
paint_near v left d s p kp red sib g kg cg far f =
    close left (paint_mk v d s p kp red sib (open_side left f))
paint_near v right d s p kp red sib g kg cg far f =
    close right (paint_mk v d s p kp red sib (open_side right f))

pub paint_far :
    (v : Bool) (e d : Dir) {t : Rbt} {c : Ctx} (near : Tree) (g kg : ℕ) (cg : Bool) (s : Tree)
    (p kp : ℕ) (red : Bool) (sib : Tree)
    → Focus t c (mk e near g kg cg (mk d s p kp red sib))
    → Focus (record t { nodes = set_red p v t.nodes }) c (mk e near g kg cg (mk d s p kp v sib))
paint_far v left d near g kg cg s p kp red sib f =
    close right (paint_mk v d s p kp red sib (open_side right f))
paint_far v right d near g kg cg s p kp red sib f =
    close left (paint_mk v d s p kp red sib (open_side left f))

-- RBT_GET_DIR of a node below another is its side.
pub get_dir-side :
    (d : Dir) {t : Rbt} {c : Ctx} (s : Tree) (g j : ℕ) (red : Bool) (far : Tree) (p : ℕ)
    → Focus t c (mk d s g j red far)
    → addr s ≡ p
    → p ≢ 0
    → (t.nodes p).parent ≡ g
    → get_dir t.nodes p ≡ d
unfolding get_dir
get_dir-side left {t} s g j red far p f is real e =
    let at = Focus-At left s g j red far f in
    let differ = children_differ left s g j red far f (rw is real) in
    let high : (t.nodes ((t.nodes p).parent)).high ≡ addr far = rw e at.far_is in ground arith
get_dir-side right {t} s g j red far p f is real e =
    let at = Focus-At right s g j red far f in
    let high : (t.nodes ((t.nodes p).parent)).high ≡ addr s = rw e at.near_is in ground arith

-- Red goes up from parent and uncle to the grandparent.
pub recolor-Focus :
    (d e : Dir) {t : Rbt} {rest : Ctx} (s : Tree) (p kp : ℕ) (sib : Tree) (g kg : ℕ) (ul : Tree)
    (u ku : ℕ) (ur : Tree)
    → Focus t rest (mk e (mk d s p kp true sib) g kg false (node ul u ku true ur))
    → Focus (recolor t p u g) rest (mk e (mk d s p kp false sib) g kg true (node ul u ku false ur))
unfolding recolor
recolor-Focus d e s p kp sib g kg ul u ku ur f =
    paint_mk true e (mk d s p kp false sib) g kg false (node ul u ku false ur) (
      paint_far false e left (mk d s p kp false sib) g kg false ul u ku true ur
        (paint_near false e d s p kp true sib g kg false (node ul u ku true ur) f))

pub rotate_up :
    (e : Dir) {t : Rbt} {rest : Ctx} (s : Tree) (p kp : ℕ) (cp : Bool) (sib : Tree) (g kg : ℕ)
    (cg : Bool) (uncle : Tree)
    → Focus t rest (mk e (mk e s p kp cp sib) g kg cg uncle)
    → Focus (rotate t g (flip e)) rest (mk e s p kp cp (mk e sib g kg cg uncle))
rotate_up left s p kp cp sib g kg cg uncle f = rotate-Focus right uncle g kg cg sib p kp cp s f
rotate_up right s p kp cp sib g kg cg uncle f = rotate-Focus left uncle g kg cg sib p kp cp s f

far_red :
    (d e : Dir) {t : Rbt} {c : Ctx} (near : Tree) (g kg : ℕ) (cg : Bool) (s : Tree) (p kp : ℕ)
    (red : Bool) (sib : Tree)
    → Focus t c (mk e near g kg cg (mk d s p kp red sib))
    → (t.nodes p).red ≡ red
far_red d left near g kg cg s p kp red sib f =
    let at = Focus-At d s p kp red sib (open_side right {s = mk d s p kp red sib} f) in at.red_is
far_red d right near g kg cg s p kp red sib f =
    let at = Focus-At d s p kp red sib (open_side left {s = mk d s p kp red sib} f) in at.red_is

swap-Focus :
    (e : Dir) {t : Rbt} {rest : Ctx} (s : Tree) (p kp : ℕ) (sib : Tree) (g kg : ℕ) (uncle : Tree)
    → Focus t rest (mk e s p kp true (mk e sib g kg false uncle))
    → Focus (swap_colors t p g) rest (mk e s p kp false (mk e sib g kg true uncle))
unfolding swap_colors
swap-Focus e {t} {rest} s p kp sib g kg uncle f =
    let parent = Focus-At e s p kp true (mk e sib g kg false uncle) f in
    let painted =
      paint_far (t.nodes p).red e e s p kp (t.nodes g).red sib g kg false uncle
        (paint_mk (t.nodes g).red e s p kp true (mk e sib g kg false uncle) f) in
    subst (λ (z : Bool). Focus (swap_colors t p g) rest (mk e s p kp z (mk e sib g kg true uncle)))
      (far_red e e s p kp true sib g kg false uncle f)
      (subst
        (λ (z : Bool).
          Focus (swap_colors t p g) rest (mk e s p kp (t.nodes g).red (mk e sib g kg z uncle)))
        parent.red_is painted)

-- The grandparent goes below the parent, and they exchange their colors.
pub lift-Focus :
    (e : Dir) {t : Rbt} {rest : Ctx} (s : Tree) (p kp : ℕ) (sib : Tree) (g kg : ℕ) (uncle : Tree)
    (ptr : ℕ)
    → (t.nodes ((t.nodes ptr).parent)).parent ≡ g
    → Focus t rest (mk e (mk e s p kp true sib) g kg false uncle)
    → Focus (lift t ptr p g e) rest (mk e s p kp false (mk e sib g kg true uncle))
unfolding lift
lift-Focus e s p kp sib g kg uncle ptr above f =
    rw above (swap-Focus e s p kp sib g kg uncle (rotate_up e s p kp true sib g kg false uncle f))
