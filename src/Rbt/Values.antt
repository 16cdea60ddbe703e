-- ===== src/Rbt/Values.antt =====
-- rbt_delete of a node without two children leaves every value in place.
use balrog_os.Prelude.{
  ℕ, zero, suc, ◌≡◌, refl, ◌∙◌, ◌==◌, ◌&&◌, true, false, not, Bool, if◌then◌else◌, Bool-cases, inl,
  inr, Option, none, some, arith,
}
use mathlib.Core.Path.{subst}
use balrog_os.Rbt.{
  Dir, left, right, flip, Rbt, Nodes, child, put, set_child, set_parent, set_red, is_red, get_dir,
  hand_over, relink, hang, rotate,
}
use balrog_os.Rbt.Remove.{
  Round, over, again, red_sibling, far_painted, near_painted, entry_painted, sibling_painted,
  delete_turn, delete_fixup, promoted, dir_of, promote, settle_colors, delete_node, rbt_delete,
}

-- The same value at every address
abbrev pub SameValues : Nodes → Nodes → Type 0
SameValues g h = (y : ℕ) → (g y).value ≡ (h y).value

child-values : (d : Dir) (a v : ℕ) (h : Nodes) → SameValues (set_child d a v h) h
unfolding put
child-values left a v h y = ground arith
child-values right a v h y = ground arith

parent-values : (a v : ℕ) (h : Nodes) → SameValues (set_parent a v h) h
unfolding put
parent-values a v h y = ground arith

red-values : (a : ℕ) (b : Bool) (h : Nodes) → SameValues (set_red a b h) h
unfolding put
red-values a b h y = ground arith

if-values :
    (b : Bool) (f g h : Nodes) → SameValues f h → SameValues g h → SameValues (if b then f else g) h
if-values true f g h l r = l
if-values false f g h l r = r

same : (h : Nodes) → SameValues h h
same h y = refl

hand_over-values :
    (h : Nodes) (x pivot inner : ℕ) (d : Dir) → SameValues (hand_over h x pivot inner d) h
unfolding hand_over
hand_over-values h x pivot inner d y =
    let moved = set_child (flip d) x inner h in
    let told = if inner == 0 then moved else set_parent inner x moved in
    parent-values pivot (told x).parent told y
    ∙ if-values (inner == 0) moved (set_parent inner x moved) moved (same moved)
        (parent-values inner x moved) y
    ∙ child-values (flip d) x inner h y

relink-values : (h : Nodes) (x pivot : ℕ) (d : Dir) → SameValues (relink h x pivot d) h
unfolding relink
relink-values h x pivot d =
    let up : ℕ = (h x).parent in
    if-values (up == 0) h _ h (same h) (
      if-values (x == child d (h up)) (set_child d up pivot h) (set_child (flip d) up pivot h) h
        (child-values d up pivot h) (child-values (flip d) up pivot h))

hang-values : (h : Nodes) (x pivot : ℕ) (d : Dir) → SameValues (hang h x pivot d) h
unfolding hang
hang-values h x pivot d y =
    parent-values x pivot (set_child d pivot x h) y ∙ child-values d pivot x h y

rotate-values : (t : Rbt) (x : ℕ) (d : Dir) → SameValues (rotate t x d).nodes t.nodes
unfolding rotate
rotate-values t x d y =
    let pivot : ℕ = child (flip d) (t.nodes x) in
    let inner : ℕ = child d (t.nodes pivot) in
    let moved = hand_over t.nodes x pivot inner d in
    hang-values (relink moved x pivot d) x pivot d y
    ∙ relink-values moved x pivot d y
    ∙ hand_over-values t.nodes x pivot inner d y

-- What a round leaves
abbrev tree_of : Round → Rbt
tree_of (over t) = t
tree_of (again t a d) = t

if-round :
    (b : Bool) (f g : Round) (h : Nodes)
    → SameValues (tree_of f).nodes h
    → SameValues (tree_of g).nodes h
    → SameValues (tree_of (if b then f else g)).nodes h
if-round true f g h l r = l
if-round false f g h l r = r

two_red : (a w : ℕ) (b c : Bool) (h : Nodes) → SameValues (set_red a b (set_red w c h)) h
two_red a w b c h y = red-values a b (set_red w c h) y ∙ red-values w c h y

red_sibling-values : (t : Rbt) (a w : ℕ) (d : Dir) → SameValues (red_sibling t a w d).nodes t.nodes
unfolding red_sibling
red_sibling-values t a w d y = two_red w a false true (rotate t a d).nodes y ∙ rotate-values t a d y

far_painted-values : (t : Rbt) (a w far : ℕ) → SameValues (far_painted t a w far).nodes t.nodes
unfolding far_painted
far_painted-values t a w far y =
    let one = set_red far false t.nodes in
    two_red a w false (one a).red one y ∙ red-values far false t.nodes y

near_painted-values : (t : Rbt) (w near : ℕ) → SameValues (near_painted t w near).nodes t.nodes
unfolding near_painted
near_painted-values t w near = two_red w near true false t.nodes

entry_painted-values : (t : Rbt) (a w : ℕ) → SameValues (entry_painted t a w).nodes t.nodes
unfolding entry_painted
entry_painted-values t a w = two_red w a true false t.nodes

sibling_painted-values : (t : Rbt) (w : ℕ) → SameValues (sibling_painted t w).nodes t.nodes
unfolding sibling_painted
sibling_painted-values t w = red-values w true t.nodes

delete_turn-values :
    (t : Rbt) (a : ℕ) (d : Dir) → SameValues (tree_of (delete_turn t a d)).nodes t.nodes
unfolding delete_turn
delete_turn-values t a d =
    let w : ℕ = child (flip d) (t.nodes a) in
    let far : ℕ = child (flip d) (t.nodes w) in
    let near : ℕ = child d (t.nodes w) in
    let far_turned = rotate (far_painted t a w far) a d in
    let near_turned = rotate (near_painted t w near) w (flip d) in
    let up : ℕ = (t.nodes a).parent in
    let last =
      if-round (t.nodes a).red (over (entry_painted t a w))
        (again (sibling_painted t w) up (if up == 0 then d else get_dir t.nodes a)) t.nodes
        (entry_painted-values t a w) (sibling_painted-values t w) in
    let third =
      if-round (is_red t.nodes near) (again near_turned a d) _ t.nodes
        (λ y. rotate-values (near_painted t w near) w (flip d) y ∙ near_painted-values t w near y)
        last in
    let second =
      if-round (is_red t.nodes far) (over far_turned) _ t.nodes
        (λ y. rotate-values (far_painted t a w far) a d y ∙ far_painted-values t a w far y) third in
    if-round (is_red t.nodes w) (again (red_sibling t a w d) a d) _ t.nodes
      (red_sibling-values t a w d) second

-- The nodes of a result, where there is one
abbrev KeepsValues : Option Rbt → Nodes → Type 0
KeepsValues none h = Unit
KeepsValues (some t) h = SameValues t.nodes h

KeepsValues-trans :
    (r : Option Rbt) (g h : Nodes) → KeepsValues r g → SameValues g h → KeepsValues r h
KeepsValues-trans none g h k s = tt
KeepsValues-trans (some t) g h k s = λ y. k y ∙ s y

if-keeps :
    (b : Bool) (f g : Option Rbt) (h : Nodes)
    → KeepsValues f h
    → KeepsValues g h
    → KeepsValues (if b then f else g) h
if-keeps true f g h l r = l
if-keeps false f g h l r = r

delete_fixup-values :
    (n : ℕ) (t : Rbt) (a : ℕ) (d : Dir) → KeepsValues (delete_fixup n t a d) t.nodes
unfolding delete_fixup
delete_fixup-values zero t a d = tt
delete_fixup-values (suc n) t a d =
    let turn = delete_turn-values t a d in
    if-keeps (a == 0) (some t) _ t.nodes (same t.nodes) (
      elim (delete_turn t a d)
          as (λ (r : Round).
            SameValues (tree_of r).nodes t.nodes
            → KeepsValues
                (elim r [ over done ↦ some done | again t' a' d' ↦ delete_fixup n t' a' d' ])
                t.nodes) [
                  | over done ↦ λ s. s
                  | again t' a' d' ↦ λ s.
                      KeepsValues-trans (delete_fixup n t' a' d') t'.nodes t.nodes
                        (delete_fixup-values n t' a' d') s
                ]
        turn)

promote-values : (t : Rbt) (x kept : ℕ) → SameValues (promote t x kept).nodes t.nodes
unfolding promote
promote-values t x kept y =
    let up : ℕ = (t.nodes x).parent in
    let cut = set_child (get_dir t.nodes x) up kept t.nodes in
    let linked = if up == 0 then t.nodes else cut in
    if-values (kept == 0) linked (set_parent kept (linked x).parent linked) linked (same linked)
      (parent-values kept (linked x).parent linked) y
    ∙ if-values (up == 0) t.nodes cut t.nodes (same t.nodes)
        (child-values (get_dir t.nodes x) up kept t.nodes) y

settle_colors-values :
    (n : ℕ) (t : Rbt) (x kept : ℕ) (d : Dir) → KeepsValues (settle_colors n t x kept d) t.nodes
unfolding settle_colors
settle_colors-values n t x kept d =
    let up : ℕ = (t.nodes x).parent in
    let cut = if up == 0 then t.nodes else set_child d up 0 t.nodes in
    let loop =
      KeepsValues-trans (delete_fixup n (record t { nodes = cut }) up d) cut t.nodes
        (delete_fixup-values n (record t { nodes = cut }) up d)
        (if-values (up == 0) t.nodes (set_child d up 0 t.nodes) t.nodes (same t.nodes)
          (child-values d up 0 t.nodes)) in
    let again_up = delete_fixup n (record t { nodes = cut }) up d in
    let black = record t { nodes = set_red kept (not (t.nodes kept).red) t.nodes } in
    if-keeps (t.nodes x).red (if is_red t.nodes kept then again_up else some t)
      (if is_red t.nodes kept then some black else again_up) t.nodes
      (if-keeps (is_red t.nodes kept) again_up (some t) t.nodes loop (same t.nodes))
      (if-keeps (is_red t.nodes kept) (some black) again_up t.nodes
        (red-values kept (not (t.nodes kept).red) t.nodes) loop)

delete_node-values : (n : ℕ) (t : Rbt) (x : ℕ) → KeepsValues (delete_node n t x) t.nodes
unfolding delete_node
delete_node-values n t x =
    let up = promote t x (promoted t.nodes x) in
    KeepsValues-trans (settle_colors n up x (promoted t.nodes x) (dir_of t.nodes x)) up.nodes
      t.nodes (settle_colors-values n up x (promoted t.nodes x) (dir_of t.nodes x))
      (promote-values t x (promoted t.nodes x))

rbt_delete-keeps :
    (n : ℕ) (t : Rbt) (x : ℕ)
    → (not ((t.nodes x).low == 0) && not ((t.nodes x).high == 0)) ≡ false
    → KeepsValues (rbt_delete n t x) t.nodes
unfolding rbt_delete
rbt_delete-keeps n t x single = elim (Bool-cases (x == 0)) [
  | inl null ↦ rw null (same t.nodes)
  | inr real ↦ rw (real, single) (delete_node-values n t x)
]

pub rbt_delete-values :
    (n : ℕ) (t done : Rbt) (x : ℕ)
    → (not ((t.nodes x).low == 0) && not ((t.nodes x).high == 0)) ≡ false
    → rbt_delete n t x ≡ some done
    → SameValues done.nodes t.nodes
rbt_delete-values n t done x single e =
    subst (λ (r : Option Rbt). KeepsValues r t.nodes) e (rbt_delete-keeps n t x single)
