-- ===== src/Rbt.antt =====
-- src/klib/data_structure/rbt.c: the red-black tree, nodes with parent pointers in a heap. The nodes
-- are a function of their address, and 0 is NULL; `red` says that color is RBT_RED, and the
-- direction of children[] is RBT_LEFT or RBT_RIGHT. What vmalloc answers is an argument of the
-- insertion. rbt_lock is held through each operation and is left out.
pub mod Shape
pub mod Frame
pub mod Rotate
pub mod Turn
pub mod Rotated
pub mod Paint
pub mod Colors
pub mod Lift
pub mod Round
pub mod Settle
pub mod Fixup
pub mod Place
pub mod Order
pub mod Link
pub mod Insert
pub mod Search
pub mod Locate
pub mod Remove
pub mod Mend
pub mod Mended
pub mod Balance
pub mod Promote
pub mod Spliced
pub mod Single
pub mod Rekey
pub mod Successor
pub mod Replace
pub mod Delete
pub mod Keys
pub mod Values
pub mod Sample
mod Tests
use balrog_os.Prelude.{
  ℕ, zero, suc, ◌+◌, Bool, true, false, ◌&&◌, not, Option, none, some, ltb, ◌==◌, if◌then◌else◌,
}

-- RBT_LEFT and RBT_RIGHT
pub data Dir : Type 0 where
  left : Dir
  right : Dir

abbrev pub flip : Dir → Dir
flip left = right
flip right = left

-- A `rbt_node`
pub record Node : Type 0 where
  pub key : ℕ
  pub value : ℕ
  pub red : Bool
  pub parent : ℕ
  pub low : ℕ
  pub high : ℕ

abbrev pub Nodes : Type 0
Nodes = ℕ → Node

-- A `rbt_tree`
pub record Rbt : Type 0 where
  pub root : ℕ
  pub leftmost : ℕ
  pub nodes : Nodes

-- children[dir], read and written
abbrev pub child : Dir → Node → ℕ
child left n = n.low
child right n = n.high

abbrev pub with_child : Dir → ℕ → Node → Node
with_child left a n = record n { low = a }
with_child right a n = record n { high = a }

-- The node at an address replaced
unfoldable pub put : ℕ → Node → Nodes → Nodes
put a n h x = if x == a then n else h x

abbrev pub set_child : Dir → (a v : ℕ) → Nodes → Nodes
set_child d a v h = put a (with_child d v (h a)) h

abbrev pub set_parent : (a v : ℕ) → Nodes → Nodes
set_parent a v h = put a (record (h a) { parent = v }) h

abbrev pub set_red : ℕ → Bool → Nodes → Nodes
set_red a v h = put a (record (h a) { red = v }) h

abbrev pub is_red : Nodes → ℕ → Bool
is_red h a = not (a == 0) && (h a).red

-- RBT_GET_DIR
unfoldable pub get_dir : Nodes → ℕ → Dir
get_dir h a = if a == (h ((h a).parent)).high then right else left

-- `rbt_init`
unfoldable pub rbt_init : Rbt → Rbt
rbt_init t = record t { root = 0; leftmost = 0 }

-- What `rbt_create_node` stores in a node
abbrev pub created : (parent key : ℕ) → Node → Node
created parent key n = record n { key = key; red = true; parent = parent; low = 0; high = 0 }

-- The walks take as many steps as their fuel; `none` is a walk that ran out of it.
unfoldable pub search : ℕ → Nodes → (key a : ℕ) → Option ℕ
search zero h key a = none
search (suc n) h key a =
    let rest = search n h key (child (if ltb (h a).key key then right else left) (h a)) in
    if a == 0 then some 0 else if (h a).key == key then some a else rest

-- `rbt_search`
unfoldable pub rbt_search : ℕ → Rbt → ℕ → Option ℕ
unfolding search
rbt_search n t key = search n t.nodes key t.root

unfoldable pub leftmost_from : ℕ → Nodes → ℕ → Option ℕ
leftmost_from zero h a = none
leftmost_from (suc n) h a =
    let rest = leftmost_from n h (h a).low in if (h a).low == 0 then some a else rest

-- `rbt_minimum`
unfoldable pub rbt_minimum : ℕ → Rbt → Option ℕ
unfolding leftmost_from
rbt_minimum n t = if t.root == 0 then some 0 else leftmost_from n t.nodes t.root

-- The children that `__rotate` moves: the pivot's inner child goes to the rotating node.
unfoldable pub hand_over : Nodes → (x pivot inner : ℕ) → Dir → Nodes
unfolding put
hand_over h x pivot inner d =
    let moved = set_child (flip d) x inner h in
    let told = if inner == 0 then moved else set_parent inner x moved in
    set_parent pivot (told x).parent told

-- The link to the rotating node, which becomes one to the pivot.
unfoldable pub relink : Nodes → (x pivot : ℕ) → Dir → Nodes
unfolding put
relink h x pivot d =
    let up : ℕ = (h x).parent in
    if up == 0
    then h
    else if x == child d (h up)
    then set_child d up pivot h
    else set_child (flip d) up pivot h

-- The rotating node goes below the pivot.
unfoldable pub hang : Nodes → (x pivot : ℕ) → Dir → Nodes
unfolding put
hang h x pivot d = set_parent x pivot (set_child d pivot x h)

-- `__rotate`
unfoldable pub rotate : Rbt → ℕ → Dir → Rbt
unfolding hand_over relink hang
rotate t x d =
    let pivot : ℕ = child (flip d) (t.nodes x) in
    let inner : ℕ = child d (t.nodes pivot) in
    let moved = hand_over t.nodes x pivot inner d in
    record t {
      root = if (moved x).parent == 0 then pivot else t.root;
      nodes = hang (relink moved x pivot d) x pivot d;
    }

-- Parent and uncle turn black, and the grandparent red.
unfoldable pub recolor : Rbt → (parent uncle grand : ℕ) → Rbt
unfolding put
recolor t parent uncle grand = record t {
  nodes = set_red grand true (set_red uncle false (set_red parent false t.nodes));
}

-- Parent and grandparent exchange their colors.
unfoldable pub swap_colors : Rbt → (parent grand : ℕ) → Rbt
unfolding put
swap_colors t parent grand =
    let col = (t.nodes parent).red in
    record t { nodes = set_red grand col (set_red parent (t.nodes grand).red t.nodes) }

-- The rotation of the grandparent, and the exchange of the colors.
unfoldable pub lift : Rbt → (ptr parent grand : ℕ) → Dir → Rbt
lift t ptr parent grand dir =
    swap_colors (rotate t (t.nodes ((t.nodes ptr).parent)).parent (flip dir)) parent grand

-- One round of `__insert_fixup`: the tree and the node that it goes on with.
unfoldable pub fixup_turn : Rbt → ℕ → Rbt × ℕ
fixup_turn t ptr =
    let parent : ℕ = (t.nodes ptr).parent in
    let grand : ℕ = (t.nodes parent).parent in
    let dir = get_dir t.nodes parent in
    let uncle : ℕ = child (flip dir) (t.nodes grand) in
    if is_red t.nodes uncle
    then (recolor t parent uncle grand, grand)
    else if ptr == child (flip dir) (t.nodes parent)
    then (let turned = rotate t parent dir in
        let above : ℕ = (turned.nodes parent).parent in (lift turned parent above grand dir, above))
    else (lift t ptr parent grand dir, parent)

-- The loop's condition
unfoldable pub fixup_goes : Rbt → ℕ → Bool
fixup_goes t ptr =
    not (ptr == t.root) && ((t.nodes ptr).red && (t.nodes ((t.nodes ptr).parent)).red)

unfoldable pub fixup_loop : ℕ → Rbt → ℕ → Option Rbt
fixup_loop zero t ptr = none
fixup_loop (suc n) t ptr =
    let next = fixup_turn t ptr in
    let rest = fixup_loop n (next.0) (next.1) in if fixup_goes t ptr then rest else some t

-- The root turns black at the end of `__insert_fixup`.
unfoldable pub black_root : Rbt → Rbt
unfolding put
black_root t = record t { nodes = set_red t.root false t.nodes }

-- `__insert_fixup`
unfoldable pub insert_fixup : ℕ → Rbt → ℕ → Option Rbt
insert_fixup n t ptr = elim (fixup_loop n t ptr) [
  | none ↦ none
  | some done ↦ some (black_root done)
]

-- Where the walk of rbt_insert ends: at a node with the key, or below a node on one side.
pub data Spot : Type 0 where
  found : ℕ → Spot
  below : ℕ → Dir → Spot

unfoldable pub descend : ℕ → Nodes → (key parent : ℕ) → Dir → ℕ → Option Spot
descend zero h key parent dir a = none
descend (suc n) h key parent dir a =
    let side = if ltb (h a).key key then right else left in
    let rest = descend n h key a side (child side (h a)) in
    if a == 0 then some (below parent dir) else if (h a).key == key then some (found a) else rest

-- `rbt_insert`, the memory of a new node being `fresh`; with it the node of the key.
unfoldable pub rbt_insert : ℕ → Rbt → (key fresh : ℕ) → Option (Rbt × ℕ)
rbt_insert n t key fresh =
    if t.root == 0
    then some (
      record t {
        root = fresh;
        nodes = set_red fresh false (put fresh (created 0 key (t.nodes fresh)) t.nodes);
      },
      fresh,
    )
    else elim (descend n t.nodes key 0 left t.root) [
      | none ↦ none
      | some (found a) ↦ some (t, a)
      | some (below parent dir) ↦
          elim (insert_fixup n
            (record t {
              nodes =
                  set_child dir parent fresh
                    (put fresh (created parent key (t.nodes fresh)) t.nodes);
            })
            fresh) [ none ↦ none | some done ↦ some (done, fresh) ]
    ]
