-- ===== src/Rbt/Remove.antt =====
-- rbt_delete and `__delete_fixup` of src/klib/data_structure/rbt.c. vmfree is left out: a node that is
-- given back keeps what is stored in it, and nothing reads it again.
use balrog_os.Prelude.{
  ℕ, zero, suc, true, false, ◌&&◌, not, Option, none, some, ◌==◌, if◌then◌else◌,
}
use balrog_os.Rbt.{
  Dir, left, right, flip, Nodes, Rbt, child, put, set_child, set_parent, set_red, is_red, get_dir,
  rotate, leftmost_from, rbt_search,
}

-- What a round of `__delete_fixup` does: it returns, or it goes on at a node and a direction.
pub data Round : Type 0 where
  over : Rbt → Round
  again : Rbt → ℕ → Dir → Round

-- The colors that the cases of `__delete_fixup` store, at the entry `a` and its sibling `w`.
unfoldable pub red_sibling : Rbt → (a w : ℕ) → Dir → Rbt
red_sibling t a w d =
    let up = rotate t a d in record up { nodes = set_red w false (set_red a true up.nodes) }

unfoldable pub far_painted : Rbt → (a w far : ℕ) → Rbt
far_painted t a w far =
    let one = set_red far false t.nodes in
    let two = set_red w (one a).red one in record t { nodes = set_red a false two }

unfoldable pub near_painted : Rbt → (w near : ℕ) → Rbt
near_painted t w near = record t { nodes = set_red w true (set_red near false t.nodes) }

unfoldable pub entry_painted : Rbt → (a w : ℕ) → Rbt
entry_painted t a w = record t { nodes = set_red w true (set_red a false t.nodes) }

unfoldable pub sibling_painted : Rbt → ℕ → Rbt
sibling_painted t w = record t { nodes = set_red w true t.nodes }

-- One round of `__delete_fixup`
unfoldable pub delete_turn : Rbt → ℕ → Dir → Round
delete_turn t a d =
    let w : ℕ = child (flip d) (t.nodes a) in
    if is_red t.nodes w
    then again (red_sibling t a w d) a d
    else if is_red t.nodes (child (flip d) (t.nodes w))
    then over (rotate (far_painted t a w (child (flip d) (t.nodes w))) a d)
    else if is_red t.nodes (child d (t.nodes w))
    then again (rotate (near_painted t w (child d (t.nodes w))) w (flip d)) a d
    else if (t.nodes a).red
    then over (entry_painted t a w)
    else again (sibling_painted t w) (t.nodes a).parent
        (if (t.nodes a).parent == 0 then d else get_dir t.nodes a)

-- `__delete_fixup`; `none` is a loop that ran out of fuel.
unfoldable pub delete_fixup : ℕ → Rbt → ℕ → Dir → Option Rbt
delete_fixup zero t a d = none
delete_fixup (suc n) t a d = if a == 0 then some t else elim (delete_turn t a d) [
  | over done ↦ some done
  | again t' a' d' ↦ delete_fixup n t' a' d'
]

-- The key and the value of the successor, stored in the node to delete.
unfoldable pub copy_entry : (to from : ℕ) → Nodes → Nodes
copy_entry to from h = put to (record (h to) { key = (h from).key; value = (h from).value }) h

-- The only child of the node takes its place.
unfoldable pub promoted : Nodes → ℕ → ℕ
promoted h x = child (if (h x).low == 0 then right else left) (h x)

unfoldable pub dir_of : Nodes → ℕ → Dir
dir_of h x = if (h x).parent == 0 then left else get_dir h x

unfoldable pub promote : Rbt → (x kept : ℕ) → Rbt
promote t x kept =
    let up : ℕ = (t.nodes x).parent in
    let linked = if up == 0 then t.nodes else set_child (get_dir t.nodes x) up kept t.nodes in
    record t {
      root = if up == 0 then kept else t.root;
      nodes = if kept == 0 then linked else set_parent kept (linked x).parent linked;
    }

-- What follows: a child that turns black, nothing, or the loop at the node above.
unfoldable pub settle_colors : ℕ → Rbt → (x kept : ℕ) → Dir → Option Rbt
settle_colors n t x kept d =
    let up : ℕ = (t.nodes x).parent in
    if (t.nodes x).red
    then (if is_red t.nodes kept
        then delete_fixup n
            (record t { nodes = if up == 0 then t.nodes else set_child d up 0 t.nodes }) up d
        else some t)
    else (if is_red t.nodes kept
        then some (record t { nodes = set_red kept (not (t.nodes kept).red) t.nodes })
        else delete_fixup n
            (record t { nodes = if up == 0 then t.nodes else set_child d up 0 t.nodes }) up d)

unfoldable pub delete_node : ℕ → Rbt → ℕ → Option Rbt
delete_node n t x =
    settle_colors n (promote t x (promoted t.nodes x)) x (promoted t.nodes x) (dir_of t.nodes x)

-- `rbt_delete`
unfoldable pub rbt_delete : ℕ → Rbt → ℕ → Option Rbt
rbt_delete n t x =
    if x == 0
    then some t
    else if not ((t.nodes x).low == 0) && not ((t.nodes x).high == 0)
    then elim (leftmost_from n t.nodes (t.nodes x).high) [
      | none ↦ none
      | some next ↦ delete_node n (record t { nodes = copy_entry x next t.nodes }) next
    ]
    else delete_node n t x

-- `rbt_delete_key`
unfoldable pub rbt_delete_key : ℕ → Rbt → ℕ → Option Rbt
rbt_delete_key n t key = elim (rbt_search n t key) [ none ↦ none | some x ↦ rbt_delete n t x ]
