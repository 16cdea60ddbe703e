-- ===== src/Vfs.antt =====
-- src/kernel/file_system/vfs/vfs.c: the tree of mount points. A node is a value with its children
-- inside, so that moving the children to a larger buffer is no change, and the parent pointers are
-- left out. A device is its address, 0 for NULL. The mutex is not part of the model: one call at a
-- time. A path is the list of its bytes, as in Path.
pub mod Path
pub mod Walk
pub mod Sanitize
pub mod Finish
pub mod Insert
pub mod Mount
pub mod Add
mod Tests
use balrog_os.Prelude.{
  ℕ, zero, suc, Bool, true, false, Option, none, some, List, [], ◌∷◌, ◌++◌, ◌+◌, ltb, ◌==◌,
  if◌then◌else◌, ◌&&◌, length, not, ◌-◌,
}
use mathlib.Core.Option
use balrog_os.Vfs.Path.{slash, part_of, behind_part, skip_slash}

-- VFS_NODE_TYPE_DIRECTORY
abbrev pub type_directory : ℕ
type_directory = 1

-- `vfs_node_t`: name, type, device, depth from the root and children.
mutual
  pub data Node : Type 0 where
    node : (name : List ℕ) → (type device depth_from_root : ℕ) → Nodes → Node

  pub data Nodes : Type 0 where
    end : Nodes
    child : Node → Nodes → Nodes

abbrev pub name_of : Node → List ℕ
name_of (node name type device depth children) = name

abbrev pub type_of : Node → ℕ
type_of (node name type device depth children) = type

abbrev pub device_of : Node → ℕ
device_of (node name type device depth children) = device

abbrev pub depth_of : Node → ℕ
depth_of (node name type device depth children) = depth

abbrev pub children_of : Node → Nodes
children_of (node name type device depth children) = children

abbrev pub is_leaf : Nodes → Bool
is_leaf end = true
is_leaf (child n ns) = false

-- Equal lengths, and memcmp finds no difference.
unfoldable pub same_name : List ℕ → List ℕ → Bool
same_name [] [] = true
same_name [] (y ∷ ys) = false
same_name (x ∷ xs) [] = false
same_name (x ∷ xs) (y ∷ ys) = (x == y) && same_name xs ys

-- The first child of the name.
unfoldable pub find_child : List ℕ → Nodes → Option Node
unfolding same_name
find_child part end = none
find_child part (child n ns) = if same_name (name_of n) part then some n else find_child part ns

-- `vfs_find_node_out_t`
pub record Found : Type 0 where
  pub last_search_node : Node
  pub last_device_node : Node

-- The `while(searching)` loop of `__vfs_find_mount`: a round goes down to the child that the next
-- part of the path names. `none`: the fuel ran out.
unfoldable pub find_rounds : ℕ → List ℕ → Found → Option Found
unfolding part_of behind_part skip_slash find_child
find_rounds zero path f = none
find_rounds (suc fuel) path f = elim (find_child (part_of path) (children_of f.last_search_node)) [
  | none ↦ some f
  | some n ↦
      let f' : Found = record {
        last_search_node = n;
        last_device_node = if device_of n == 0 then f.last_device_node else n;
      } in
      elim (is_leaf (children_of n)) [
        | true ↦ some f'
        | false ↦ find_rounds fuel (skip_slash (behind_part path)) f'
      ]
]

abbrev pub at_root : Node → Found
at_root root = record { last_search_node = root; last_device_node = root }

-- `__vfs_find_mount` behind its tests of an empty tree and an empty path
unfoldable pub find_from : ℕ → List ℕ → Node → Option Found
unfolding find_rounds
find_from fuel [] root = some (at_root root)
find_from fuel (c ∷ cs) root =
    if (c == slash) && (length cs == 0)
    then some (at_root root)
    else find_rounds fuel (skip_slash (c ∷ cs)) (at_root root)

-- `__vfs_find_mount`
unfoldable pub find_mount : ℕ → List ℕ → Node → Option Found
unfolding find_from
find_mount fuel path root =
    if is_leaf (children_of root) then some (at_root root) else find_from fuel path root

-- The parts that the loop of `__vfs_insert_nodes` takes from the path, up to an empty one.
unfoldable pub path_parts : ℕ → List ℕ → Option (List (List ℕ))
unfolding part_of behind_part skip_slash
path_parts zero path = none
path_parts (suc fuel) [] = some []
path_parts (suc fuel) (c ∷ cs) = elim (part_of (skip_slash (c ∷ cs))) [
  | [] ↦ some []
  | b ∷ bs ↦ Option.map (λ ps. (b ∷ bs) ∷ ps) (path_parts fuel (behind_part (skip_slash (c ∷ cs))))
]

-- The child of the name is the new one.
unfoldable pub replace_child : List ℕ → Node → Nodes → Nodes
unfolding same_name
replace_child part n' end = end
replace_child part n' (child n ns) =
    if same_name (name_of n) part then child n' ns else child n (replace_child part n' ns)

unfoldable pub add_child : Node → Nodes → Nodes
add_child n' end = child n' end
add_child n' (child n ns) = child n (add_child n' ns)

abbrev pub with_children : Node → Nodes → Node
with_children (node name type device depth children) children' =
    node name type device depth children'

-- What the caller does with the last node: it refuses it, or changes type and device.
abbrev pub Finish : Type 0
Finish = Node → Option Node

-- The nodes for the parts that are not in the tree; the last one has the type 0.
unfoldable pub create_nodes : Finish → (depth : ℕ) → (part : List ℕ) → List (List ℕ) → Option Node
create_nodes finish depth part [] = finish (node part 0 0 depth end)
create_nodes finish depth part (p ∷ ps) =
    Option.map (λ n. node part type_directory 0 depth (child n end))
      (create_nodes finish (suc depth) p ps)

-- `__vfs_insert_nodes`. The first `skip` parts lead to the node that it starts at; below that, a
-- child that is not a directory is refused.
unfoldable pub insert_nodes : Finish → (skip depth : ℕ) → List (List ℕ) → Node → Option Node
unfolding find_child replace_child add_child create_nodes
insert_nodes finish skip depth [] n = finish n
insert_nodes finish skip depth (p ∷ ps) n = elim (find_child p (children_of n)) [
  | none ↦
      Option.map (λ n'. with_children n (add_child n' (children_of n)))
        (create_nodes finish (suc depth) p ps)
  | some c ↦
      let below =
        Option.map (λ n'. with_children n (replace_child p n' (children_of n)))
          (insert_nodes finish (skip - 1) (suc depth) ps c) in
      if (skip == 0) && not (type_of c == type_directory) then none else below
]

-- The end of `__vfs_mount`
unfoldable pub finish_mount : (device : ℕ) → Finish
finish_mount device (node name type old depth children) =
    if not (type == 0) && not (type == type_directory)
    then none
    else some (node name type_directory device depth children)

-- -1, or 0 with the tree that the mount leaves
pub data Mounted : Type 0 where
  refused : Mounted
  mounted : Node → Mounted

abbrev pub mount_result : Option Node → Mounted
mount_result none = refused
mount_result (some root) = mounted root

-- `__vfs_mount` on a path that is sanitized
unfoldable pub vfs_mount : (path : List ℕ) → (device : ℕ) → Node → Option Mounted
unfolding find_mount path_parts insert_nodes finish_mount
vfs_mount path device root = elim (find_mount (suc (length path)) path root) [
  | none ↦ none
  | some f ↦
      Option.map
        (λ ps.
          mount_result (insert_nodes (finish_mount device) (depth_of f.last_device_node) 0 ps root))
        (path_parts (suc (length path)) path)
]

-- What `__vfs_add_vfs_node` does with the last node; `vfs_device` is the address of that device.
unfoldable pub finish_add : (vfs_device type : ℕ) → Finish
finish_add vfs_device type (node name old_type old depth children) =
    some (node name type vfs_device depth children)

unfoldable pub ends_in_slash : List ℕ → Bool
ends_in_slash [] = false
ends_in_slash (c ∷ []) = c == slash
ends_in_slash (c ∷ d ∷ cs) = ends_in_slash (d ∷ cs)

-- `lookup.sanitized_path_len--;`
unfoldable pub without_last : List ℕ → List ℕ
without_last [] = []
without_last (c ∷ []) = []
without_last (c ∷ d ∷ cs) = c ∷ without_last (d ∷ cs)

unfoldable pub count_slashes : List ℕ → ℕ
count_slashes [] = 0
count_slashes (c ∷ cs) = (if c == slash then 1 else 0) + count_slashes cs

-- The depth of the node for an absolute path: the loop starts behind the first byte.
unfoldable pub path_depth : List ℕ → ℕ
unfolding count_slashes
path_depth [] = 1
path_depth (c ∷ cs) = 1 + count_slashes cs

-- NULL, the node that was there, or the tree with the new node
pub data Added : Type 0 where
  not_added : Added
  was_there : Node → Added
  added : Node → Added

abbrev pub add_result : Option Node → Added
add_result none = not_added
add_result (some root) = added root

unfoldable pub add_below : (vfs_device type : ℕ) (path : List ℕ) → Found → Node → Option Added
unfolding path_depth path_parts insert_nodes finish_add
add_below vfs_device type path f root =
    if path_depth path == depth_of f.last_search_node
    then some
        (if type_of f.last_search_node == type then was_there f.last_search_node else not_added)
    else Option.map
        (λ ps.
          add_result
            (insert_nodes (finish_add vfs_device type) (depth_of f.last_device_node) 0 ps root))
        (path_parts (suc (length path)) path)

-- `__vfs_add_vfs_node` on a path that is sanitized
unfoldable pub vfs_add_vfs_node : (vfs_device : ℕ) (path : List ℕ) (type : ℕ) → Node → Option Added
unfolding find_mount ends_in_slash without_last add_below
vfs_add_vfs_node vfs_device path type root = elim (find_mount (suc (length path)) path root) [
  | none ↦ none
  | some f ↦
      if ends_in_slash path && not (type == type_directory)
      then some not_added
      else add_below vfs_device type (if ends_in_slash path then without_last path else path) f root
]

-- The loop of `__vfs_get_root_path`: behind the first `depth` parts.
unfoldable pub behind_parts : (depth : ℕ) → List ℕ → List ℕ
unfolding skip_slash behind_part
behind_parts zero path = path
behind_parts (suc depth) path = behind_parts depth (behind_part (skip_slash path))

-- `__vfs_get_root_path`: the path on the device of the node; its root, if nothing is left.
unfoldable pub get_root_path : Node → (path : List ℕ) → List ℕ
unfolding behind_parts
get_root_path n path =
    let rest = behind_parts (depth_of n) path in
    if ltb 0 (depth_of n) && (length rest == 0) then slash ∷ [] else rest

-- vfs_init's root: "/" is its name.
unfoldable pub init_root : (device : ℕ) → Node
init_root device = node (slash ∷ []) type_directory device 0 end
