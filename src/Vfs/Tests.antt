-- ===== src/Vfs/Tests.antt =====
-- Runs of the virtual file system on a small tree, and its theorems at them.
use mathlib.Core.Path.{subst}
use balrog_os.Prelude.{some-inj, ℕ, suc, ◌≡◌, refl, some, List, [], ◌∷◌, ◌++◌, All, arith, length}
use balrog_os.Vfs.Path.{slash, vfs_sanitize_path}
use balrog_os.Vfs.Walk.{IsPart, join, IsTree, find_mount-walk, walk}
use balrog_os.Vfs.Sanitize.{words, trail, vfs_sanitize_path-words}
use balrog_os.Vfs.Insert.{Passes}
use balrog_os.Vfs.Mount.{vfs_mount-find_mount}
use balrog_os.Vfs.Add.{vfs_add_vfs_node-find_mount}
use balrog_os.Vfs.{
  Node, node, end, child, type_directory, device_of, type_of, depth_of, find_child, Found, at_root,
  find_mount, mounted, vfs_mount, added, vfs_add_vfs_node, get_root_path,
}

-- "/dev//ttyS0/"
double_slash :
    vfs_sanitize_path (b'/' ∷ b'd' ∷ b'/' ∷ b'/' ∷ b't' ∷ b'/' ∷ [])
    ≡ some (b'/' ∷ b'd' ∷ b'/' ∷ b't' ∷ b'/' ∷ [])
unfolding vfs_sanitize_path
double_slash = refl

vfs_sanitize_path-words_example :
    (vfs_sanitize_path (slash ∷ slash ∷ b'd' ∷ [])
      ≡ some (join (words (slash ∷ slash ∷ b'd' ∷ [])) ++ trail (slash ∷ slash ∷ b'd' ∷ [])))
    × All IsPart (words (slash ∷ slash ∷ b'd' ∷ []))
vfs_sanitize_path-words_example = vfs_sanitize_path-words (slash ∷ b'd' ∷ [])

-- "/m" with device 9 below the root with device 7
abbrev one_mount : Node
one_mount =
    node (slash ∷ []) type_directory 7 0 (child (node (b'm' ∷ []) type_directory 9 1 end) end)

abbrev mount_parts : List (List ℕ)
mount_parts = (b'm' ∷ []) ∷ (b'd' ∷ b'a' ∷ []) ∷ []

mount_parts-IsPart : All IsPart mount_parts
mount_parts-IsPart = (
  ((λ e. ground arith), ((λ e. ground arith), tt)),
  (((λ e. ground arith), ((λ e. ground arith), ((λ e. ground arith), tt))), tt),
)

one_mount-IsTree : IsTree 0 one_mount
one_mount-IsTree = (refl, ((λ e. ground arith), (refl, tt), tt))

one_mount-Passes : Passes mount_parts one_mount
unfolding find_child
one_mount-Passes c e =
    subst (λ c. (type_of c ≡ type_directory) × Passes ((b'd' ∷ b'a' ∷ []) ∷ []) c) (some-inj e)
      (refl, λ c' e'. absurd (ground arith))

find_mount-walk_example :
    find_mount 3 (join mount_parts) one_mount ≡ some (walk mount_parts (at_root one_mount))
find_mount-walk_example =
    find_mount-walk mount_parts 3 one_mount (omega arith) mount_parts-IsPart one_mount-IsTree

below_mount :
    find_mount 3 (join mount_parts) one_mount
    ≡ some (record {
      last_search_node = node (b'm' ∷ []) type_directory 9 1 end;
      last_device_node = node (b'm' ∷ []) type_directory 9 1 end;
    })
unfolding find_mount
below_mount = refl

vfs_mount-find_mount_example :
    (root' : Node) × (f : Found) × (vfs_mount (join mount_parts) 5 one_mount ≡ some (mounted root'))
    × IsTree 0 root'
    × (find_mount (suc (length (join mount_parts))) (join mount_parts) root' ≡ some f)
    × (device_of f.last_device_node ≡ 5)
    × (depth_of f.last_device_node ≡ length mount_parts)
    × (get_root_path f.last_device_node (join mount_parts) ≡ slash ∷ [])
vfs_mount-find_mount_example =
    vfs_mount-find_mount mount_parts 5 one_mount (λ e. ground arith) mount_parts-IsPart
      (omega arith) one_mount-IsTree refl one_mount-Passes

vfs_add_vfs_node-find_mount_example :
    (root' : Node) × (f : Found) × (vfs_add_vfs_node 3 (join mount_parts) 6 one_mount
      ≡ some (added root'))
    × IsTree 0 root'
    × (find_mount (suc (length (join mount_parts))) (join mount_parts) root' ≡ some f)
    × (device_of f.last_device_node ≡ 3)
    × (depth_of f.last_device_node ≡ length mount_parts)
vfs_add_vfs_node-find_mount_example =
    vfs_add_vfs_node-find_mount mount_parts 3 6 one_mount (λ e. ground arith) mount_parts-IsPart
      (omega arith) one_mount-IsTree refl one_mount-Passes (unfold walk find_child in omega arith)
