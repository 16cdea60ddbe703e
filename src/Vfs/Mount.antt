-- ===== src/Vfs/Mount.antt =====
-- A mount is found again.
use mathlib.Core.Option
use balrog_os.Prelude.{
  All-imp, ap, ℕ, zero, suc, ◌≤◌, ◌<◌, ◌≡◌, refl, ◌≢◌, ◌∙◌, inl, inr, length-append, ltb, true,
  some, Bool-cases, List, [], ◌∷◌, ◌++◌, All, arith, length, ◌==◌,
}
use balrog_os.Vfs.Path.{slash, part_of, behind_part, skip_slash}
use balrog_os.Vfs.{
  Node, type_directory, type_of, device_of, depth_of, insert_nodes, finish_mount, Found, at_root,
  find_mount, path_parts, mounted, vfs_mount, behind_parts, get_root_path,
}
use balrog_os.Vfs.Finish.{finish_mount-Sets}
use balrog_os.Vfs.Insert.{Reaches, insert_nodes-Lands, Passes, insert_nodes-total}
use balrog_os.Vfs.Walk.{IsPart, join, IsTree, part_of-join, walk, find_mount-walk}

path_parts-step :
    (fuel c b : ℕ) (cs bs rest : List ℕ)
    → part_of (skip_slash (c ∷ cs)) ≡ b ∷ bs
    → behind_part (skip_slash (c ∷ cs)) ≡ rest
    → path_parts (suc fuel) (c ∷ cs) ≡ Option.map (λ ps. (b ∷ bs) ∷ ps) (path_parts fuel rest)
unfolding path_parts
path_parts-step fuel c b cs bs rest front back = rw (front, back, path_parts) refl

pub path_parts-join :
    (ps : List (List ℕ)) (fuel : ℕ)
    → length ps < fuel
    → All IsPart ps
    → path_parts fuel (join ps) ≡ some ps
unfolding path_parts skip_slash
path_parts-join ps zero enough h = absurd (omega arith)
path_parts-join [] (suc fuel) enough h = refl
path_parts-join ([] ∷ ps) (suc fuel) enough h = absurd (h.0.0 refl)
path_parts-join ((c ∷ p) ∷ ps) (suc fuel) enough h =
    let (front, back) = part_of-join (c ∷ p) ps (h.0.1) in
    path_parts-step fuel slash c ((c ∷ p) ++ join ps) p (join ps) front back
    ∙ ap (Option.map (λ qs. (c ∷ p) ∷ qs)) (path_parts-join ps fuel (omega arith) (h.1))

pub length-join : (ps : List (List ℕ)) → length ps ≤ length (join ps)
length-join [] = omega arith
length-join (p ∷ ps) = omega (arith, length-join ps, length-append p (join ps))

vfs_mount-insert_nodes :
    (ps : List (List ℕ)) (device : ℕ) (root root' : Node)
    → All IsPart ps
    → IsTree 0 root
    → insert_nodes
        (finish_mount device)
        (depth_of ((walk ps (at_root root)).last_device_node))
        0
        ps
        root
      ≡ some root'
    → vfs_mount (join ps) device root ≡ some (mounted root')
unfolding vfs_mount
vfs_mount-insert_nodes ps device root root' h tree made =
    let enough : length ps < suc (length (join ps)) = omega (arith, length-join ps) in
    let found = find_mount-walk ps (suc (length (join ps))) root enough h tree in
    let parts = path_parts-join ps (suc (length (join ps))) enough h in
    rw (found, parts, made, vfs_mount) refl

pub Reaches-root :
    (device : ℕ) (ps : List (List ℕ)) (root : Node)
    → Reaches device 0 ps root
    → (device_of ((walk ps (at_root root)).last_device_node) ≡ device)
      × (depth_of ((walk ps (at_root root)).last_device_node) ≡ length ps)
unfolding walk
Reaches-root device ps root reaches =
    let (set, depth) = reaches (at_root root) in
    elim (Bool-cases (device_of root == 0)) [
      | inl unset ↦ (rw unset at set, omega (arith, (rw unset at depth)))
      | inr is_set ↦ (rw is_set at set, omega (arith, (rw is_set at depth)))
    ]

behind_parts-join : (ps : List (List ℕ)) → All IsPart ps → behind_parts (length ps) (join ps) ≡ []
unfolding behind_parts skip_slash
behind_parts-join [] h = refl
behind_parts-join (p ∷ ps) h =
    rw ((part_of-join p ps (h.0.1)).1, behind_parts) (behind_parts-join ps (h.1))

-- The device of a mount point gets the path of its own root.
pub get_root_path-join :
    (ps : List (List ℕ)) (n : Node)
    → ps ≢ []
    → All IsPart ps
    → depth_of n ≡ length ps
    → get_root_path n (join ps) ≡ slash ∷ []
unfolding get_root_path
get_root_path-join [] n some_part h depth = absurd (some_part refl)
get_root_path-join (p ∷ ps) n some_part h depth =
    let below : ltb 0 (suc (length ps)) ≡ true = ground arith in
    rw (depth, behind_parts-join (p ∷ ps) h, below, get_root_path) refl

-- A mount at a path of parts, each behind one slash, with a device that is not NULL, succeeds if the
-- root and the nodes that the tree has along the path are directories. It leaves a tree in which each depth is the
-- distance from the root, and a search for the path then returns a node with the device, at the depth
-- that is the path's number of parts; `__vfs_get_root_path` hands the device "/" for it.
pub vfs_mount-find_mount :
    (ps : List (List ℕ)) (device : ℕ) (root : Node)
    → ps ≢ []
    → All IsPart ps
    → device ≢ 0
    → IsTree 0 root
    → type_of root ≡ type_directory
    → Passes ps root
    → (root' : Node) × (f : Found) × (vfs_mount (join ps) device root ≡ some (mounted root'))
      × IsTree 0 root'
      × (find_mount (suc (length (join ps))) (join ps) root' ≡ some f)
      × (device_of f.last_device_node ≡ device)
      × (depth_of f.last_device_node ≡ length ps)
      × (get_root_path f.last_device_node (join ps) ≡ slash ∷ [])
vfs_mount-find_mount ps device root some_part h real tree directory passes =
    let skip = depth_of ((walk ps (at_root root)).last_device_node) in
    let sets = finish_mount-Sets device in
    let (root', made) =
      insert_nodes-total device (finish_mount device) skip 0 ps root sets directory passes in
    let lands =
      insert_nodes-Lands device (finish_mount device) skip 0 ps root root' sets real
        (All-imp IsPart (λ q. q ≢ []) ps (λ p part. part.0) h) tree made in
    let enough : length ps < suc (length (join ps)) = omega (arith, length-join ps) in
    let (set, depth) = Reaches-root device ps root' lands.reaches in
    (
      root',
      walk ps (at_root root'),
      vfs_mount-insert_nodes ps device root root' h tree made,
      lands.tree,
      find_mount-walk ps (suc (length (join ps))) root' enough h lands.tree,
      set,
      depth,
      get_root_path-join ps (walk ps (at_root root')).last_device_node some_part h depth,
    )
