-- ===== src/Vfs/Add.antt =====
-- A node that `__vfs_add_vfs_node` adds is found again.
use balrog_os.Prelude.{
  All-imp, ℕ, suc, ◌<◌, ◌≡◌, refl, ◌≢◌, ◌⊎◌, inl, inr, false, some, List, [], ◌∷◌, ◌++◌, All, arith,
  length, ◌==◌,
}
use balrog_os.Vfs.Path.{slash}
use balrog_os.Vfs.{
  Node, type_directory, type_of, device_of, depth_of, insert_nodes, Found, at_root, find_mount,
  finish_add, ends_in_slash, count_slashes, path_depth, added, add_below, vfs_add_vfs_node,
}
use balrog_os.Vfs.Mount.{Reaches-root, length-join, path_parts-join}
use balrog_os.Vfs.Finish.{finish_add-Sets}
use balrog_os.Vfs.Insert.{insert_nodes-Lands, Passes, insert_nodes-total}
use balrog_os.Vfs.Walk.{IsPart, join, IsTree, walk, find_mount-walk}

count_slashes-part :
    (p rest : List ℕ) → All (λ c. c ≢ slash) p → count_slashes (p ++ rest) ≡ count_slashes rest
unfolding count_slashes
count_slashes-part [] rest h = refl
count_slashes-part (c ∷ p) rest h = ground (arith, count_slashes-part p rest (h.1))

count_slashes-join : (ps : List (List ℕ)) → All IsPart ps → count_slashes (join ps) ≡ length ps
unfolding count_slashes
count_slashes-join [] h = refl
count_slashes-join (p ∷ ps) h =
    omega (arith, count_slashes-join ps (h.1), count_slashes-part p (join ps) (h.0.1))

path_depth-join : (ps : List (List ℕ)) → ps ≢ [] → All IsPart ps → path_depth (join ps) ≡ length ps
unfolding path_depth
path_depth-join [] some_part h = absurd (some_part refl)
path_depth-join (p ∷ ps) some_part h =
    omega (arith, count_slashes-join ps (h.1), count_slashes-part p (join ps) (h.0.1))

ends_in_slash-part :
    (c : ℕ) (p rest : List ℕ)
    → All (λ d. d ≢ slash) (c ∷ p)
    → (rest ≡ []) ⊎ (ends_in_slash rest ≡ false)
    → ends_in_slash ((c ∷ p) ++ rest) ≡ false
unfolding ends_in_slash
ends_in_slash-part c [] [] h e = ground arith
ends_in_slash-part c [] (d ∷ rest) h (inl none_left) = absurd (ground arith)
ends_in_slash-part c [] (d ∷ rest) h (inr e) = e
ends_in_slash-part c (d ∷ p) rest h e = ends_in_slash-part d p rest (h.1) e

ends_in_slash-join :
    (ps : List (List ℕ)) → All IsPart ps → (join ps ≡ []) ⊎ (ends_in_slash (join ps) ≡ false)
unfolding ends_in_slash
ends_in_slash-join [] h = inl refl
ends_in_slash-join ([] ∷ ps) h = absurd (h.0.0 refl)
ends_in_slash-join ((c ∷ p) ∷ ps) h =
    inr (ends_in_slash-part c p (join ps) (h.0.1) (ends_in_slash-join ps (h.1)))

vfs_add_vfs_node-insert_nodes :
    (ps : List (List ℕ)) (vfs_device type : ℕ) (root root' : Node)
    → ps ≢ []
    → All IsPart ps
    → IsTree 0 root
    → depth_of ((walk ps (at_root root)).last_search_node) ≢ length ps
    → insert_nodes
        (finish_add vfs_device type)
        (depth_of ((walk ps (at_root root)).last_device_node))
        0
        ps
        root
      ≡ some root'
    → vfs_add_vfs_node vfs_device (join ps) type root ≡ some (added root')
unfolding vfs_add_vfs_node add_below
vfs_add_vfs_node-insert_nodes [] vfs_device type root root' some_part h tree deeper made =
    absurd (some_part refl)
vfs_add_vfs_node-insert_nodes (p ∷ ps) vfs_device type root root' some_part h tree deeper made =
    let path = join (p ∷ ps) in
    let enough : length (p ∷ ps) < suc (length path) = omega (arith, length-join (p ∷ ps)) in
    let found = find_mount-walk (p ∷ ps) (suc (length path)) root enough h tree in
    let parts = path_parts-join (p ∷ ps) (suc (length path)) enough h in
    let depth = path_depth-join (p ∷ ps) some_part h in
    let new : (length (p ∷ ps) == depth_of ((walk (p ∷ ps) (at_root root)).last_search_node))
        ≡ false =
      ground arith in
    elim (ends_in_slash-join (p ∷ ps) h) [
      | inl no_path ↦ absurd (ground arith)
      | inr no_slash ↦
          rw (found, no_slash, depth, new, parts, made, vfs_add_vfs_node, add_below) refl
    ]

-- Adding a node at a path of parts, each behind one slash, that the tree does not have to its end,
-- succeeds if the root and the nodes that the tree has along the path are directories. It leaves a
-- tree in which each depth is the distance from the root, and a search for the path then returns a
-- node with the device of the virtual file system, at the depth that is the path's number of parts.
pub vfs_add_vfs_node-find_mount :
    (ps : List (List ℕ)) (vfs_device type : ℕ) (root : Node)
    → ps ≢ []
    → All IsPart ps
    → vfs_device ≢ 0
    → IsTree 0 root
    → type_of root ≡ type_directory
    → Passes ps root
    → depth_of ((walk ps (at_root root)).last_search_node) ≢ length ps
    → (root' : Node) × (f : Found) × (vfs_add_vfs_node vfs_device (join ps) type root
        ≡ some (added root'))
      × IsTree 0 root'
      × (find_mount (suc (length (join ps))) (join ps) root' ≡ some f)
      × (device_of f.last_device_node ≡ vfs_device)
      × (depth_of f.last_device_node ≡ length ps)
vfs_add_vfs_node-find_mount ps vfs_device type root some_part h real tree directory passes new =
    let skip = depth_of ((walk ps (at_root root)).last_device_node) in
    let sets = finish_add-Sets vfs_device type in
    let finish = finish_add vfs_device type in
    let (root', made) = insert_nodes-total vfs_device finish skip 0 ps root sets directory passes in
    let lands =
      insert_nodes-Lands vfs_device finish skip 0 ps root root' sets real
        (All-imp IsPart (λ q. q ≢ []) ps (λ p part. part.0) h) tree made in
    let enough : length ps < suc (length (join ps)) = omega (arith, length-join ps) in
    let (set, depth) = Reaches-root vfs_device ps root' lands.reaches in
    (
      root',
      walk ps (at_root root'),
      vfs_add_vfs_node-insert_nodes ps vfs_device type root root' some_part h tree new made,
      lands.tree,
      find_mount-walk ps (suc (length (join ps))) root' enough h lands.tree,
      set,
      depth,
    )
