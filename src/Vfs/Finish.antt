-- ===== src/Vfs/Finish.antt =====
-- The children of a node that are replaced and added, and the last step of an insertion.
use mathlib.Core.Path.{subst}
use balrog_os.Prelude.{
  some-inj, ap, ℕ, ◌≡◌, refl, ◌≢◌, sym, ◌⊎◌, inl, inr, true, ◌&&◌, not, none, some, Bool-cases,
  List, [], ◌∷◌, arith, ◌==◌, ==_refl,
}
use balrog_os.Vfs.{
  Node, node, Nodes, end, child, type_directory, name_of, type_of, device_of, same_name, find_child,
  replace_child, add_child, Finish, finish_mount, finish_add,
}
use balrog_os.Vfs.Walk.{IsTree, AreTrees}

pub same_name_refl : (p : List ℕ) → same_name p p ≡ true
unfolding same_name
same_name_refl [] = refl
same_name_refl (x ∷ xs) = ground (arith, ==_refl x, same_name_refl xs)

same_name-eq : (p q : List ℕ) → same_name p q ≡ true → p ≡ q
unfolding same_name
same_name-eq [] [] h = refl
same_name-eq [] (y ∷ ys) h = absurd (ground arith)
same_name-eq (x ∷ xs) [] h = absurd (ground arith)
same_name-eq (x ∷ xs) (y ∷ ys) h = ground (arith, same_name-eq xs ys)

pub find_child-replace :
    (p : List ℕ) (c c' : Node) (ns : Nodes)
    → find_child p ns ≡ some c
    → same_name (name_of c') p ≡ true
    → find_child p (replace_child p c' ns) ≡ some c'
unfolding find_child replace_child
find_child-replace p c c' end h same = absurd (ground arith)
find_child-replace p c c' (child n ns) h same = ground (arith, find_child-replace p c c' ns)

pub find_child-add :
    (p : List ℕ) (c' : Node) (ns : Nodes)
    → find_child p ns ≡ none
    → same_name (name_of c') p ≡ true
    → find_child p (add_child c' ns) ≡ some c'
unfolding find_child add_child
find_child-add p c' end h same = ground arith
find_child-add p c' (child n ns) h same = ground (arith, find_child-add p c' ns)

pub replace_child-AreTrees :
    (d : ℕ) (p : List ℕ) (c' : Node) (ns : Nodes)
    → AreTrees d ns
    → name_of c' ≢ []
    → IsTree d c'
    → AreTrees d (replace_child p c' ns)
unfolding replace_child
replace_child-AreTrees d p c' end h named tree = tt
replace_child-AreTrees d p c' (child n ns) h named tree =
    elim (Bool-cases (same_name (name_of n) p)) [
      | inl here ↦ rw here (named, tree, h.2)
      | inr other ↦ rw other (h.0, h.1, replace_child-AreTrees d p c' ns (h.2) named tree)
    ]

pub add_child-AreTrees :
    (d : ℕ) (c' : Node) (ns : Nodes)
    → AreTrees d ns
    → name_of c' ≢ []
    → IsTree d c'
    → AreTrees d (add_child c' ns)
unfolding add_child
add_child-AreTrees d c' end h named tree = (named, tree, tt)
add_child-AreTrees d c' (child n ns) h named tree =
    (h.0, h.1, add_child-AreTrees d c' ns (h.2) named tree)

-- The caller's last step sets the device, keeps the name and the place in the tree, and accepts a new
-- node and a directory.
pub record Sets (device : ℕ) (finish : Finish) : Type 0 where
  pub device_set : (n n' : Node) → finish n ≡ some n' → device_of n' ≡ device
  pub name_kept : (n n' : Node) → finish n ≡ some n' → name_of n' ≡ name_of n
  pub accepts :
      (n : Node)
      → (type_of n ≡ 0) ⊎ (type_of n ≡ type_directory)
      → (n' : Node) × (finish n ≡ some n')
  pub tree_kept : (d : ℕ) (n n' : Node) → finish n ≡ some n' → IsTree d n → IsTree d n'

finish_mount-device :
    (device : ℕ) (n n' : Node) → finish_mount device n ≡ some n' → device_of n' ≡ device
unfolding finish_mount
finish_mount-device device (node name type old depth children)
      (node name' type' old' depth' children') e =
    ground arith

finish_mount-name :
    (device : ℕ) (n n' : Node) → finish_mount device n ≡ some n' → name_of n' ≡ name_of n
unfolding finish_mount
finish_mount-name device (node name type old depth children)
      (node name' type' old' depth' children') e =
    ground arith

finish_mount-IsTree :
    (device d : ℕ) (n n' : Node) → finish_mount device n ≡ some n' → IsTree d n → IsTree d n'
unfolding finish_mount
finish_mount-IsTree device d (node name type old depth children) n' e tree =
    elim (Bool-cases (not (type == 0) && not (type == type_directory))) [
      | inl busy ↦ absurd (ground arith)
      | inr free ↦
          let same : node name type_directory device depth children ≡ n' =
            some-inj (rw free at e) in
          subst (IsTree d) same tree
    ]

finish_mount-directory :
    (device : ℕ) (n : Node)
    → (type_of n ≡ 0) ⊎ (type_of n ≡ type_directory)
    → (n' : Node) × (finish_mount device n ≡ some n')
unfolding finish_mount
finish_mount-directory device (node name type old depth children) (inl new) =
    (node name type_directory device depth children, ground arith)
finish_mount-directory device (node name type old depth children) (inr directory) =
    (node name type_directory device depth children, ground arith)

finish_add-device :
    (vfs_device type : ℕ) (n n' : Node)
    → finish_add vfs_device type n ≡ some n'
    → device_of n' ≡ vfs_device
unfolding finish_add
finish_add-device vfs_device type (node name old_type old depth children) n' e =
    sym (ap device_of (some-inj e))

finish_add-name :
    (vfs_device type : ℕ) (n n' : Node)
    → finish_add vfs_device type n ≡ some n'
    → name_of n' ≡ name_of n
unfolding finish_add
finish_add-name vfs_device type (node name old_type old depth children) n' e =
    sym (ap name_of (some-inj e))

finish_add-IsTree :
    (vfs_device type d : ℕ) (n n' : Node)
    → finish_add vfs_device type n ≡ some n'
    → IsTree d n
    → IsTree d n'
unfolding finish_add
finish_add-IsTree vfs_device type d (node name old_type old depth children) n' e tree =
    subst (IsTree d) (some-inj e) tree

finish_add-accepts :
    (vfs_device type : ℕ) (n : Node)
    → (type_of n ≡ 0) ⊎ (type_of n ≡ type_directory)
    → (n' : Node) × (finish_add vfs_device type n ≡ some n')
unfolding finish_add
finish_add-accepts vfs_device type (node name old_type old depth children) open_node =
    (node name type vfs_device depth children, refl)

pub finish_add-Sets : (vfs_device type : ℕ) → Sets vfs_device (finish_add vfs_device type)
finish_add-Sets vfs_device type = record {
  device_set = finish_add-device vfs_device type;
  accepts = finish_add-accepts vfs_device type;
  name_kept = finish_add-name vfs_device type;
  tree_kept = finish_add-IsTree vfs_device type;
}

pub finish_mount-Sets : (device : ℕ) → Sets device (finish_mount device)
finish_mount-Sets device = record {
  device_set = finish_mount-device device;
  accepts = finish_mount-directory device;
  name_kept = finish_mount-name device;
  tree_kept = finish_mount-IsTree device;
}
