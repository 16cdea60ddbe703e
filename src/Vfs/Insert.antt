-- ===== src/Vfs/Insert.antt =====
-- Where insertion into the tree puts the new node, and that a search goes there.
use mathlib.Core.Path.{subst}
use mathlib.Core.Option
use balrog_os.Prelude.{
  some-inj, none-some, ℕ, suc, ◌+◌, ◌-◌, ◌≡◌, refl, ◌≢◌, ◌∙◌, sym, inl, inr, true, false, ◌&&◌, not,
  none, some, Option, Option-cases, Bool-cases, List, [], ◌∷◌, All, arith, length, ◌==◌,
}
use balrog_os.Vfs.{
  Node, node, Nodes, end, child, type_directory, name_of, type_of, device_of, depth_of, children_of,
  same_name, find_child, replace_child, add_child, with_children, Finish, create_nodes,
  insert_nodes, Found,
}
use balrog_os.Vfs.Walk.{
  IsTree, AreTrees, IsTree-children, IsTree-depth, find_child-IsTree, down, walk,
}
use balrog_os.Vfs.Finish.{
  Sets, same_name_refl, find_child-replace, find_child-add, replace_child-AreTrees,
  add_child-AreTrees,
}

-- Below the node the parts lead to a node with the device, one level for each part.
abbrev pub Reaches : (device depth : ℕ) → List (List ℕ) → Node → Type 0
Reaches device depth ps n =
    (f : Found)
    → (device_of ((walk ps (down n f)).last_device_node) ≡ device)
      × (depth_of ((walk ps (down n f)).last_device_node) ≡ depth + length ps)

Reaches-nil :
    (device d : ℕ) (n : Node)
    → device ≢ 0
    → device_of n ≡ device
    → IsTree d n
    → Reaches device d [] n
unfolding walk
Reaches-nil device d n real set tree f =
    let depth = IsTree-depth d n tree in
    elim (Bool-cases (device_of n == 0)) [
      | inl none_set ↦ absurd (ground arith)
      | inr other ↦ rw other (set, omega arith)
    ]

Reaches-child :
    (device d : ℕ) (p : List ℕ) (ps : List (List ℕ)) (n c : Node)
    → find_child p (children_of n) ≡ some c
    → Reaches device (suc d) ps c
    → Reaches device d (p ∷ ps) n
unfolding walk
Reaches-child device d p ps n c here below f =
    let (set, depth) = below (down n f) in rw (here, walk) (set, omega arith)

-- What the nodes on the way to the new device keep.
pub record Lands (device d : ℕ) (name : List ℕ) (ps : List (List ℕ)) (n : Node) : Type 0 where
  pub named : name_of n ≡ name
  pub tree : IsTree d n
  pub reaches : Reaches device d ps n

some-map :
    {A : Type 0} (g : A → A) (o : Option A) (b : A)
    → Option.map g o ≡ some b
    → (a : A) × (o ≡ some a) × (g a ≡ b)
some-map g none b e = absurd (ground arith)
some-map g (some a) b e = (a, refl, cc)

finish-Lands :
    (device : ℕ) (finish : Finish) (d : ℕ) (n n' : Node)
    → Sets device finish
    → device ≢ 0
    → IsTree d n
    → finish n ≡ some n'
    → Lands device d (name_of n) [] n'
finish-Lands device finish d n n' sets real tree e =
    let tree' = sets.tree_kept d n n' e tree in
    record {
      named = sets.name_kept n n' e;
      tree = tree';
      reaches = Reaches-nil device d n' real (sets.device_set n n' e) tree';
    }

-- A node whose child leads on.
child-Lands :
    (device d : ℕ) (name p : List ℕ) (ps : List (List ℕ)) (n c : Node) (ns : Nodes)
    → Lands device (suc d) name ps c
    → depth_of n ≡ d
    → AreTrees (suc d) ns
    → find_child p ns ≡ some c
    → Lands device d (name_of n) (p ∷ ps) (with_children n ns)
child-Lands device d own p ps (node name type old depth children) c ns below at_depth trees here =
    record {
      named = refl;
      tree = (at_depth, trees);
      reaches = Reaches-child device d p ps (node name type old depth ns) c here below.reaches;
    }

create_nodes-Lands :
    (device : ℕ) (finish : Finish) (d : ℕ) (p : List ℕ) (ps : List (List ℕ)) (n' : Node)
    → Sets device finish
    → device ≢ 0
    → All (λ q. q ≢ []) (p ∷ ps)
    → create_nodes finish d p ps ≡ some n'
    → Lands device d p ps n'
unfolding create_nodes find_child
create_nodes-Lands device finish d p [] n' sets real h e =
    finish-Lands device finish d (node p 0 0 d end) n' sets real (refl, tt) e
create_nodes-Lands device finish d p (q ∷ qs) n' sets real h e =
    let (c, made, same) =
      some-map (λ n. node p type_directory 0 d (child n end)) (create_nodes finish (suc d) q qs) n'
        e in
    let below = create_nodes-Lands device finish (suc d) q qs c sets real (h.1) made in
    let found : find_child q (child c end) ≡ some c = rw (below.named, same_name_refl q) refl in
    let some_name : name_of c ≢ [] = λ none. h.1.0 (sym below.named ∙ none) in
    subst (Lands device d p (q ∷ qs)) same (
      child-Lands device d q q qs (node p type_directory 0 d end) c (child c end) below refl
        (some_name, below.tree, tt) found)

find_child-name :
    (p : List ℕ) (ns : Nodes) (n : Node) → find_child p ns ≡ some n → same_name (name_of n) p ≡ true
unfolding find_child
find_child-name p end n e = absurd (ground arith)
find_child-name p (child c ns) n e = elim (Bool-cases (same_name (name_of c) p)) [
  | inl here ↦ subst (λ x. same_name (name_of x) p ≡ true) (some-inj (rw here at e)) here
  | inr other ↦ find_child-name p ns n (rw other at e)
]

pub insert_nodes-Lands :
    (device : ℕ) (finish : Finish) (skip d : ℕ) (ps : List (List ℕ)) (n n' : Node)
    → Sets device finish
    → device ≢ 0
    → All (λ q. q ≢ []) ps
    → IsTree d n
    → insert_nodes finish skip d ps n ≡ some n'
    → Lands device d (name_of n) ps n'
unfolding insert_nodes
insert_nodes-Lands device finish skip d [] n n' sets real h tree e =
    finish-Lands device finish d n n' sets real tree e
insert_nodes-Lands device finish skip d (p ∷ ps) n n' sets real h tree e =
    let ns = children_of n in
    let trees = IsTree-children d n tree in
    let at_depth = IsTree-depth d n tree in
    elim (Option-cases (find_child p ns)) [
      | inl missing ↦
          let (c, made, same) =
            some-map (λ c. with_children n (add_child c ns)) (create_nodes finish (suc d) p ps) n'
              (rw (missing, insert_nodes) at e) in
          let below = create_nodes-Lands device finish (suc d) p ps c sets real h made in
          let some_name : name_of c ≢ [] = λ none. h.0 (sym below.named ∙ none) in
          let here : same_name (name_of c) p ≡ true = rw below.named (same_name_refl p) in
          subst (Lands device d (name_of n) (p ∷ ps)) same (
            child-Lands device d p p ps n c (add_child c ns) below at_depth
              (add_child-AreTrees (suc d) c ns trees some_name below.tree)
              (find_child-add p c ns missing here))
      | inr (old, there) ↦ elim (Bool-cases ((skip == 0) && not (type_of old == type_directory))) [
        | inl not_directory ↦ absurd (none-some (rw (there, not_directory, insert_nodes) at e))
        | inr passes ↦
            let (c, made, same) =
              some-map (λ c. with_children n (replace_child p c ns))
                (insert_nodes finish (skip - 1) (suc d) ps old) n'
                (rw (there, passes, insert_nodes) at e) in
            let (some_name, old_tree) = find_child-IsTree (suc d) p ns old trees there in
            let below =
              insert_nodes-Lands device finish (skip - 1) (suc d) ps old c sets real (h.1) old_tree
                made in
            let here : same_name (name_of c) p ≡ true =
              rw below.named (find_child-name p ns old there) in
            let c_name : name_of c ≢ [] = λ none. some_name (sym below.named ∙ none) in
            subst (Lands device d (name_of n) (p ∷ ps)) same (
              child-Lands device d (name_of old) p ps n c (replace_child p c ns) below at_depth
                (replace_child-AreTrees (suc d) p c ns trees c_name below.tree)
                (find_child-replace p old c ns there here))
      ]
    ]

-- The nodes that the tree has along the path, below the one it starts from, are directories.
abbrev pub Passes : List (List ℕ) → Node → Type 0
Passes [] n = Unit
Passes (p ∷ ps) n =
    (c : Node) → find_child p (children_of n) ≡ some c → (type_of c ≡ type_directory) × Passes ps c

map-some :
    {A : Type 0} (g : A → A) (o : Option A)
    → (a : A) × (o ≡ some a)
    → (b : A) × (Option.map g o ≡ some b)
map-some g o (a, e) = (g a, rw e refl)

create_nodes-total :
    (device : ℕ) (finish : Finish) (d : ℕ) (p : List ℕ) (ps : List (List ℕ))
    → Sets device finish
    → (n' : Node) × (create_nodes finish d p ps ≡ some n')
unfolding create_nodes
create_nodes-total device finish d p [] sets = sets.accepts (node p 0 0 d end) (inl refl)
create_nodes-total device finish d p (q ∷ qs) sets =
    map-some (λ n. node p type_directory 0 d (child n end)) (create_nodes finish (suc d) q qs)
      (create_nodes-total device finish (suc d) q qs sets)

pub insert_nodes-total :
    (device : ℕ) (finish : Finish) (skip d : ℕ) (ps : List (List ℕ)) (n : Node)
    → Sets device finish
    → type_of n ≡ type_directory
    → Passes ps n
    → (n' : Node) × (insert_nodes finish skip d ps n ≡ some n')
unfolding insert_nodes
insert_nodes-total device finish skip d [] n sets directory passes = sets.accepts n (inr directory)
insert_nodes-total device finish skip d (p ∷ ps) n sets directory passes =
    elim (Option-cases (find_child p (children_of n))) [
      | inl missing ↦
          let (n', e) =
            map-some (λ c. with_children n (add_child c (children_of n)))
              (create_nodes finish (suc d) p ps)
              (create_nodes-total device finish (suc d) p ps sets) in
          (n', rw (missing, insert_nodes) e)
      | inr (c, there) ↦
          let (c_directory, below) = passes c there in
          let (n', e) =
            map-some (λ c. with_children n (replace_child p c (children_of n)))
              (insert_nodes finish (skip - 1) (suc d) ps c)
              (insert_nodes-total device finish (skip - 1) (suc d) ps c sets c_directory below) in
          let accepted : ((skip == 0) && not (type_of c == type_directory)) ≡ false =
            ground arith in
          (n', rw (there, accepted, insert_nodes) e)
    ]
