-- ===== src/Vfs/Walk.antt =====
-- The search for a mount point goes down the tree, a part of the path at a time.
use mathlib.Core.Path.{subst}
use balrog_os.Prelude.{
  some-inj, ap, ℕ, zero, suc, ◌<◌, ◌≡◌, refl, ◌≢◌, ◌∙◌, sym, inl, inr, true, false, none, some,
  Option, Option-cases, Bool-cases, List, [], ◌∷◌, ◌++◌, All, arith, length, ◌==◌, if◌then◌else◌,
}
use balrog_os.Vfs.Path.{slash, part_of, behind_part, skip_slash}
use balrog_os.Vfs.{
  Node, node, Nodes, end, child, name_of, device_of, depth_of, children_of, is_leaf, same_name,
  find_child, Found, find_rounds, at_root, find_from, find_mount,
}

-- A part of a path: not empty, and without a slash.
abbrev pub IsPart : List ℕ → Type 0
IsPart p = (p ≢ []) × All (λ c. c ≢ slash) p

-- A slash and a part, over and over.
abbrev pub join : List (List ℕ) → List ℕ
join [] = []
join (p ∷ ps) = slash ∷ (p ++ join ps)

-- The depth of a node is its distance from the root, and no name is empty.
abbrev mutual
  pub IsTree : ℕ → Node → Type 0
  IsTree d (node name type device depth children) = (depth ≡ d) × AreTrees (suc d) children

  pub AreTrees : ℕ → Nodes → Type 0
  AreTrees d end = Unit
  AreTrees d (child n ns) = (name_of n ≢ []) × IsTree d n × AreTrees d ns

pub IsTree-children : (d : ℕ) (n : Node) → IsTree d n → AreTrees (suc d) (children_of n)
IsTree-children d (node name type device depth children) h = h.1

pub IsTree-depth : (d : ℕ) (n : Node) → IsTree d n → depth_of n ≡ d
IsTree-depth d (node name type device depth children) h = h.0

-- One step down.
abbrev pub down : Node → Found → Found
down n f = record {
  last_search_node = n;
  last_device_node = if device_of n == 0 then f.last_device_node else n;
}

-- As far down as the tree has the parts.
unfoldable pub walk : List (List ℕ) → Found → Found
walk [] f = f
walk (p ∷ ps) f = elim (find_child p (children_of f.last_search_node)) [
  | none ↦ f
  | some n ↦ walk ps (down n f)
]

pub part_of-join :
    (p : List ℕ) (ps : List (List ℕ))
    → All (λ c. c ≢ slash) p
    → (part_of (p ++ join ps) ≡ p) × (behind_part (p ++ join ps) ≡ join ps)
unfolding part_of behind_part
part_of-join [] [] h = (refl, refl)
part_of-join [] (q ∷ qs) h = (refl, refl)
part_of-join (c ∷ p) ps h =
    let other : (c == slash) ≡ false = ground arith in
    let (front, back) = part_of-join p ps (h.1) in (rw (other, front) refl, rw other back)

pub walk-leaf :
    (ps : List (List ℕ)) (f : Found)
    → is_leaf (children_of f.last_search_node) ≡ true
    → walk ps f ≡ f
unfolding walk find_child
walk-leaf [] f h = refl
walk-leaf (p ∷ ps) f h = ground arith

same_name-nil : (p : List ℕ) → p ≢ [] → same_name p [] ≡ false
unfolding same_name
same_name-nil [] h = absurd (h refl)
same_name-nil (c ∷ p) h = refl

find_child-nil : (d : ℕ) (ns : Nodes) → AreTrees d ns → find_child [] ns ≡ none
unfolding find_child
find_child-nil d end h = refl
find_child-nil d (child n ns) h = rw (same_name-nil (name_of n) (h.0)) (find_child-nil d ns (h.2))

-- A child that is found is a tree, one level down.
pub find_child-IsTree :
    (d : ℕ) (p : List ℕ) (ns : Nodes) (n : Node)
    → AreTrees d ns
    → find_child p ns ≡ some n
    → (name_of n ≢ []) × IsTree d n
unfolding find_child
find_child-IsTree d p end n h e = absurd (ground arith)
find_child-IsTree d p (child c ns) n h e = elim (Bool-cases (same_name (name_of c) p)) [
  | inl here ↦
      let same : c ≡ n = some-inj (rw here at e) in
      subst (λ x. (name_of x ≢ []) × IsTree d x) same (h.0, h.1)
  | inr other ↦ find_child-IsTree d p ns n (h.2) (rw other at e)
]

-- The round for a part that no child has, one that ends at a leaf, and one that goes on.
find_rounds-missing :
    (fuel : ℕ) (path : List ℕ) (f : Found)
    → find_child (part_of path) (children_of f.last_search_node) ≡ none
    → find_rounds (suc fuel) path f ≡ some f
unfolding find_rounds
find_rounds-missing fuel path f missing = rw (missing, find_rounds) refl

find_rounds-leaf :
    (fuel : ℕ) (path : List ℕ) (f : Found) (n : Node)
    → find_child (part_of path) (children_of f.last_search_node) ≡ some n
    → is_leaf (children_of n) ≡ true
    → find_rounds (suc fuel) path f ≡ some (down n f)
unfolding find_rounds
find_rounds-leaf fuel path f n here leaf = rw (here, leaf, find_rounds) refl

find_rounds-down :
    (fuel : ℕ) (path : List ℕ) (f : Found) (n : Node)
    → find_child (part_of path) (children_of f.last_search_node) ≡ some n
    → is_leaf (children_of n) ≡ false
    → find_rounds (suc fuel) path f ≡ find_rounds fuel (skip_slash (behind_part path)) (down n f)
unfolding find_rounds
find_rounds-down fuel path f n here more = rw (here, more, find_rounds) refl

-- The rounds go down as far as the tree has the parts.
find_rounds-walk :
    (ps : List (List ℕ)) (fuel d : ℕ) (f : Found)
    → length ps < fuel
    → All IsPart ps
    → IsTree d f.last_search_node
    → find_rounds fuel (skip_slash (join ps)) f ≡ some (walk ps f)
unfolding walk skip_slash
find_rounds-walk ps zero d f enough h tree = absurd (omega arith)
find_rounds-walk [] (suc fuel) d f enough h tree = find_rounds-missing fuel [] f (
    unfold part_of in
    find_child-nil (suc d) (children_of f.last_search_node)
      (IsTree-children d f.last_search_node tree))
find_rounds-walk (p ∷ ps) (suc fuel) d f enough h tree =
    let path = skip_slash (join (p ∷ ps)) in
    let children = children_of f.last_search_node in
    let (front, back) = part_of-join p ps (h.0.1) in
    let first : part_of path ≡ p = unfold skip_slash in front in
    let rest : behind_part path ≡ join ps = unfold skip_slash in back in
    let trees = IsTree-children d f.last_search_node tree in
    let found = λ (o : Option Node) (e : find_child p children ≡ o).
      ap (λ q. find_child q children) first ∙ e in
    elim (Option-cases (find_child p children)) [
      | inl missing ↦ find_rounds-missing fuel path f (found none missing) ∙ rw (missing, walk) refl
      | inr (n, here) ↦
          let below = (find_child-IsTree (suc d) p children n trees here).1 in
          elim (Bool-cases (is_leaf (children_of n))) [
            | inl leaf ↦
                find_rounds-leaf fuel path f n (found (some n) here) leaf
                ∙ rw (here, walk) (ap some (sym (walk-leaf ps (down n f) leaf)))
            | inr more ↦
                find_rounds-down fuel path f n (found (some n) here) more
                ∙ rw (rest, here, walk)
                    (find_rounds-walk ps fuel (suc d) (down n f) (omega arith) (h.1) below)
          ]
    ]

find_from-walk :
    (ps : List (List ℕ)) (fuel : ℕ) (root : Node)
    → length ps < fuel
    → All IsPart ps
    → IsTree 0 root
    → find_from fuel (join ps) root ≡ some (walk ps (at_root root))
unfolding find_from
find_from-walk [] fuel root enough h tree = unfold walk in refl
find_from-walk ([] ∷ ps) fuel root enough h tree = absurd (h.0.0 refl)
find_from-walk ((c ∷ p) ∷ ps) fuel root enough h tree =
    let longer : (length ((c ∷ p) ++ join ps) == 0) ≡ false = ground arith in
    rw longer (find_rounds-walk ((c ∷ p) ∷ ps) fuel 0 (at_root root) enough h tree)

-- On a path of parts with a slash in front of each, and with fuel for its parts, `__vfs_find_mount`
-- goes down as far as the tree has the parts, and returns the last node on the way with a device, or
-- the root.
pub find_mount-walk :
    (ps : List (List ℕ)) (fuel : ℕ) (root : Node)
    → length ps < fuel
    → All IsPart ps
    → IsTree 0 root
    → find_mount fuel (join ps) root ≡ some (walk ps (at_root root))
unfolding find_mount
find_mount-walk ps fuel root enough h tree = elim (Bool-cases (is_leaf (children_of root))) [
  | inl leaf ↦ rw leaf (ap some (sym (walk-leaf ps (at_root root) leaf)))
  | inr more ↦ rw more (find_from-walk ps fuel root enough h tree)
]
