-- ===== src/HashTable/Contents.antt =====
-- The nodes that a list leads to, and the search among them.
use balrog_os.Prelude.{
  ℕ, zero, suc, ◌<◌, ◌≡◌, refl, ◌≢◌, ◌∙◌, ap, inl, inr, Bool, true, false, Bool-cases, some, List,
  [], ◌∷◌, All, arith, length, ◌==◌, if◌then◌else◌,
}
use balrog_os.HashTable.{ListNode, ListNodes, fill_node, list_search}

-- From `a` the links lead over these nodes to NULL.
abbrev pub Holds : ListNodes → ℕ → List ℕ → Type 0
Holds nodes a [] = a ≡ 0
Holds nodes a (n ∷ ns) = (a ≡ n) × (n ≢ 0) × Holds nodes ((nodes n).next) ns

-- The first of the nodes that the comparison accepts; 0, if there is none.
unfoldable pub first_match : (ListNode → Bool) → ListNodes → List ℕ → ℕ
first_match compare nodes [] = 0
first_match compare nodes (n ∷ ns) = if compare (nodes n) then n else first_match compare nodes ns

list_search-step :
    (compare : ListNode → Bool) (fuel n : ℕ) (nodes : ListNodes)
    → n ≢ 0
    → list_search compare (suc fuel) n nodes
      ≡ (if compare (nodes n) then some n else list_search compare fuel ((nodes n).next) nodes)
unfolding list_search
list_search-step compare fuel n nodes real =
    let other : (n == 0) ≡ false = ground arith in rw other refl

list_search-end :
    (compare : ListNode → Bool) (fuel : ℕ) (nodes : ListNodes)
    → list_search compare (suc fuel) 0 nodes ≡ some 0
unfolding list_search
list_search-end compare fuel nodes = refl

-- With more fuel than there are nodes the search returns the first match.
pub list_search-first_match :
    (compare : ListNode → Bool) (fuel a : ℕ) (nodes : ListNodes) (ns : List ℕ)
    → length ns < fuel
    → Holds nodes a ns
    → list_search compare fuel a nodes ≡ some (first_match compare nodes ns)
unfolding first_match
list_search-first_match compare zero a nodes ns enough h = absurd (omega arith)
list_search-first_match compare (suc fuel) a nodes [] enough h =
    ap (λ x. list_search compare (suc fuel) x nodes) h ∙ list_search-end compare fuel nodes
list_search-first_match compare (suc fuel) a nodes (n ∷ ns) enough h =
    let here : a ≡ n = h.0 in
    let step = list_search-step compare fuel n nodes (h.1) in
    let rest = list_search-first_match compare fuel ((nodes n).next) nodes ns (omega arith) (h.2) in
    ap (λ x. list_search compare (suc fuel) x nodes) here
    ∙ (step ∙ elim (Bool-cases (compare (nodes n))) [
      | inl found ↦ rw found refl
      | inr other ↦ rw other rest
    ])

-- A new node leaves the others alone.
fill_node-other :
    (node key value next x : ℕ) (nodes : ListNodes)
    → x ≢ node
    → fill_node node key value next nodes x ≡ nodes x
unfolding fill_node
fill_node-other node key value next x nodes h =
    let other : (x == node) ≡ false = ground arith in rw other refl

pub fill_node_self :
    (node key value next : ℕ) (nodes : ListNodes)
    → fill_node node key value next nodes node ≡ record { key = key; value = value; next = next }
unfolding fill_node
fill_node_self node key value next nodes =
    let same : (node == node) ≡ true = ground arith in rw same refl

pub fill_node-Holds :
    (node key value next a : ℕ) (nodes : ListNodes) (ns : List ℕ)
    → All (λ n. n ≢ node) ns
    → Holds nodes a ns
    → Holds (fill_node node key value next nodes) a ns
fill_node-Holds node key value next a nodes [] new h = h
fill_node-Holds node key value next a nodes (n ∷ ns) new h = (
  h.0,
  h.1,
  rw (fill_node-other node key value next n nodes (new.0))
      (fill_node-Holds node key value next ((nodes n).next) nodes ns (new.1) (h.2)),
)

pub fill_node-first_match :
    (compare : ListNode → Bool) (node key value next : ℕ) (nodes : ListNodes) (ns : List ℕ)
    → All (λ n. n ≢ node) ns
    → first_match compare (fill_node node key value next nodes) ns ≡ first_match compare nodes ns
unfolding first_match
fill_node-first_match compare node key value next nodes [] new = refl
fill_node-first_match compare node key value next nodes (n ∷ ns) new =
    rw
      (
        fill_node-other node key value next n nodes (new.0),
        fill_node-first_match compare node key value next nodes ns (new.1),
      )
      refl
