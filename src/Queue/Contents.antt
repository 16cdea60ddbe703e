-- ===== src/Queue/Contents.antt =====
-- The list that a queue holds, and what the calls do to it.
use balrog_os.Prelude.{
  ==_refl, ◌∙◌, ◌⊎◌, inl, inr, ℕ, ◌≡◌, refl, ◌≢◌, true, false, none, some, List, [], ◌∷◌, ◌++◌,
  arith, ◌==◌,
}
use balrog_os.Queue.{
  Nodes, Queue, set_node, link_node, queue_init, queue_enqueue, queue_dequeue, queue_empty,
}

-- Behind the node `a` stand nodes with the values `xs`, the last of them is `t`, and nothing follows.
abbrev pub Holds : Nodes → (a t : ℕ) → List ℕ → Type 0
Holds nodes a t [] = (a ≡ t) × ((nodes a).next ≡ 0)
Holds nodes a t (x ∷ xs) =
    ((nodes a).next ≢ 0) × ((nodes ((nodes a).next)).value ≡ x) × Holds nodes ((nodes a).next) t xs

-- The node is none of `a` and those behind it.
abbrev pub Away : ℕ → Nodes → ℕ → List ℕ → Type 0
Away node nodes a [] = a ≢ node
Away node nodes a (x ∷ xs) = (a ≢ node) × Away node nodes ((nodes a).next) xs

-- The queue is set up, and holds the list.
abbrev pub IsQueue : Queue → List ℕ → Type 0
IsQueue q xs = (q.head ≢ 0) × (q.tail ≢ 0) × Holds q.nodes q.head q.tail xs

Holds-end : (xs : List ℕ) (nodes : Nodes) (a t : ℕ) → Holds nodes a t xs → (nodes t).next ≡ 0
Holds-end [] nodes a t h = rw (← h.0) (h.1)
Holds-end (x ∷ xs) nodes a t h = Holds-end xs nodes ((nodes a).next) t (h.2)

pub Away-first : (xs : List ℕ) (node : ℕ) (nodes : Nodes) (a : ℕ) → Away node nodes a xs → a ≢ node
Away-first [] node nodes a w = w
Away-first (x ∷ xs) node nodes a w = w.0

module _ (nodes : Nodes) (node value t : ℕ) where
  abbrev pub linked : Nodes
  linked = link_node node value t nodes

  linked_tail : (linked t).next ≡ node
  unfolding link_node set_node
  linked_tail = ground (arith, ==_refl t)

  linked_new : t ≢ node → ((linked node).value ≡ value) × ((linked node).next ≡ 0)
  unfolding link_node set_node
  linked_new ne = (ground (arith, ==_refl node), ground (arith, ==_refl node))

  linked_next : (a : ℕ) → a ≢ node → a ≢ t → (linked a).next ≡ (nodes a).next
  unfolding link_node set_node
  linked_next a away other = ground arith

  pub linked_value : (a : ℕ) → a ≢ node → (linked a).value ≡ (nodes a).value
  unfolding link_node set_node
  linked_value a away = ground arith

  pub linked-Holds :
      (xs : List ℕ) (a : ℕ)
      → node ≢ 0
      → Holds nodes a t xs
      → Away node nodes a xs
      → Holds linked a node (xs ++ (value ∷ []))
  linked-Holds [] a ne h away =
      let at : (linked a).next ≡ node = rw (h.0) linked_tail in
      let (v, ends) = linked_new (rw (h.0) at away) in rw at (ne, v, (refl, ends))
  linked-Holds (x ∷ xs) a ne h away =
      let ends = Holds-end xs nodes ((nodes a).next) t (h.2) in
      let next_away = Away-first xs node nodes ((nodes a).next) (away.1) in
      let inner : a ≢ t = λ e. h.0 (rw e ends) in
      let on = linked_next a (away.0) inner in
      rw on (
        h.0,
        linked_value ((nodes a).next) next_away ∙ h.1,
        linked-Holds xs ((nodes a).next) ne (h.2) (away.1),
      )

-- An enqueue with a node that is not in the queue puts the value behind all others.
pub queue_enqueue-IsQueue :
    (q : Queue) (node value : ℕ) (xs : List ℕ)
    → IsQueue q xs
    → node ≢ 0
    → Away node q.nodes q.head xs
    → IsQueue (queue_enqueue node value q) (xs ++ (value ∷ []))
unfolding queue_enqueue
queue_enqueue-IsQueue q node value xs h ne away =
    let there : (node == 0) ≡ false = ground arith in
    let set_up : (q.tail == 0) ≡ false = ground (arith, h.1) in
    rw (there, set_up) (h.0, ne, linked-Holds q.nodes node value q.tail xs q.head ne (h.2) away)

-- A dequeue takes the first value; an empty queue answers -1, and nothing changes. queue_empty tells
-- which of the two it is.
pub queue_dequeue-IsQueue :
    (q : Queue) (xs : List ℕ)
    → IsQueue q xs
    → ((xs ≡ []) × (queue_empty q ≡ true) × (queue_dequeue q ≡ (none, q)))
      ⊎ ((x : ℕ) × (rest : List ℕ) × (xs ≡ x ∷ rest)
          × (queue_empty q ≡ false)
          × ((queue_dequeue q).0 ≡ some x)
          × IsQueue ((queue_dequeue q).1) rest)
unfolding queue_dequeue queue_empty
queue_dequeue-IsQueue q [] h =
    let set_up : (q.head == 0) ≡ false = ground (arith, h.0) in
    let last : ((q.nodes q.head).next == 0) ≡ true = ground (arith, h.2.1) in
    inl (refl, rw (set_up, last) refl, rw (set_up, last) refl)
queue_dequeue-IsQueue q (x ∷ xs) h =
    let set_up : (q.head == 0) ≡ false = ground (arith, h.0) in
    let more : ((q.nodes q.head).next == 0) ≡ false = ground (arith, h.2.0) in
    inr (
      x,
      xs,
      refl,
      rw (set_up, more) refl,
      rw (set_up, more, h.2.1) refl,
      rw (set_up, more) (h.2.0, h.1, h.2.2),
    )

-- A queue set up with a node is empty.
pub queue_init-IsQueue : (node : ℕ) (nodes : Nodes) → node ≢ 0 → IsQueue (queue_init node nodes) []
unfolding queue_init set_node
queue_init-IsQueue node nodes ne =
    let there : (node == 0) ≡ false = ground arith in
    rw (there) (ne, ne, (refl, ground (arith, ==_refl node)))
