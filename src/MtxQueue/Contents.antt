-- ===== src/MtxQueue/Contents.antt =====
-- The list that the queue of a kmutex holds, and what the calls do to it.
use balrog_os.Prelude.{
  ==_refl, ◌∙◌, ◌⊎◌, inl, inr, ℕ, ◌≡◌, refl, ◌≢◌, true, false, none, some, List, [], ◌∷◌, ◌++◌,
  arith, ◌==◌,
}
use balrog_os.Queue.{set_node}
use balrog_os.Queue.Contents.{Holds, Away, Away-first, linked-Holds, linked_value}
use balrog_os.MtxQueue.{MtxQueue, mtx_queue_enqueue, mtx_queue_dequeue, mtx_queue_empty}

-- The queue holds the list.
abbrev pub IsMtxQueue : MtxQueue → List ℕ → Type 0
IsMtxQueue q [] = q.head ≡ 0
IsMtxQueue q (x ∷ xs) = (q.head ≢ 0) × ((q.nodes q.head).value ≡ x) × Holds q.nodes q.head q.tail xs

-- The node is not in the queue.
abbrev pub IsNew : ℕ → MtxQueue → List ℕ → Type 0
IsNew node q [] = Unit
IsNew node q (x ∷ xs) = Away node q.nodes q.head xs

-- An enqueue with a node that is not in the queue puts the value behind all others.
pub mtx_queue_enqueue-IsMtxQueue :
    (q : MtxQueue) (node value : ℕ) (xs : List ℕ)
    → IsMtxQueue q xs
    → node ≢ 0
    → IsNew node q xs
    → IsMtxQueue (mtx_queue_enqueue node value q) (xs ++ (value ∷ []))
unfolding mtx_queue_enqueue set_node
mtx_queue_enqueue-IsMtxQueue q node value [] h ne away =
    let none_yet : (q.head == 0) ≡ true = ground (arith, h) in
    rw none_yet (ne, ground (arith, ==_refl node), (refl, ground (arith, ==_refl node)))
mtx_queue_enqueue-IsMtxQueue q node value (x ∷ xs) h ne away =
    let more : (q.head == 0) ≡ false = ground (arith, h.0) in
    let first = Away-first xs node q.nodes q.head away in
    rw more (
      h.0,
      linked_value q.nodes node value q.tail q.head first ∙ h.1,
      linked-Holds q.nodes node value q.tail xs q.head ne (h.2) away,
    )

-- A dequeue takes the first value; an empty queue answers -1, and nothing changes. mtx_queue_empty
-- tells which of the two it is.
pub mtx_queue_dequeue-IsMtxQueue :
    (q : MtxQueue) (xs : List ℕ)
    → IsMtxQueue q xs
    → ((xs ≡ []) × (mtx_queue_empty q ≡ true) × (mtx_queue_dequeue q ≡ (none, q)))
      ⊎ ((x : ℕ) × (rest : List ℕ) × (xs ≡ x ∷ rest)
          × (mtx_queue_empty q ≡ false)
          × ((mtx_queue_dequeue q).0 ≡ some x)
          × IsMtxQueue ((mtx_queue_dequeue q).1) rest)
unfolding mtx_queue_dequeue mtx_queue_empty
mtx_queue_dequeue-IsMtxQueue q [] h =
    let none_yet : (q.head == 0) ≡ true = ground (arith, h) in
    inl (refl, none_yet, rw none_yet refl)
mtx_queue_dequeue-IsMtxQueue q (x ∷ []) h =
    let more : (q.head == 0) ≡ false = ground (arith, h.0) in
    inr (x, [], refl, more, rw (more, h.1) refl, rw more (h.2.1))
mtx_queue_dequeue-IsMtxQueue q (x ∷ y ∷ ys) h =
    let more : (q.head == 0) ≡ false = ground (arith, h.0) in
    inr (x, y ∷ ys, refl, more, rw (more, h.1) refl, rw more (h.2.0, h.2.1, h.2.2))
