-- ===== src/Queue/Tests.antt =====
-- Runs of the queue on a few nodes.
use balrog_os.Prelude.{
  ℕ, ◌≡◌, refl, ◌⊎◌, true, false, none, some, List, [], ◌∷◌, arith, if◌then◌else◌, ◌==◌,
}
use balrog_os.Queue.{Nodes, Queue, queue_dequeue, queue_empty}
use balrog_os.Queue.Contents.{IsQueue, queue_dequeue-IsQueue}

-- The dummy node 8, with the node 16 behind it.
abbrev two_nodes : Nodes
two_nodes a = record { value = 5; next = if a == 8 then 16 else 0 }

abbrev one_value : Queue
one_value = record { head = 8; tail = 16; nodes = two_nodes }

one_value-IsQueue : IsQueue one_value (5 ∷ [])
one_value-IsQueue = (omega arith, omega arith, (omega arith, refl, (refl, refl)))

queue_dequeue-IsQueue_example :
    ((◌≡◌ {A = List ℕ} (5 ∷ []) [])
      × (queue_empty one_value ≡ true)
      × (queue_dequeue one_value ≡ (none, one_value)))
    ⊎ ((x : ℕ) × (rest : List ℕ) × (◌≡◌ {A = List ℕ} (5 ∷ []) (x ∷ rest))
        × (queue_empty one_value ≡ false)
        × ((queue_dequeue one_value).0 ≡ some x)
        × IsQueue ((queue_dequeue one_value).1) rest)
queue_dequeue-IsQueue_example = queue_dequeue-IsQueue one_value (5 ∷ []) one_value-IsQueue
