-- ===== src/MtxQueue/Tests.antt =====
-- Runs of the queue of a kmutex on a few nodes.
use balrog_os.Prelude.{◌≡◌, refl, some, [], ◌∷◌, arith, if◌then◌else◌, ◌==◌}
use balrog_os.Queue.{Nodes}
use balrog_os.MtxQueue.{MtxQueue, mtx_queue_dequeue}
use balrog_os.MtxQueue.Contents.{IsMtxQueue}

-- The node 8, with the node 16 behind it.
abbrev two_nodes : Nodes
two_nodes a = record { value = 5; next = if a == 8 then 16 else 0 }

abbrev one_value : MtxQueue
one_value = record { head = 8; tail = 16; nodes = two_nodes }

one_value-IsMtxQueue : IsMtxQueue one_value (5 ∷ 5 ∷ [])
one_value-IsMtxQueue = (omega arith, refl, (omega arith, refl, (refl, refl)))

dequeue_first : (mtx_queue_dequeue one_value).0 ≡ some 5
unfolding mtx_queue_dequeue
dequeue_first = refl
