-- ===== src/MtxQueue.antt =====
-- src/klib/data_structure/mtx_queue.c: the queue of a kmutex, linked nodes without a dummy. Its nodes
-- are those of Queue. What vmalloc returns is the argument `node`, which the source does not test;
-- vmfree leaves the other nodes alone.
pub mod Contents
mod Tests
use balrog_os.Prelude.{ℕ, Bool, true, false, Option, none, some, ◌==◌, if◌then◌else◌}
use balrog_os.Queue.{Node, Nodes, set_node, link_node, value_or_zero}

-- `mtx_queue_t` with the nodes in memory
pub record MtxQueue : Type 0 where
  pub head : ℕ
  pub tail : ℕ
  pub nodes : Nodes

unfoldable pub mtx_queue_init : Nodes → MtxQueue
mtx_queue_init nodes = record { head = 0; tail = 0; nodes = nodes }

unfoldable pub mtx_queue_enqueue : (node value : ℕ) → MtxQueue → MtxQueue
unfolding set_node
mtx_queue_enqueue node value q =
    if q.head == 0
    then record {
      head = node;
      tail = node;
      nodes = set_node q.nodes node (record { value = value; next = 0 });
    }
    else record q { tail = node; nodes = link_node node value q.tail q.nodes }

-- `none` is the -1, with `*value` untouched. The tail stays.
unfoldable pub mtx_queue_dequeue : MtxQueue → Option ℕ × MtxQueue
mtx_queue_dequeue q =
    if q.head == 0
    then (none, q)
    else (some ((q.nodes q.head).value), record q { head = (q.nodes q.head).next })

unfoldable pub mtx_queue_remove : MtxQueue → ℕ × MtxQueue
unfolding mtx_queue_dequeue
mtx_queue_remove q = let (v, q') = mtx_queue_dequeue q in (value_or_zero v, q')

-- 1 is `true`.
unfoldable pub mtx_queue_empty : MtxQueue → Bool
mtx_queue_empty q = q.head == 0
