-- ===== src/Queue.antt =====
-- src/klib/data_structure/queue.c: a queue of linked nodes behind a dummy node. The nodes are a
-- function of their address, and 0 is NULL. What kmalloc returns is the argument `node`; kfree leaves
-- the other nodes alone. The calls of kmutex_lock and kmutex_unlock are not part of the model: one
-- call runs at a time.
pub mod Contents
mod Tests
use balrog_os.Prelude.{ℕ, Bool, true, false, ◌||◌, Option, none, some, ◌==◌, if◌then◌else◌}

-- `queue_node_t`
pub record Node : Type 0 where
  pub value : ℕ
  pub next : ℕ

abbrev pub Nodes : Type 0
Nodes = ℕ → Node

-- `queue_t` with the nodes in memory
pub record Queue : Type 0 where
  pub head : ℕ
  pub tail : ℕ
  pub nodes : Nodes

unfoldable pub set_node : Nodes → ℕ → Node → Nodes
set_node nodes a n x = if x == a then n else nodes x

-- The dummy node keeps the value that its memory had.
unfoldable pub queue_init : (node : ℕ) → Nodes → Queue
unfolding set_node
queue_init node nodes = if node == 0 then record { head = 0; tail = 0; nodes = nodes } else record {
  head = node;
  tail = node;
  nodes = set_node nodes node (record (nodes node) { next = 0 });
}

-- The stores to the new node and to the last one.
unfoldable pub link_node : (node value tail : ℕ) → Nodes → Nodes
unfolding set_node
link_node node value tail nodes =
    let nodes' = set_node nodes node (record { value = value; next = 0 }) in
    set_node nodes' tail (record (nodes' tail) { next = node })

unfoldable pub queue_enqueue : (node value : ℕ) → Queue → Queue
unfolding link_node
queue_enqueue node value q =
    if (node == 0) || (q.tail == 0)
    then q
    else record q { tail = node; nodes = link_node node value q.tail q.nodes }

-- `none` is the -1, with `*value` untouched.
unfoldable pub queue_dequeue : Queue → Option ℕ × Queue
queue_dequeue q =
    let new_head : ℕ = (q.nodes q.head).next in
    if q.head == 0
    then (none, q)
    else if new_head == 0
    then (none, q)
    else (some ((q.nodes new_head).value), record q { head = new_head })

abbrev pub value_or_zero : Option ℕ → ℕ
value_or_zero none = 0
value_or_zero (some v) = v

unfoldable pub queue_remove : Queue → ℕ × Queue
unfolding queue_dequeue
queue_remove q = let (v, q') = queue_dequeue q in (value_or_zero v, q')

-- 1 is `true`.
unfoldable pub queue_empty : Queue → Bool
queue_empty q = if q.head == 0 then true else if (q.nodes q.head).next == 0 then true else false
