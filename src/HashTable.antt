-- ===== src/HashTable.antt =====
-- src/klib/data_structure/list.c and hash_table.c: lists of keyed nodes, and a table of them. The
-- nodes are a function of their address, and 0 is NULL. What vmalloc returns is the argument `node`.
-- The calls of kmutex_lock and kmutex_unlock are not part of the model: one call runs at a time.
-- list_str_lookup and list_custom_lookup are __list_lookup with the caller's comparison.
pub mod Contents
pub mod Lookup
mod Tests
use balrog_os.Prelude.{
  ℕ, zero, suc, ◌+◌, ◌%◌, Bool, true, false, Option, none, some, ◌==◌, if◌then◌else◌,
}

-- `list_node_t`
pub record ListNode : Type 0 where
  pub key : ℕ
  pub value : ℕ
  pub next : ℕ

abbrev pub ListNodes : Type 0
ListNodes = ℕ → ListNode

-- `list_t`, without its lock
pub record KeyedList : Type 0 where
  pub head : ℕ
  pub size : ℕ

-- BUCKETS
abbrev pub buckets : ℕ
buckets = 100

-- `hash_t` with the nodes in memory
pub record HashTable : Type 0 where
  pub lists : ℕ → KeyedList
  pub nodes : ListNodes

unfoldable pub list_init : KeyedList
list_init = record { head = 0; size = 0 }

-- The stores to the new node.
unfoldable pub fill_node : (node key value next : ℕ) → ListNodes → ListNodes
fill_node node key value next nodes x =
    if x == node then record { key = key; value = value; next = next } else nodes x

-- `list_insert`: the node that it returns, the list, and the nodes.
unfoldable pub list_insert :
    (node key value : ℕ) → KeyedList → ListNodes → ℕ × KeyedList × ListNodes
unfolding fill_node
list_insert node key value list nodes = if node == 0 then (0, list, nodes) else (
  node,
  record { head = node; size = (list.size + 1) % 18446744073709551616 },
  fill_node node key value list.head nodes,
)

-- The loop of `__list_lookup`, with the comparison. `none`: the fuel ran out.
unfoldable pub list_search : (ListNode → Bool) → (fuel node : ℕ) → ListNodes → Option ℕ
list_search compare zero node nodes = none
list_search compare (suc fuel) node nodes =
    let rest = list_search compare fuel ((nodes node).next) nodes in
    if node == 0 then some 0 else (if compare (nodes node) then some node else rest)

-- `__int_compare`: both keys are read as an int of 32 bits.
unfoldable pub int_compare : (key : ℕ) → ListNode → Bool
int_compare key node = node.key % 4294967296 == key % 4294967296

-- `list_lookup`
unfoldable pub list_lookup : (fuel key : ℕ) → KeyedList → ListNodes → Option ℕ
unfolding list_search int_compare
list_lookup fuel key list nodes = list_search (int_compare key) fuel list.head nodes

unfoldable pub hash_init : ListNodes → HashTable
unfolding list_init
hash_init nodes = record { lists = λ i. list_init; nodes = nodes }

-- `hash_insert`
unfoldable pub hash_insert : (node key value : ℕ) → HashTable → ℕ × HashTable
unfolding list_insert
hash_insert node key value hash =
    let (ret, list, nodes) = list_insert node key value (hash.lists (key % buckets)) hash.nodes in
    (ret, record { lists = λ i. if i == key % buckets then list else hash.lists i; nodes = nodes })

-- `hash_lookup`
unfoldable pub hash_lookup : (fuel key : ℕ) → HashTable → Option ℕ
unfolding list_lookup
hash_lookup fuel key hash = list_lookup fuel key (hash.lists (key % buckets)) hash.nodes
