-- ===== src/HashTable/Tests.antt =====
-- A run of the hash table with one node.
use balrog_os.Prelude.{◌+◌, ◌*◌, ◌%◌, ◌≡◌, refl, ◌&&◌, some, [], arith, ◌==◌, if◌then◌else◌}
use balrog_os.HashTable.{ListNodes, HashTable, buckets, hash_init, hash_insert, hash_lookup}
use balrog_os.HashTable.Lookup.{HashHolds, inserted, hash_lookup-hash_insert}

abbrev no_nodes : ListNodes
no_nodes a = record { key = 0; value = 0; next = 0 }

-- The key 7 with the value 1 at the node 64.
abbrev one_key : HashTable
one_key = (hash_insert 64 7 1 (hash_init no_nodes)).1

lookup_7 : hash_lookup 3 7 one_key ≡ some 64
unfolding hash_lookup hash_insert hash_init
lookup_7 = refl

-- Two keys that differ by 100 times 2 ^ 32.
lookup_7_high : hash_lookup 3 (7 + 100 * 4294967296) one_key ≡ some 64
unfolding hash_lookup hash_insert hash_init
lookup_7_high = refl

empty_HashHolds : HashHolds (hash_init no_nodes) (λ i. [])
unfolding hash_init
empty_HashHolds i = refl

hash_lookup-hash_insert_example :
    (hash_lookup 3 107 ((hash_insert 64 7 1 (hash_init no_nodes)).1) ≡ (
      if (107 % buckets == 7 % buckets) && (107 % 4294967296 == 7 % 4294967296)
      then some 64
      else hash_lookup 3 107 (hash_init no_nodes)))
    × HashHolds ((hash_insert 64 7 1 (hash_init no_nodes)).1) (inserted 64 7 (λ i. []))
hash_lookup-hash_insert_example =
    hash_lookup-hash_insert 3 64 7 1 107 (hash_init no_nodes) (λ i. []) empty_HashHolds
      (omega arith) (λ i. tt) (omega arith)
