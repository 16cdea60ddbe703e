-- ===== src/HashTable/Lookup.antt =====
-- What a lookup in the table sees of an insertion.
use balrog_os.Prelude.{
  ℕ, ◌+◌, ◌%◌, ◌<◌, ◌≡◌, refl, ◌≢◌, sym, ◌∙◌, ap, inl, inr, Bool, true, false, ◌&&◌, Bool-cases,
  some, List, ◌∷◌, All, arith, length, ◌==◌, if◌then◌else◌,
}
use balrog_os.HashTable.{
  ListNodes, KeyedList, HashTable, buckets, fill_node, list_insert, int_compare, list_lookup,
  hash_insert, hash_lookup,
}
use balrog_os.HashTable.Contents.{
  Holds, first_match, list_search-first_match, fill_node_self, fill_node-Holds,
  fill_node-first_match,
}

-- Every list of the table holds the nodes that `contents` names for it.
abbrev pub HashHolds : HashTable → (ℕ → List ℕ) → Type 0
HashHolds hash contents = (i : ℕ) → Holds hash.nodes ((hash.lists i).head) (contents i)

abbrev pub inserted : (node key : ℕ) → (ℕ → List ℕ) → ℕ → List ℕ
inserted node key contents i = if i == key % buckets then node ∷ contents i else contents i

if_head :
    (b : Bool) (l l' : KeyedList) → (if b then l else l').head ≡ (if b then l.head else l'.head)
if_head true l l' = refl
if_head false l l' = refl

hash_insert-nodes :
    (node key value : ℕ) (hash : HashTable)
    → node ≢ 0
    → ((hash_insert node key value hash).0 ≡ node)
      × (((hash_insert node key value hash).1).nodes
          ≡ fill_node node key value ((hash.lists (key % buckets)).head) hash.nodes)
      × ((i : ℕ)
          → ((((hash_insert node key value hash).1).lists i).head
              ≡ (if i == key % buckets then node else (hash.lists i).head)))
unfolding hash_insert list_insert
hash_insert-nodes node key value hash real =
    let other : (node == 0) ≡ false = ground arith in
    (rw other refl, rw other refl, λ i. rw other (if_head (i == key % buckets) _ (hash.lists i)))

-- What the table holds behind an insertion.
hash_insert-HashHolds :
    (node key value : ℕ) (hash : HashTable) (contents : ℕ → List ℕ)
    → HashHolds hash contents
    → node ≢ 0
    → ((i : ℕ) → All (λ n. n ≢ node) (contents i))
    → HashHolds ((hash_insert node key value hash).1) (inserted node key contents)
hash_insert-HashHolds node key value hash contents holds real new i =
    let (ret, nodes, heads) = hash_insert-nodes node key value hash real in
    let old = (hash.lists (key % buckets)).head in
    elim (Bool-cases (i == key % buckets)) [
      | inl here ↦
          let bucket : key % buckets ≡ i = ground arith in
          rw (nodes, heads i, here)
            (
              refl,
              real,
              rw (fill_node_self node key value old hash.nodes, bucket)
                  (fill_node-Holds node key value old ((hash.lists i).head) hash.nodes (contents i)
                    (new i) (holds i)),
            )
      | inr elsewhere ↦
          rw (nodes, heads i, elsewhere)
            (fill_node-Holds node key value old ((hash.lists i).head) hash.nodes (contents i)
              (new i) (holds i))
    ]

hash_lookup-first_match :
    (fuel key : ℕ) (hash : HashTable) (ns : List ℕ)
    → length ns < fuel
    → Holds hash.nodes ((hash.lists (key % buckets)).head) ns
    → hash_lookup fuel key hash ≡ some (first_match (int_compare key) hash.nodes ns)
unfolding hash_lookup list_lookup
hash_lookup-first_match fuel key hash ns enough h =
    list_search-first_match (int_compare key) fuel ((hash.lists (key % buckets)).head) hash.nodes ns
      enough h

-- The search of a list with the new node in front.
match_inserted :
    (node key value next key' : ℕ) (nodes : ListNodes) (ns : List ℕ)
    → All (λ n. n ≢ node) ns
    → first_match (int_compare key') (fill_node node key value next nodes) (node ∷ ns) ≡ (
        if key' % 4294967296 == key % 4294967296
        then node
        else first_match (int_compare key') nodes ns)
unfolding first_match int_compare
match_inserted node key value next key' nodes ns new =
    rw
      (
        fill_node_self node key value next nodes,
        fill_node-first_match (int_compare key') node key value next nodes ns new,
      )
      (ground arith)

lookup_there :
    (fuel key' : ℕ) (hash : HashTable) (nodes : ListNodes) (ns : List ℕ)
    → hash.nodes ≡ nodes
    → length ns < fuel
    → Holds hash.nodes ((hash.lists (key' % buckets)).head) ns
    → hash_lookup fuel key' hash ≡ some (first_match (int_compare key') nodes ns)
lookup_there fuel key' hash nodes ns same enough h =
    hash_lookup-first_match fuel key' hash ns enough h
    ∙ ap (λ m. some (first_match (int_compare key') m ns)) same

-- In a table with a new node, and with fuel for every list and one more, hash_lookup of a key that has
-- the bucket of the inserted key and agrees with it in 32 bits returns the new node; of every other key
-- it returns what it returned before. The lists hold the nodes they held, the new one in front.
pub hash_lookup-hash_insert :
    (fuel node key value key' : ℕ) (hash : HashTable) (contents : ℕ → List ℕ)
    → HashHolds hash contents
    → node ≢ 0
    → ((i : ℕ) → All (λ n. n ≢ node) (contents i))
    → length (contents (key' % buckets)) + 1 < fuel
    → (hash_lookup fuel key' ((hash_insert node key value hash).1) ≡ (
        if (key' % buckets == key % buckets) && (key' % 4294967296 == key % 4294967296)
        then some node
        else hash_lookup fuel key' hash))
      × HashHolds ((hash_insert node key value hash).1) (inserted node key contents)
hash_lookup-hash_insert fuel node key value key' hash contents holds real new enough =
    let (ret, nodes, heads) = hash_insert-nodes node key value hash real in
    let after = hash_insert-HashHolds node key value hash contents holds real new in
    let old = (hash.lists (key % buckets)).head in
    let i = key' % buckets in
    let before = hash_lookup-first_match fuel key' hash (contents i) (omega arith) (holds i) in
    let table : HashTable = (hash_insert node key value hash).1 in
    (
      elim (Bool-cases (i == key % buckets)) [
        | inl here ↦
            let now : Holds table.nodes ((table.lists i).head) (node ∷ contents i) =
              rw here at (after i) in
            let found =
              lookup_there fuel key' table (fill_node node key value old hash.nodes)
                (node ∷ contents i) nodes (omega arith) now
              ∙ ap some (match_inserted node key value old key' hash.nodes (contents i) (new i)) in
            elim (Bool-cases (key' % 4294967296 == key % 4294967296)) [
              | inl agree ↦ rw (here, agree) (rw agree at found)
              | inr differ ↦ rw (here, differ) ((rw differ at found) ∙ sym before)
            ]
        | inr elsewhere ↦
            let now : Holds table.nodes ((table.lists i).head) (contents i) =
              rw elsewhere at (after i) in
            rw elsewhere (
              lookup_there fuel key' table (fill_node node key value old hash.nodes) (contents i)
                nodes (omega arith) now
              ∙ (ap some (
                    fill_node-first_match (int_compare key') node key value old hash.nodes
                      (contents i) (new i))
                  ∙ sym before))
      ],
      after,
    )
