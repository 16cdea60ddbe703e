-- ===== src/Heap/Tests.antt =====
-- Runs of the block allocator on a heap of three blocks.
use balrog_os.Prelude.{ℕ, ◌≡◌, refl, ◌⊎◌, Bool, true, false, [], ◌∷◌, arith, ◌==◌, if◌then◌else◌}
use balrog_os.Heap.{Block, Headers, alloc_split, heap_alloc}
use balrog_os.Heap.Tiling.{Tiles}
use balrog_os.Heap.Alloc.{Placed, heap_alloc-Placed}

abbrev block : (previous_chunk size next_free : ℕ) (is_mmapped present : Bool) → Block
block previous_chunk size next_free is_mmapped present = record {
  previous_chunk = previous_chunk;
  size = size;
  non_arena = false;
  is_mmapped = is_mmapped;
  present = present;
  full = is_mmapped;
  next_free = next_free;
}

-- Blocks of 40, 16 and 200 bytes at 64, 128 and 168, up to 392; the first and the last are free.
abbrev heap : Headers
heap a =
    if a == 64
    then block 0 40 168 false false
    else if a == 128
    then block 64 16 0 true true
    else if a == 168
    then block 128 200 392 false false
    else block 0 0 0 false false

-- The same blocks, with the first one taken, and a stale link in it.
abbrev used_heap : Headers
used_heap a =
    if a == 64
    then block 0 40 40 true false
    else if a == 128
    then block 64 16 0 true false
    else heap a

tiles : Tiles heap 64 392 (40 ∷ 16 ∷ 200 ∷ [])
tiles = (refl, (refl, (refl, refl)))

-- The last 50 bytes of the last block, behind a header of its own.
split_result : (heap_alloc heap 50 168 64 392 64 false).result ≡ 342
unfolding heap_alloc alloc_split
split_result = refl

heap_alloc-Placed_example :
    Placed heap 50 64 392 64 64 200
      (40 ∷ 16 ∷ [])
      []
      false
      (omega arith)
      tiles
      (heap_alloc heap 50 168 64 392 64 false)
heap_alloc-Placed_example =
    heap_alloc-Placed heap 50 64 392 64 64 200 (40 ∷ 16 ∷ []) [] false (omega arith) tiles

-- The free lists of the two.
abbrev Last : ℕ → Type 0
Last x = x ≡ 168

abbrev Both : ℕ → Type 0
Both x = (x ≡ 64) ⊎ (x ≡ 168)
