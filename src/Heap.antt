-- ===== src/Heap.antt =====
-- src/shared/memory/heap.c: the block allocator that the kernel heaps and the libc's malloc share.
-- The state is the header at each address, a `block_info` of include/balrog/memory/heap.h; headers
-- stand at least their own 24 bytes apart, so a store to one leaves the others alone. Sizes are
-- below 2^60, the width of `_size`, and no sum of an address and a size wraps. Each loop takes fuel.
pub mod Tiling
pub mod Alloc
pub mod Free
pub mod Serve
mod Tests
use balrog_os.Prelude.{
  ℕ, zero, suc, ◌+◌, ◌-◌, Bool, true, false, not, ◌&&◌, ◌||◌, Option, none, some, ltb, leb, ◌==◌,
  if◌then◌else◌,
}

-- `block_info`
pub record Block : Type 0 where
  pub previous_chunk : ℕ
  pub size : ℕ
  pub non_arena : Bool
  pub is_mmapped : Bool
  pub present : Bool
  pub full : Bool
  pub next_free : ℕ

-- sizeof(block_info)
abbrev pub header : ℕ
header = 24

abbrev pub Headers : Type 0
Headers = ℕ → Block

unfoldable pub put : Headers → ℕ → Block → Headers
put h a b x = if x == a then b else h x

-- Where the block behind the one at `a` starts.
abbrev pub after : Headers → ℕ → ℕ
after h a = a + header + (h a).size

-- The result of heap_alloc: the address returned, 0 if the block is too small, with the headers and
-- `*first_free`.
pub record Alloced : Type 0 where
  pub result : ℕ
  pub headers : Headers
  pub first_free : ℕ

-- The new header at `block`, and the mark in the one behind it.
unfoldable pub set_block : Headers → (block current size top : ℕ) → (present full : Bool) → Headers
set_block h block current size top present full =
    let h' = put h block (record {
      previous_chunk = current;
      size = size;
      non_arena = false;
      is_mmapped = true;
      present = present;
      full = full;
      next_free = (h block).next_free;
    }) in
    let next : ℕ = block + header + size in
    if ltb next top
    then put h' next (record (h' next) { previous_chunk = block; present = false })
    else h'

-- The block is given whole: it leaves the free list.
unfoldable pub alloc_whole : Headers → (current prev top first_free : ℕ) → Bool → Alloced
unfolding put set_block
alloc_whole h current prev top first_free first_block =
    let rest : ℕ = (h current).next_free in
    let head = first_block && (current == first_free) in
    let h' = if head then h else put h prev (record (h prev) { next_free = rest }) in
    record {
      result = current + header;
      headers = set_block h' current current ((h' current).size) top false true;
      first_free = if head then rest else first_free;
    }

-- The end of the block is cut off and given; the front stays in the free list.
unfoldable pub alloc_split : Headers → (size current top first_free : ℕ) → Alloced
unfolding put set_block
alloc_split h size current top first_free =
    let left : ℕ = (h current).size - (size + header) in
    let h' = put h current (record (h current) { size = left }) in
    let block : ℕ = current + left + header in
    record {
      result = block + header;
      headers = set_block h' block current size top true false;
      first_free = first_free;
    }

unfoldable pub heap_alloc :
    Headers → (size current prev top first_free : ℕ) → (first_block : Bool) → Alloced
heap_alloc h size current prev top first_free first_block =
    if leb size (h current).size
    then (if leb (h current).size (size + header)
        then alloc_whole h current prev top first_free first_block
        else alloc_split h size current top first_free)
    else record { result = 0; headers = h; first_free = first_free }

-- What heap_free leaves: the headers and `*first_free`.
pub record Freed : Type 0 where
  pub headers : Headers
  pub first_free : ℕ

abbrev pub freed : Headers → ℕ → Freed
freed h f = record { headers = h; first_free = f }

-- The block is not allocated any more.
unfoldable pub unmap : Headers → ℕ → Headers
unmap h block = put h block (record (h block) { is_mmapped = false })

-- The block that is freed, with its previous one if that is free, and the headers then.
unfoldable pub merge_previous : Headers → ℕ → ℕ × Headers
merge_previous h block =
    if (h block).present
    then (let p : ℕ = (h block).previous_chunk in
        (p, put h p (record (h p) { size = (h p).size + ((h block).size + header) })))
    else (block, h)

-- The free block at `next` becomes a part of `block`, and stays not the first free one.
unfoldable pub absorb : Headers → (block next first_free : ℕ) → Freed
absorb h block next first_free =
    freed
      (put h block (record (h block) {
        size = (h block).size + ((h next).size + header);
        next_free = (h next).next_free;
      }))
      (if first_free == next then block else first_free)

abbrev pub set_next : Headers → ℕ → ℕ → Headers
set_next h block n = put h block (record (h block) { next_free = n })

-- The loop `while(1)`: a free block right behind is absorbed, and the next free one found.
unfoldable pub scan :
    ℕ → (top max block : ℕ) → (next : ℕ) → (contiguous : Bool) → Freed → Option Freed
unfolding put absorb
scan zero top max block next contiguous s = none
scan (suc fuel) top max block next contiguous s =
    let h = s.headers in
    let f : ℕ = s.first_free in
    let on = scan fuel top max block (after h next) false s in
    let taken = scan fuel top max block (after h next) false (absorb h block next f) in
    if ltb next top
    then (if (h next).is_mmapped
        then on
        else if ltb ((h block).size + header) max && contiguous
        then taken
        else some (freed (set_next h block next) f))
    else some (freed (set_next h block top) f)

-- `while(first && first->next_free && first->next_free < block) first = first->next_free;`
unfoldable pub walk : ℕ → Headers → (block first : ℕ) → Option ℕ
walk zero h block first = none
walk (suc fuel) h block first =
    let on = walk fuel h block ((h first).next_free) in
    if not (first == 0) && not ((h first).next_free == 0) && ltb ((h first).next_free) block
    then on
    else some first

-- The block is entered into the free list.
unfoldable pub link : ℕ → ℕ → Freed → Option Freed
unfolding put walk
link fuel block s =
    let h = s.headers in
    if ltb block s.first_free
    then some (freed (set_next h block s.first_free) block)
    else elim (walk fuel h block s.first_free) [
      | none ↦ none
      | some first ↦
          some (if first == block then s else freed (set_next h first block) s.first_free)
    ]

-- The block behind learns that the one in front of it is free.
unfoldable pub mark_after : (top block : ℕ) → Freed → Freed
unfolding put
mark_after top block s =
    let h = s.headers in
    let a : ℕ = after h block in
    let h' =
      if ltb a top then put h a (record (h a) { previous_chunk = block; present = true }) else h in
    freed (put h' block (record (h' block) { full = false })) s.first_free

-- The part behind the merge with the previous block.
unfoldable pub free_merged : ℕ → (next top first_free max block : ℕ) → Headers → Option Freed
free_merged fuel next top first_free max block h =
    elim (scan fuel top max block next true (freed h first_free)) [
      | none ↦ none
      | some s ↦ elim (link fuel block s) [ none ↦ none | some t ↦ some (mark_after top block t) ]
    ]

unfoldable pub heap_free : ℕ → Headers → (block next top first_free max : ℕ) → Option Freed
heap_free fuel h block next top first_free max =
    let (b, h') = merge_previous (unmap h block) block in
    free_merged fuel next top first_free max b h'
