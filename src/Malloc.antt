-- ===== src/Malloc.antt =====
-- src/libc/stdlib/malloc.c: the heap of a user process, on the blocks of Heap. It grows by brk, which
-- is a system call: `refuses a` says that it returns a negative value for the address `a`. The
-- growth itself is the code of vmalloc, `grow` of Vmheap. The loop takes fuel, one unit a round.
pub mod Search
mod Tests
use balrog_os.Prelude.{
  ℕ, zero, suc, ◌+◌, ◌-◌, ◌*◌, Bool, true, false, not, ◌&&◌, ◌||◌, Option, none, some, ltb, leb,
  ◌==◌, if◌then◌else◌,
}
use balrog_os.Heap.{Headers, header, put, Alloced, Freed, heap_alloc, heap_free}
use balrog_os.Vmheap.{Grown, grow}

-- PROCESS_HEAP_START, PROCESS_HEAP_END and MALLOC_MAX_BLOCK_SIZE
abbrev pub heap_start : ℕ
heap_start = 0x000055c0603d3000

abbrev pub process_heap_end : ℕ
process_heap_end = 0x00007ffd0d812000

abbrev pub malloc_max_block_size : ℕ
malloc_max_block_size = process_heap_end - heap_start

pub record Malloc : Type 0 where
  pub headers : Headers
  pub heap_top : ℕ
  pub first_free : ℕ

-- The first call makes the block of the first page; two of its marks are left as they are.
unfoldable pub prepare : Malloc → Malloc
unfolding put
prepare m = if not (m.first_free == 0) then m else record m {
  headers = put m.headers heap_start (record (m.headers heap_start) {
    next_free = m.heap_top;
    previous_chunk = 0;
    is_mmapped = false;
    present = false;
    size = 0x1000 - header;
  });
  first_free = heap_start;
}

abbrev pub served_heap : Alloced → Malloc → Malloc
served_heap r m = record m { headers = r.headers; first_free = r.first_free }

abbrev pub enlarged : Grown × ℕ → Malloc → Malloc
enlarged (g, bytes) m = record m {
  headers = g.headers;
  first_free = g.first_free;
  heap_top = m.heap_top + bytes;
}

-- The loop of malloc. A growth keeps `prev_block`.
unfoldable pub malloc_rounds :
    (refuses : ℕ → Bool)
    → ℕ
    → (size current prev : ℕ) → (first_block : Bool) → Malloc
    → Option (ℕ × Malloc)
malloc_rounds refuses zero size current prev first_block m = none
malloc_rounds refuses (suc fuel) size current prev first_block m =
    let r = heap_alloc m.headers size current prev m.heap_top m.first_free first_block in
    let on = malloc_rounds refuses fuel size ((m.headers current).next_free) current false m in
    let g = grow m.headers heap_start m.heap_top m.first_free prev size in
    let larger = malloc_rounds refuses fuel size (g.0.current) prev false (enlarged g m) in
    if ltb current m.heap_top && leb heap_start current
    then (if r.result == 0 then on else some (r.result, served_heap r m))
    else if leb process_heap_end current || refuses (m.heap_top + g.1)
    then some (0, m)
    else larger

unfoldable pub malloc : (refuses : ℕ → Bool) → ℕ → (size : ℕ) → Malloc → Option (ℕ × Malloc)
malloc refuses fuel size m =
    let p = prepare m in
    if ltb (malloc_max_block_size - header * 3) size
    then some (0, m)
    else malloc_rounds refuses fuel (size + header * 3) p.first_free p.first_free true p

-- What free leaves: the process ends, or goes on with the heap.
pub data FreeResult : Type 0 where
  exits : FreeResult
  returns : Malloc → FreeResult

unfoldable pub free_with : Option Freed → Malloc → Option FreeResult
free_with none m = none
free_with (some r) m = some (returns (record m { headers = r.headers; first_free = r.first_free }))

unfoldable pub free : ℕ → (ptr : ℕ) → Malloc → Option FreeResult
unfolding free_with
free fuel ptr m =
    let block : ℕ = ptr - header in
    let next : ℕ = ptr + (m.headers block).size in
    let done =
      free_with
        (heap_free fuel m.headers block next m.heap_top m.first_free (m.heap_top - heap_start)) m in
    if not ((m.headers block).is_mmapped) then some exits else done
