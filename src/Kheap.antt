-- ===== src/Kheap.antt =====
-- src/kernel/memory/kheap.c: kmalloc and kfree, on the blocks of Heap. The heap has a fixed end. The
-- search of the free list takes fuel, one unit a block; `none` means that the fuel ran out.
pub mod Search
pub mod Free
mod Tests
use balrog_os.Prelude.{
  ℕ, zero, suc, ◌+◌, ◌-◌, ◌*◌, ◌%◌, ◌^◌, Bool, true, false, not, Option, none, some, ltb, leb, ◌==◌,
  if◌then◌else◌,
}
use balrog_os.Heap.{Headers, header, Alloced, Freed, heap_alloc, heap_free}

-- `kheap_start`, `kheap_end`, `kfirst_free` and `kheap_size`, with the headers in the heap
pub record Kheap : Type 0 where
  pub headers : Headers
  pub kheap_start : ℕ
  pub kheap_end : ℕ
  pub kfirst_free : ℕ
  pub kheap_size : ℕ

-- The 72 bytes that kmalloc adds.
abbrev pub guard_bytes : ℕ
guard_bytes = 24 * 3

-- What is left of kmalloc once heap_alloc has answered with an address.
unfoldable pub serve : Alloced → Kheap → Kheap
serve r k = record k {
  headers = r.headers;
  kfirst_free = r.first_free;
  kheap_size = (k.kheap_size + (r.headers (r.result - header)).size) % 2 ^ 64;
}

-- The loop of kmalloc; `first_block` stays 1.
unfoldable pub search : ℕ → (size current prev : ℕ) → Kheap → Option (ℕ × Kheap)
unfolding serve
search zero size current prev k = none
search (suc fuel) size current prev k =
    let r = heap_alloc k.headers size current prev k.kheap_end k.kfirst_free true in
    let on = search fuel size ((k.headers current).next_free) current k in
    if ltb current k.kheap_end
    then (if r.result == 0 then on else some (r.result, serve r k))
    else some (0, k)

unfoldable pub kmalloc : ℕ → (size : ℕ) → Kheap → Option (ℕ × Kheap)
kmalloc fuel size k = search fuel ((size + guard_bytes) % 2 ^ 64) k.kfirst_free k.kfirst_free k

-- What is left of kfree once heap_free has returned.
unfoldable pub give_back : (size : ℕ) → Option Freed → Kheap → Option Kheap
give_back size none k = none
give_back size (some r) k = some (record k {
  headers = r.headers;
  kfirst_free = r.first_free;
  kheap_size = (k.kheap_size + 2 ^ 64 - size) % 2 ^ 64;
})

unfoldable pub kfree : ℕ → (ptr : ℕ) → Kheap → Option Kheap
unfolding give_back
kfree fuel ptr k =
    let block : ℕ = ptr - header in
    let size : ℕ = (k.headers block).size in
    let done =
      give_back size
        (heap_free fuel k.headers block (ptr + size) k.kheap_end k.kfirst_free
          (k.kheap_end - k.kheap_start))
        k in
    if not ((k.headers block).is_mmapped) then some k else done
