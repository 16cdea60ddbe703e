-- ===== src/Vmheap.antt =====
-- src/kernel/memory/vmheap.c: vmalloc and vmfree, on the blocks of Heap. The heap grows by pages: the
-- page at an address is missing, `fails`, where pmm_calloc has none for it. `mapped` says which pages
-- of the heap have a mapping, what vmm_set_page and vmm_free_page do there; the physical pages that
-- pmm_free takes back are not part of the state. The loop takes fuel, one unit a round.
pub mod Grow
pub mod Search
mod Tests
use balrog_os.Prelude.{
  ℕ, zero, suc, ◌+◌, ◌-◌, ◌*◌, ◌/◌, ◌%◌, ◌^◌, Bool, true, false, not, ◌&&◌, ◌||◌, Option, none,
  some, ltb, leb, ◌==◌, if◌then◌else◌,
}
use balrog_os.Heap.{Block, Headers, header, put, Alloced, Freed, heap_alloc, heap_free}

-- KERNEL_VIRTUAL_START, KERNEL_VIRTUAL_TOP and VMHEAP_MAX_BLOCK_SIZE
abbrev pub virtual_start : ℕ
virtual_start = 0xffffffc000000000

abbrev pub virtual_top : ℕ
virtual_top = 0xffffffe000000000

abbrev pub max_block_size : ℕ
max_block_size = virtual_top - virtual_start

-- The static variables, the headers in the heap, and the pages that are mapped.
pub record Vmheap : Type 0 where
  pub headers : Headers
  pub vmheap_current_top : ℕ
  pub first_free : ℕ
  pub vmheap_size : ℕ
  pub vmheap_current_size : ℕ
  pub alloc_count : ℕ
  pub free_count : ℕ
  pub mapped : ℕ → Bool

abbrev pub set_page : (ℕ → Bool) → ℕ → Bool → ℕ → Bool
set_page mapped a v x = if x == a then v else mapped x

-- Pages 0 to `n - 1` above `top` lose their mapping.
unfoldable pub drop_pages : (top n : ℕ) → (ℕ → Bool) → ℕ → Bool
drop_pages top zero mapped = mapped
drop_pages top (suc n) mapped = set_page (drop_pages top n mapped) (top + n * 0x1000) false

-- Pages `i` to `i + n - 1` above `top` are mapped, or all of them dropped if one is missing.
unfoldable pub add_pages : (fails : ℕ → Bool) → (top i n : ℕ) → (ℕ → Bool) → Bool × (ℕ → Bool)
unfolding drop_pages
add_pages fails top i zero mapped = (true, mapped)
add_pages fails top i (suc n) mapped =
    let page : ℕ = top + i * 0x1000 in
    let rest = add_pages fails top (i + 1) n (set_page mapped page true) in
    if fails page then (false, drop_pages top i mapped) else rest

-- `empty_list`, `extend` and `pages`: the shape of the growth.
unfoldable pub empty_list : (low top prev : ℕ) → Bool
empty_list low top prev = leb top prev || ltb prev low

unfoldable pub extend : Headers → (low top prev : ℕ) → Bool
unfolding empty_list
extend h low top prev = not (empty_list low top prev) && (prev + header + (h prev).size == top)

unfoldable pub pages_needed : Headers → (size : ℕ) → (extends : Bool) → (prev : ℕ) → ℕ
pages_needed h size extends prev =
    (if extends then size + header - (h prev).size else size + header * 2) / 0x1000 + 1

-- The headers, `first_free` and `current_block` once the heap has `bytes` more.
pub record Grown : Type 0 where
  pub headers : Headers
  pub first_free : ℕ
  pub current : ℕ

-- The last block gets the pages.
unfoldable pub grow_tail : Headers → (top first_free prev bytes : ℕ) → Grown
unfolding put
grow_tail h top first_free prev bytes = record {
  headers = put h prev (record (h prev) { size = (h prev).size + bytes; next_free = top + bytes });
  first_free = first_free;
  current = prev;
}

-- The pages are a block of their own, and the last of the free list. The full mark is not set.
unfoldable pub grow_block : Headers → (low top first_free prev bytes : ℕ) → Grown
unfolding put empty_list
grow_block h low top first_free prev bytes =
    let h' = put h top (record {
      previous_chunk = 0;
      size = bytes - header;
      non_arena = false;
      is_mmapped = false;
      present = false;
      full = (h top).full;
      next_free = top + bytes;
    }) in
    let named = not (empty_list low top prev) && not ((h' prev).next_free == top) in
    record {
      headers = if named then put h' prev (record (h' prev) { next_free = top }) else h';
      first_free = if empty_list low top prev || leb top first_free then top else first_free;
      current = top;
    }

-- The growth for `size` bytes above `top`, in a heap from `low` on.
unfoldable pub grow : Headers → (low top first_free prev size : ℕ) → Grown × ℕ
unfolding grow_tail grow_block extend pages_needed
grow h low top first_free prev size =
    let extends = extend h low top prev in
    let bytes : ℕ = pages_needed h size extends prev * 0x1000 in
    (
      if extends
          then grow_tail h top first_free prev bytes
          else grow_block h low top first_free prev bytes,
      bytes,
    )

-- What is left of vmalloc once heap_alloc has answered with an address.
unfoldable pub serve : Alloced → Vmheap → Vmheap
serve r v = record v {
  headers = r.headers;
  first_free = r.first_free;
  vmheap_current_size = (v.vmheap_current_size + (r.headers (r.result - header)).size) % 2 ^ 64;
  alloc_count = (v.alloc_count + 1) % 2 ^ 64;
}

-- The pages of the growth are there, and it is made.
unfoldable pub grown : (Grown × ℕ) → Vmheap → (ℕ → Bool) → Vmheap
grown (g, bytes) v mapped = record v {
  headers = g.headers;
  first_free = g.first_free;
  vmheap_size = (v.vmheap_size + bytes) % 2 ^ 64;
  vmheap_current_top = v.vmheap_current_top + bytes;
  mapped = mapped;
}

-- The `else` branch of the loop: the failed call's result, or the state and the block to go on with.
pub data Growth : Type 0 where
  failed : Vmheap → Growth
  goes_on : Vmheap → ℕ → Growth

unfoldable pub try_grow : (fails : ℕ → Bool) → (size prev : ℕ) → Vmheap → Growth
unfolding grown add_pages
try_grow fails size prev v =
    let top : ℕ = v.vmheap_current_top in
    let g = grow v.headers virtual_start top v.first_free prev size in
    let (done, mapped) = add_pages fails top 0 (g.1 / 0x1000) v.mapped in
    if ltb virtual_top (top + g.1)
    then failed v
    else if done
    then goes_on (grown g v mapped) (g.0.current)
    else failed (record v { mapped = mapped })

-- The loop of vmalloc. A growth keeps `prev_block`.
unfoldable pub vmalloc_rounds :
    (fails : ℕ → Bool)
    → ℕ
    → (size current prev : ℕ) → (first_block : Bool) → Vmheap
    → Option (ℕ × Vmheap)
unfolding serve
vmalloc_rounds fails zero size current prev first_block v = none
vmalloc_rounds fails (suc fuel) size current prev first_block v =
    let r = heap_alloc v.headers size current prev v.vmheap_current_top v.first_free first_block in
    let on = vmalloc_rounds fails fuel size ((v.headers current).next_free) current false v in
    if ltb current v.vmheap_current_top && leb virtual_start current
    then (if r.result == 0 then on else some (r.result, serve r v))
    else elim (try_grow fails size prev v) [
      | failed v' ↦ some (0, v')
      | goes_on v' current' ↦ vmalloc_rounds fails fuel size current' prev false v'
    ]

unfoldable pub vmalloc : (fails : ℕ → Bool) → ℕ → (size : ℕ) → Vmheap → Option (ℕ × Vmheap)
vmalloc fails fuel size v =
    if ltb (max_block_size - header * 3) size
    then some (0, v)
    else vmalloc_rounds fails fuel (size + header * 3) v.first_free v.first_free true v

-- What is left of vmfree once heap_free has returned.
unfoldable pub give_back : (size : ℕ) → Option Freed → Vmheap → Option Vmheap
give_back size none v = none
give_back size (some r) v = some (record v {
  headers = r.headers;
  first_free = r.first_free;
  vmheap_current_size = (v.vmheap_current_size + 2 ^ 64 - size) % 2 ^ 64;
  free_count = (v.free_count + 1) % 2 ^ 64;
  alloc_count = (v.alloc_count + 2 ^ 64 - 1) % 2 ^ 64;
})

unfoldable pub vmfree : ℕ → (ptr : ℕ) → Vmheap → Option Vmheap
unfolding give_back
vmfree fuel ptr v =
    let block : ℕ = ptr - header in
    let size : ℕ = (v.headers block).size in
    let limit : ℕ = if ltb v.vmheap_size max_block_size then v.vmheap_size else max_block_size in
    let done =
      give_back size
        (heap_free fuel v.headers block (ptr + size) v.vmheap_current_top v.first_free limit) v in
    if not ((v.headers block).is_mmapped) then some v else done
