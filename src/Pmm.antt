-- ===== src/Pmm.antt =====
-- src/kernel/memory/pmm.c: the physical page allocator. Pages come from a queue of freed pages, or
-- from a front `next_addr` that steps over reserved ranges. Physical addresses are numbers; the
-- counters wrap as uint64_t. The queue is the FIFO list that a queue_t holds: `node` says whether
-- kmalloc gave queue_enqueue a node, which drops the value silently otherwise. `init_pmm` is not
-- modelled. The logging calls are left out.
pub mod Skip
pub mod Front
pub mod Owners
pub mod Pages
pub mod Twice
mod Tests
use balrog_os.Prelude.{
  ℕ, zero, suc, ◌+◌, ◌-◌, ◌*◌, ◌/◌, ◌%◌, ◌^◌, Bool, true, false, ◌&&◌, ◌||◌, Option, none, some,
  List, [], ◌∷◌, ◌++◌, ltb, leb, ◌==◌, if◌then◌else◌, length,
}
use balrog_os.Memory.{Memory, memset}

abbrev pub page_size : ℕ
page_size = 4096

-- KERNEL_MAP_BASE and KERNEL_TEXT_BASE of include/balrog_os/memory/memory.h
abbrev pub kernel_map_base : ℕ
kernel_map_base = 0xFFFFFF8000000000

abbrev pub kernel_text_base : ℕ
kernel_text_base = 0xFFFFFFFF80000000

-- `addr | KERNEL_MAP_BASE`: the base is all ones above bit 39, so the low 39 bits stay.
unfoldable pub p2v : ℕ → ℕ
p2v addr = kernel_map_base + addr % 2 ^ 39

-- `addr & ~KERNEL_MAP_BASE` keeps the low 39 bits.
unfoldable pub v2p : ℕ → ℕ
v2p addr = if leb kernel_text_base addr then addr - kernel_text_base else addr % 2 ^ 39

-- `x & ~(PAGE_SIZE - 1)`
abbrev pub align_down : ℕ → ℕ
align_down x = x / 4096 * 4096

-- PMM_MAX_RESERVED
abbrev pub max_reserved : ℕ
max_reserved = 8

-- The static variables. `reserved` is the first `reserved_count` entries of `reserved_start` and
-- `reserved_end`, and `refused` the counter of pmm_free.
pub record Pmm : Type 0 where
  pub next_addr : ℕ
  pub top_32_addr : ℕ
  pub pmm_top_addr : ℕ
  pub last_free_q : List ℕ
  pub reserved : List (ℕ × ℕ)
  pub total_memory_used : ℕ
  pub refused : ℕ

unfoldable pub pmm_reserve : (start size : ℕ) → Pmm → Pmm
pmm_reserve start size s = if length s.reserved == max_reserved then s else record s {
  reserved =
      s.reserved ++ ((align_down start, align_down ((start + size + page_size - 1) % 2 ^ 64)) ∷ []);
}

-- queue_enqueue
abbrev pub enqueue : Bool → ℕ → List ℕ → List ℕ
enqueue node value q = if node then q ++ (value ∷ []) else q

unfoldable pub pmm_free : (node : Bool) → ℕ → Pmm → Pmm
unfolding p2v
pmm_free node addr s =
    if ltb s.next_addr addr then record s { refused = (s.refused + 1) % 2 ^ 64 } else record s {
      last_free_q = enqueue node (p2v addr) s.last_free_q;
      total_memory_used = (s.total_memory_used + 2 ^ 64 - page_size) % 2 ^ 64;
    }

abbrev pub inside : ℕ → ℕ × ℕ → Bool
inside next (start, end) = leb start next && ltb next end

-- The `for` loop over the reserved ranges: the front, and whether it moved.
unfoldable pub step_over : List (ℕ × ℕ) → ℕ → Bool → ℕ × Bool
step_over [] next moved = (next, moved)
step_over (r ∷ rs) next moved =
    step_over rs (if inside next r then r.1 else next) (inside next r || moved)

-- The `while(moved)` loop. `none`: the fuel ran out.
unfoldable pub skip_reserved : ℕ → List (ℕ × ℕ) → ℕ → Option ℕ
unfolding step_over
skip_reserved zero rs next = none
skip_reserved (suc fuel) rs next = elim ((step_over rs next false).1) [
  | true ↦ skip_reserved fuel rs ((step_over rs next false).0)
  | false ↦ some ((step_over rs next false).0)
]

-- A page or 0, and the state behind it.
abbrev pub Alloc : Type 0
Alloc = ℕ × Pmm

-- The front once the reserved ranges are behind it.
unfoldable pub take_front : Pmm → ℕ → Alloc
take_front s next = if leb s.pmm_top_addr next then (0, record s { next_addr = next }) else (
  next,
  record s {
    next_addr = next + page_size;
    total_memory_used = (s.total_memory_used + page_size) % 2 ^ 64;
  },
)

-- `next_addr` when it has reached the top of 32-bit memory: 4 GiB. Pointers wrap in
-- `top_32_addr - 0x1000`.
unfoldable pub cross_32 : Pmm → ℕ
cross_32 s =
    if leb ((s.top_32_addr + 2 ^ 64 - 0x1000) % 2 ^ 64) s.next_addr && ltb s.next_addr 0x100000000
    then 0x100000000
    else s.next_addr

-- The `else` branch of pmm_alloc. `next_addr` keeps the steps that it took when 0 is returned.
unfoldable pub alloc_front : ℕ → Pmm → Option Alloc
unfolding cross_32 skip_reserved take_front
alloc_front fuel s =
    if leb s.pmm_top_addr s.next_addr
    then some (0, s)
    else if leb s.pmm_top_addr (cross_32 s)
    then some (0, record s { next_addr = cross_32 s })
    else elim (skip_reserved fuel s.reserved (cross_32 s)) [
      | none ↦ none
      | some next ↦ some (take_front s next)
    ]

-- The queue of freed pages first.
unfoldable pub alloc_from : ℕ → List ℕ → Pmm → Option Alloc
unfolding alloc_front v2p
alloc_from fuel [] s = alloc_front fuel s
alloc_from fuel (addr ∷ q) s = some (
  v2p addr,
  record s { last_free_q = q; total_memory_used = (s.total_memory_used + page_size) % 2 ^ 64 },
)

unfoldable pub pmm_alloc : ℕ → Pmm → Option Alloc
unfolding alloc_from
pmm_alloc fuel s = alloc_from fuel s.last_free_q s

-- The page is cleared through the linear window, unless there is none.
unfoldable pub clear_page : Alloc → Memory → Alloc × Memory
unfolding p2v
clear_page (p, s) m = ((p, s), if p == 0 then m else (memset m (p2v p) 0 page_size).0)

unfoldable pub pmm_calloc : ℕ → Pmm → Memory → Option (Alloc × Memory)
unfolding pmm_alloc clear_page
pmm_calloc fuel s m = elim (pmm_alloc fuel s) [ none ↦ none | some a ↦ some (clear_page a m) ]
