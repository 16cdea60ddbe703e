-- ===== src/Pmm/Pages.antt =====
-- pmm_reserve covers the range that it is given, and pmm_calloc clears its page.
use balrog_os.Prelude.{
  ℕ, ◌+◌, ◌-◌, ◌%◌, ◌^◌, ◌≤◌, ◌<◌, ◌≡◌, true, ◌&&◌, some, [], ◌∷◌, ◌++◌, arith, ltb, leb, ◌==◌,
  length, if◌then◌else◌,
}
use balrog_os.Memory.{Memory}
use balrog_os.Memory.Blocks.{memset_lem}
use balrog_os.Pmm.{
  page_size, align_down, max_reserved, Pmm, inside, pmm_reserve, pmm_alloc, pmm_calloc, clear_page,
  p2v,
}

-- While a slot is left pmm_reserve adds one range, with page-aligned ends, that holds every address
-- of the range asked for.
pub pmm_reserve-covers :
    (start size x : ℕ) (s : Pmm)
    → length s.reserved < max_reserved
    → start + size + page_size < 2 ^ 64
    → start ≤ x
    → x < start + size
    → (r : ℕ × ℕ) × ((pmm_reserve start size s).reserved ≡ s.reserved ++ (r ∷ []))
      × (inside x r ≡ true)
      × (r.0 % page_size ≡ 0)
      × (r.1 % page_size ≡ 0)
unfolding pmm_reserve
pmm_reserve-covers start size x s slot fits low high = (
  (align_down start, align_down ((start + size + page_size - 1) % 2 ^ 64)),
  ground arith,
  ground arith,
  omega arith,
  omega arith,
)

-- When all slots are taken the range is not reserved, and nothing changes.
pub pmm_reserve-full :
    (start size : ℕ) (s : Pmm) → length s.reserved ≡ max_reserved → pmm_reserve start size s ≡ s
unfolding pmm_reserve
pmm_reserve-full start size s full = ground arith

-- pmm_calloc hands out what pmm_alloc does; a page that it hands out is all zeros in the linear
-- window, and every other byte of memory is as before. Without a page memory stays as it is.
pub pmm_calloc-clears :
    (fuel p x : ℕ) (s t : Pmm) (m : Memory)
    → pmm_alloc fuel s ≡ some (p, t)
    → (m' : Memory) × (pmm_calloc fuel s m ≡ some ((p, t), m'))
      × (m' x
          ≡ (if p == 0 then m x else if leb (p2v p) x && ltb x (p2v p + page_size) then 0 else m x))
unfolding pmm_calloc clear_page
pmm_calloc-clears fuel p x s t m e = (
  (clear_page (p, t) m).1,
  rw (e, pmm_calloc),
  ground (arith, memset_lem m (p2v p) 0 page_size x),
)
