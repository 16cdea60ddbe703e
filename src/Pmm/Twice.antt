-- ===== src/Pmm/Twice.antt =====
-- pmm_free accepts the page at the front itself, which then has two places.
use balrog_os.Prelude.{
  ℕ, suc, ◌+◌, ◌-◌, ◌%◌, ◌^◌, ◌<◌, ◌≡◌, refl, true, false, some, List, [], ◌∷◌, arith, ltb, leb,
  All,
}
use balrog_os.Pmm.{
  page_size, Pmm, inside, step_over, skip_reserved, cross_32, alloc_front, pmm_alloc, pmm_free,
  take_front,
}
use balrog_os.Pmm.Owners.{window, v2p-p2v}

step_over-outside :
    (rs : List (ℕ × ℕ)) (next : ℕ)
    → All (λ r. inside next r ≡ false) rs
    → step_over rs next false ≡ (next, false)
unfolding step_over
step_over-outside [] next out = refl
step_over-outside (r ∷ rs) next out = rw (out.0) (step_over-outside rs next (out.1))

skip_open :
    (fuel : ℕ) (rs : List (ℕ × ℕ)) (next : ℕ)
    → All (λ r. inside next r ≡ false) rs
    → skip_reserved (suc fuel) rs next ≡ some next
unfolding skip_reserved
skip_open fuel rs next out = ground (arith, step_over-outside rs next out)

-- A front that is allocatable as it stands is handed out as it stands.
front_open :
    (fuel : ℕ) (s : Pmm)
    → s.next_addr < s.pmm_top_addr
    → cross_32 s ≡ s.next_addr
    → All (λ r. inside (s.next_addr) r ≡ false) s.reserved
    → alloc_front (suc fuel) s ≡ some (take_front s (s.next_addr))
unfolding alloc_front
front_open fuel s room still out =
    let rest : leb s.pmm_top_addr s.next_addr ≡ false = ground arith in
    ground (arith, skip_open fuel s.reserved s.next_addr out)

-- The state behind the free and the first of the two calls.
abbrev served : Pmm → Pmm
served s = record s {
  last_free_q = [];
  total_memory_used = ((s.total_memory_used + 2 ^ 64 - page_size) % 2 ^ 64 + page_size) % 2 ^ 64;
}

freed_first :
    (fuel : ℕ) (s : Pmm)
    → s.last_free_q ≡ []
    → s.next_addr < window
    → pmm_alloc (suc fuel) (pmm_free true (s.next_addr) s) ≡ some (s.next_addr, served s)
unfolding pmm_alloc pmm_free
freed_first fuel s empty low =
    let same : ltb s.next_addr s.next_addr ≡ false = ground arith in
    rw (same, empty, v2p-p2v s.next_addr low)

-- In a state with an empty queue whose front is an allocatable page, freeing that page, which
-- nobody was handed, makes the next two calls of pmm_alloc return it both times.
pub front_page_twice :
    (fuel : ℕ) (s : Pmm)
    → s.last_free_q ≡ []
    → s.next_addr < s.pmm_top_addr
    → s.next_addr < window
    → cross_32 s ≡ s.next_addr
    → All (λ r. inside (s.next_addr) r ≡ false) s.reserved
    → (t u : Pmm) × (pmm_alloc (suc fuel) (pmm_free true (s.next_addr) s) ≡ some (s.next_addr, t))
      × (pmm_alloc (suc fuel) t ≡ some (s.next_addr, u))
unfolding pmm_alloc take_front cross_32
front_page_twice fuel s empty room low still out = (
  served s,
  (take_front (served s) (s.next_addr)).1,
  freed_first fuel s empty low,
  ground (arith, front_open fuel (served s) room still out),
)
