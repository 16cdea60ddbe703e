-- ===== src/Malloc/Search.antt =====
-- malloc returns, and what it returns.
use balrog_os.Prelude.{
  ℕ, zero, suc, ◌+◌, ◌-◌, ◌*◌, ◌≤◌, ◌<◌, ◌≡◌, refl, ◌∙◌, inl, inr, Bool, true, false, ◌&&◌, ◌||◌,
  some, arith, ltb, leb, ◌==◌, Bool-cases, leb→le,
}
use balrog_os.Heap.{header, heap_alloc}
use balrog_os.Heap.Serve.{heap_alloc-block}
use balrog_os.Vmheap.{grow, extend, empty_list}
use balrog_os.Vmheap.Grow.{grow_room, grow_current, grow_ends}
use balrog_os.Malloc.{
  Malloc, served_heap, heap_start, process_heap_end, malloc_max_block_size, prepare, enlarged,
  malloc_rounds, malloc,
}

-- The free list of the heap: each block names a later one, until the top is reached, and ends within
-- the heap.
pub record Chain (m : Malloc) (IsFree : ℕ → Type 0) : Type 0 where
  pub later : (x : ℕ) → IsFree x → x < m.heap_top → x < (m.headers x).next_free
  pub closed : (x : ℕ) → IsFree x → x < m.heap_top → IsFree ((m.headers x).next_free)
  pub ends : (x : ℕ) → IsFree x → x < m.heap_top → x + header + (m.headers x).size ≤ m.heap_top

-- 0, or the address behind the header of a block that lies in the heap, is marked allocated, and has
-- the size asked for.
pub data Answer (size : ℕ) (r : ℕ × Malloc) : Type 0 where
  refused : r.0 ≡ 0 → Answer size r
  served :
      (block : ℕ)
      → r.0 ≡ block + header
      → heap_start ≤ block
      → block + header + (r.1.headers block).size ≤ r.1.heap_top
      → (r.1.headers block).is_mmapped ≡ true
      → size ≤ (r.1.headers block).size
      → Answer size r

module _ (refuses : ℕ → Bool) (size : ℕ) where
  rounds_fit :
      (fuel current prev : ℕ) (first_block : Bool) (m : Malloc)
      → heap_start ≤ current
      → current < m.heap_top
      → current + header + (m.headers current).size ≤ m.heap_top
      → size ≤ (m.headers current).size
      → (r : ℕ × Malloc) × (malloc_rounds refuses (suc fuel) size current prev first_block m
          ≡ some r)
        × Answer size r
  rounds_fit fuel current prev first_block m above low inner fits =
      let r = heap_alloc m.headers size current prev m.heap_top m.first_free first_block in
      let (block, at, from, within, marked, large, ends) =
        heap_alloc-block m.headers size current prev m.heap_top m.first_free first_block fits in
      let there : (r.result == 0) ≡ false = ground arith in
      let inside : (ltb current m.heap_top && leb heap_start current) ≡ true = ground arith in
      (
        (r.result, served_heap r m),
        unfold malloc_rounds in rw (inside, there),
        served block at (omega arith) (omega (arith, ends, inner)) marked large,
      )

  rounds_small :
      (fuel current prev : ℕ) (first_block : Bool) (m : Malloc)
      → (ltb current m.heap_top && leb heap_start current) ≡ true
      → (m.headers current).size < size
      → malloc_rounds refuses (suc fuel) size current prev first_block m
        ≡ malloc_rounds refuses fuel size ((m.headers current).next_free) current false m
  unfolding malloc_rounds heap_alloc
  rounds_small fuel current prev first_block m inside small = ground arith

  rounds_grow :
      (fuel current prev : ℕ) (first_block : Bool) (m : Malloc)
      → heap_start ≤ m.heap_top
      → (ltb current m.heap_top && leb heap_start current) ≡ false
      → (extend m.headers heap_start m.heap_top prev ≡ true → (m.headers prev).size < size)
      → (r : ℕ × Malloc) × (malloc_rounds refuses (suc (suc fuel)) size current prev first_block m
          ≡ some r)
        × Answer size r
  rounds_grow fuel current prev first_block m low out small =
      let g = grow m.headers heap_start m.heap_top m.first_free prev size in
      let room = grow_room m.headers heap_start m.heap_top m.first_free prev size small in
      let full_length = grow_ends m.headers heap_start m.heap_top m.first_free prev size in
      let (above, below) =
        grow_current m.headers heap_start m.heap_top m.first_free prev size low in
      elim (Bool-cases (leb process_heap_end current || refuses (m.heap_top + g.1))) [
        | inl full ↦ ((0, m), unfold malloc_rounds in rw (out, full), refused refl)
        | inr space ↦
            let (r, e, a) =
              rounds_fit fuel (g.0.current) prev false (enlarged g m) above below
                (omega (arith, full_length)) (omega (arith, room)) in
            (r, unfold malloc_rounds in (rw (out, space) e), a)
      ]

module _ (refuses : ℕ → Bool) (m : Malloc) (IsFree : ℕ → Type 0) (chain : Chain m IsFree)
    (above : heap_start ≤ m.heap_top) (size : ℕ) where
  open chain use {later, closed, ends}

  rounds-Answer :
      (fuel current prev : ℕ) (first_block : Bool)
      → IsFree current
      → m.heap_top - current < fuel
      → ((ltb current m.heap_top && leb heap_start current) ≡ false
          → extend m.headers heap_start m.heap_top prev ≡ true
          → (m.headers prev).size < size)
      → (r : ℕ × Malloc) × (malloc_rounds refuses (suc fuel) size current prev first_block m
          ≡ some r)
        × Answer size r
  rounds-Answer zero current prev first_block is enough small = absurd (omega arith)
  rounds-Answer (suc fuel) current prev first_block is enough small =
      elim (Bool-cases (ltb current m.heap_top && leb heap_start current)) [
        | inr out ↦ rounds_grow refuses size fuel current prev first_block m above out (small out)
        | inl inside ↦
            let low : current < m.heap_top = ground arith in
            let from : heap_start ≤ current = ground arith in
            elim (Bool-cases (leb size (m.headers current).size)) [
              | inl fits ↦
                  rounds_fit refuses size (suc fuel) current prev first_block m from low
                    (ends current is low) (leb→le size ((m.headers current).size) fits)
              | inr less ↦
                  let next = later current is low in
                  let tried : (m.headers current).size < size = ground arith in
                  let (r, e, a) =
                    rounds-Answer fuel ((m.headers current).next_free) current false
                      (closed current is low) (omega arith) (λ _ _. tried) in
                  (
                    r,
                    rounds_small refuses size (suc fuel) current prev first_block m inside tried
                        ∙ e,
                    a,
                  )
            ]
      ]

-- If the blocks of the free list go up in addresses and end within the heap, once the first call
-- has made it, and there are two units of fuel more than the heap has bytes behind its first free
-- block, malloc returns, whether or not it grows the heap and whatever brk answers: 0, or the
-- address behind the header of a block that lies between the start and the top of the heap, is
-- marked allocated and has at least the size asked for and 72 bytes more.
pub malloc-Answer :
    (refuses : ℕ → Bool) (m : Malloc) (IsFree : ℕ → Type 0) (fuel size : ℕ)
    → Chain (prepare m) IsFree
    → IsFree ((prepare m).first_free)
    → heap_start ≤ (prepare m).heap_top
    → (prepare m).heap_top - (prepare m).first_free < fuel
    → (r : ℕ × Malloc) × (malloc refuses (suc fuel) size m ≡ some r) × Answer (size + header * 3) r
unfolding malloc
malloc-Answer refuses m IsFree fuel size chain is above enough =
    let p = prepare m in
    elim (Bool-cases (ltb (malloc_max_block_size - header * 3) size)) [
      | inl large ↦ ((0, m), rw large, refused refl)
      | inr fits ↦
          let (r, e, a) =
            rounds-Answer refuses p IsFree chain above (size + header * 3) fuel p.first_free
              p.first_free true is enough
              (λ out last. absurd (unfold extend empty_list in ground arith)) in
          (r, rw fits e, a)
    ]
