-- ===== src/Vmheap/Search.antt =====
-- vmalloc returns, and what it returns.
use balrog_os.Prelude.{
  ℕ, zero, suc, ◌+◌, ◌-◌, ◌*◌, ◌/◌, ◌≤◌, ◌<◌, ◌≡◌, refl, ◌∙◌, inl, inr, Bool, true, false, ◌&&◌,
  some, arith, ltb, leb, ◌==◌, Bool-cases, leb→le,
}
use balrog_os.Heap.{header, heap_alloc}
use balrog_os.Heap.Serve.{heap_alloc-block}
use balrog_os.Vmheap.{
  Vmheap, virtual_start, virtual_top, max_block_size, grow, extend, empty_list, add_pages, serve,
  grown, try_grow, vmalloc_rounds, vmalloc,
}
use balrog_os.Vmheap.Grow.{grow_room, grow_current, grow_ends}

-- The free list of the heap: each block names a later one, until the top is reached, and ends within
-- the heap.
pub record Chain (v : Vmheap) (IsFree : ℕ → Type 0) : Type 0 where
  pub later : (x : ℕ) → IsFree x → x < v.vmheap_current_top → x < (v.headers x).next_free
  pub closed : (x : ℕ) → IsFree x → x < v.vmheap_current_top → IsFree ((v.headers x).next_free)
  pub ends :
      (x : ℕ)
      → IsFree x
      → x < v.vmheap_current_top
      → x + header + (v.headers x).size ≤ v.vmheap_current_top

-- 0, or the address behind the header of a block that lies in the heap, is marked allocated, and has
-- the size asked for.
pub data Answer (size : ℕ) (r : ℕ × Vmheap) : Type 0 where
  refused : r.0 ≡ 0 → Answer size r
  served :
      (block : ℕ)
      → r.0 ≡ block + header
      → virtual_start ≤ block
      → block + header + (r.1.headers block).size ≤ r.1.vmheap_current_top
      → (r.1.headers block).is_mmapped ≡ true
      → size ≤ (r.1.headers block).size
      → Answer size r

module _ (fails : ℕ → Bool) (size : ℕ) where
  rounds_fit :
      (fuel current prev : ℕ) (first_block : Bool) (v : Vmheap)
      → virtual_start ≤ current
      → current < v.vmheap_current_top
      → current + header + (v.headers current).size ≤ v.vmheap_current_top
      → size ≤ (v.headers current).size
      → (r : ℕ × Vmheap) × (vmalloc_rounds fails (suc fuel) size current prev first_block v
          ≡ some r)
        × Answer size r
  rounds_fit fuel current prev first_block v above low inner fits =
      let r =
        heap_alloc v.headers size current prev v.vmheap_current_top v.first_free first_block in
      let (block, at, from, within, marked, large, ends) =
        heap_alloc-block v.headers size current prev v.vmheap_current_top v.first_free first_block
          fits in
      let there : (r.result == 0) ≡ false = ground arith in
      let inside : (ltb current v.vmheap_current_top && leb virtual_start current) ≡ true =
        ground arith in
      (
        (r.result, serve r v),
        unfold vmalloc_rounds in rw (inside, there),
        served block at (omega arith) (unfold serve in omega (arith, ends, inner))
            (unfold serve in marked) (unfold serve in large),
      )

  rounds_small :
      (fuel current prev : ℕ) (first_block : Bool) (v : Vmheap)
      → (ltb current v.vmheap_current_top && leb virtual_start current) ≡ true
      → (v.headers current).size < size
      → vmalloc_rounds fails (suc fuel) size current prev first_block v
        ≡ vmalloc_rounds fails fuel size ((v.headers current).next_free) current false v
  unfolding vmalloc_rounds heap_alloc
  rounds_small fuel current prev first_block v inside small = ground arith

  rounds_grow :
      (fuel current prev : ℕ) (first_block : Bool) (v : Vmheap)
      → virtual_start ≤ v.vmheap_current_top
      → (ltb current v.vmheap_current_top && leb virtual_start current) ≡ false
      → (extend v.headers virtual_start v.vmheap_current_top prev ≡ true
          → (v.headers prev).size < size)
      → (r : ℕ × Vmheap) × (vmalloc_rounds fails (suc (suc fuel)) size current prev first_block v
          ≡ some r)
        × Answer size r
  rounds_grow fuel current prev first_block v low out small =
      let g = grow v.headers virtual_start v.vmheap_current_top v.first_free prev size in
      let back = add_pages fails v.vmheap_current_top 0 (g.1 / 0x1000) v.mapped in
      let room =
        grow_room v.headers virtual_start v.vmheap_current_top v.first_free prev size small in
      let full_length =
        grow_ends v.headers virtual_start v.vmheap_current_top v.first_free prev size in
      let (above, below) =
        grow_current v.headers virtual_start v.vmheap_current_top v.first_free prev size low in
      elim (Bool-cases (ltb virtual_top (v.vmheap_current_top + g.1))) [
        | inl full ↦ ((0, v), unfold vmalloc_rounds try_grow in rw (out, full), refused refl)
        | inr space ↦ elim (Bool-cases (back.0)) [
          | inl done ↦
              let (r, e, a) =
                rounds_fit fuel (g.0.current) prev false (grown g v (back.1)) above
                  (unfold grown in below) (unfold grown in omega (arith, full_length))
                  (unfold grown in omega (arith, room)) in
              (r, unfold vmalloc_rounds try_grow in (rw (out, space, done) e), a)
          | inr missing ↦ (
            (0, record v { mapped = back.1 }),
            unfold vmalloc_rounds try_grow in rw (out, space, missing),
            refused refl,
          )
        ]
      ]

module _ (fails : ℕ → Bool) (v : Vmheap) (IsFree : ℕ → Type 0) (chain : Chain v IsFree)
    (above : virtual_start ≤ v.vmheap_current_top) (size : ℕ) where
  open chain use {later, closed, ends}

  rounds-Answer :
      (fuel current prev : ℕ) (first_block : Bool)
      → IsFree current
      → v.vmheap_current_top - current < fuel
      → ((ltb current v.vmheap_current_top && leb virtual_start current) ≡ false
          → extend v.headers virtual_start v.vmheap_current_top prev ≡ true
          → (v.headers prev).size < size)
      → (r : ℕ × Vmheap) × (vmalloc_rounds fails (suc fuel) size current prev first_block v
          ≡ some r)
        × Answer size r
  rounds-Answer zero current prev first_block is enough small = absurd (omega arith)
  rounds-Answer (suc fuel) current prev first_block is enough small =
      elim (Bool-cases (ltb current v.vmheap_current_top && leb virtual_start current)) [
        | inr out ↦ rounds_grow fails size fuel current prev first_block v above out (small out)
        | inl inside ↦
            let low : current < v.vmheap_current_top = ground arith in
            let from : virtual_start ≤ current = ground arith in
            elim (Bool-cases (leb size (v.headers current).size)) [
              | inl fits ↦
                  rounds_fit fails size (suc fuel) current prev first_block v from low
                    (ends current is low) (leb→le size ((v.headers current).size) fits)
              | inr less ↦
                  let next = later current is low in
                  let tried : (v.headers current).size < size = ground arith in
                  let (r, e, a) =
                    rounds-Answer fuel ((v.headers current).next_free) current false
                      (closed current is low) (omega arith) (λ _ _. tried) in
                  (
                    r,
                    rounds_small fails size (suc fuel) current prev first_block v inside tried ∙ e,
                    a,
                  )
            ]
      ]

-- If the blocks of the free list go up in addresses and end within the heap, and there are two
-- units of fuel more than the heap has bytes behind its first free block, vmalloc returns, whether
-- or not it grows the heap and whichever pages are missing: 0, or the address behind the header of
-- a block that lies between the start and the top of the heap, is marked allocated and has at
-- least the size asked for and 72 bytes more.
pub vmalloc-Answer :
    (fails : ℕ → Bool) (v : Vmheap) (IsFree : ℕ → Type 0) (fuel size : ℕ)
    → Chain v IsFree
    → IsFree v.first_free
    → virtual_start ≤ v.vmheap_current_top
    → v.vmheap_current_top - v.first_free < fuel
    → (r : ℕ × Vmheap) × (vmalloc fails (suc fuel) size v ≡ some r) × Answer (size + header * 3) r
unfolding vmalloc
vmalloc-Answer fails v IsFree fuel size chain is above enough =
    elim (Bool-cases (ltb (max_block_size - header * 3) size)) [
      | inl large ↦ ((0, v), rw large, refused refl)
      | inr fits ↦
          let (r, e, a) =
            rounds-Answer fails v IsFree chain above (size + header * 3) fuel v.first_free
              v.first_free true is enough
              (λ out last. absurd (unfold extend empty_list in ground arith)) in
          (r, rw fits e, a)
    ]
