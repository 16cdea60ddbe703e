-- ===== src/Kheap/Search.antt =====
-- What kmalloc finds.
use balrog_os.Prelude.{
  ℕ, zero, suc, ◌+◌, ◌-◌, ◌%◌, ◌^◌, ◌≤◌, ◌<◌, ◌≡◌, refl, inl, inr, true, false, some, arith, ltb,
  leb, ◌==◌, Bool-cases, ltb→lt, leb→le, ◌∙◌,
}
use balrog_os.Heap.{header, heap_alloc}
use balrog_os.Heap.Serve.{heap_alloc-block}
use balrog_os.Kheap.{Kheap, guard_bytes, serve, search, kmalloc}

-- The blocks of the free list: `current` is one, each names a later one, until the end is reached.
pub record Chain (k : Kheap) (IsFree : ℕ → Type 0) : Type 0 where
  pub later : (x : ℕ) → IsFree x → x < k.kheap_end → x < (k.headers x).next_free
  pub closed : (x : ℕ) → IsFree x → x < k.kheap_end → IsFree ((k.headers x).next_free)
  pub free : (x : ℕ) → IsFree x → x < k.kheap_end → (k.headers x).is_mmapped ≡ false

-- An address, behind a header that was not marked allocated, is now, and has the size asked for.
pub data Answer (size : ℕ) (k : Kheap) (IsFree : ℕ → Type 0) (r : ℕ × Kheap) : Type 0 where
  nothing : r ≡ (0, k) → Answer size k IsFree r
  served :
      (current block : ℕ)
      → IsFree current
      → current < k.kheap_end
      → current ≤ block
      → r.0 ≡ block + header
      → block + header + size ≤ current + header + (k.headers current).size
      → (r.1.headers block).is_mmapped ≡ true
      → size ≤ (r.1.headers block).size
      → Answer size k IsFree r

module _ (k : Kheap) (IsFree : ℕ → Type 0) (chain : Chain k IsFree) (size : ℕ) where
  open chain use {later, closed}

  search_small :
      (fuel current prev : ℕ)
      → current < k.kheap_end
      → (k.headers current).size < size
      → search (suc fuel) size current prev k
        ≡ search fuel size ((k.headers current).next_free) current k
  unfolding search heap_alloc
  search_small fuel current prev low small = ground arith

  search_fits :
      (fuel current prev : ℕ)
      → IsFree current
      → current < k.kheap_end
      → size ≤ (k.headers current).size
      → (r : ℕ × Kheap) × (search (suc fuel) size current prev k ≡ some r) × Answer size k IsFree r
  search_fits fuel current prev is low fits =
      let r = heap_alloc k.headers size current prev k.kheap_end k.kfirst_free true in
      let (block, at, above, within, marked, large, _) =
        heap_alloc-block k.headers size current prev k.kheap_end k.kfirst_free true fits in
      let there : (r.result == 0) ≡ false = ground arith in
      let inside : ltb current k.kheap_end ≡ true = ground arith in
      (
        (r.result, serve r k),
        unfold search in rw (inside, there),
        served current block is low above at within (unfold serve in marked)
            (unfold serve in large),
      )

  search-Answer :
      (fuel current prev : ℕ)
      → IsFree current
      → k.kheap_end - current < fuel
      → (r : ℕ × Kheap) × (search fuel size current prev k ≡ some r) × Answer size k IsFree r
  search-Answer zero current prev is enough = absurd (omega arith)
  search-Answer (suc fuel) current prev is enough = elim (Bool-cases (ltb current k.kheap_end)) [
    | inl inside ↦
        let low = ltb→lt current (k.kheap_end) inside in
        elim (Bool-cases (leb size (k.headers current).size)) [
          | inl fits ↦
              search_fits fuel current prev is low (leb→le size ((k.headers current).size) fits)
          | inr small ↦
              let next = later current is low in
              let (r, e, a) =
                search-Answer fuel ((k.headers current).next_free) current (closed current is low)
                  (omega arith) in
              (r, search_small fuel current prev low (ground arith) ∙ e, a)
        ]
    | inr out ↦ ((0, k), unfold search in rw out, nothing refl)
  ]

-- If the free list goes up in addresses, there is more fuel than the heap has bytes behind its
-- first free block, and the size asked for and 72 bytes more are below 2^64, kmalloc returns: 0
-- with nothing changed, or an address that lies with the size asked for and 72 bytes more inside a
-- block of the free list, behind a header that is marked allocated and has at least that size.
pub kmalloc-Answer :
    (k : Kheap) (IsFree : ℕ → Type 0) (fuel size : ℕ)
    → Chain k IsFree
    → IsFree k.kfirst_free
    → k.kheap_end - k.kfirst_free < fuel
    → size + guard_bytes < 2 ^ 64
    → (r : ℕ × Kheap) × (kmalloc fuel size k ≡ some r) × Answer (size + guard_bytes) k IsFree r
unfolding kmalloc
kmalloc-Answer k IsFree fuel size chain is enough fits =
    let e : (size + guard_bytes) % 2 ^ 64 ≡ size + guard_bytes = omega arith in
    rw e
      (search-Answer k IsFree chain (size + guard_bytes) fuel k.kfirst_free k.kfirst_free is enough)
