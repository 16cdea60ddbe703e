-- ===== src/Heap/Serve.antt =====
-- What heap_alloc serves, for the heaps that search a free list.
use balrog_os.Prelude.{ℕ, ◌+◌, ◌-◌, ◌≤◌, ◌≡◌, Bool, true, arith, leb, Bool-cases, inl, inr}
use balrog_os.Heap.{Headers, header, Alloced, set_block, alloc_whole, alloc_split, heap_alloc, put}

module _ (h : Headers) (size current prev top first_free : ℕ) (first_block : Bool)
    (fits : size ≤ (h current).size) where
  abbrev pub answer : Alloced
  answer = heap_alloc h size current prev top first_free first_block

  -- A block that is large enough is served: the address lies with the size asked for inside it, behind
  -- a header that is marked allocated and has at least that size.
  pub heap_alloc-block :
      (block : ℕ) × (answer.result ≡ block + header)
      × (current ≤ block)
      × (block + header + size ≤ current + header + (h current).size)
      × ((answer.headers block).is_mmapped ≡ true)
      × (size ≤ (answer.headers block).size)
      × (block + header + (answer.headers block).size ≤ current + header + (h current).size)
  unfolding heap_alloc alloc_whole alloc_split set_block put
  heap_alloc-block = elim (Bool-cases (leb (h current).size (size + header))) [
    | inl whole ↦ (
      current,
      ground arith,
      ground arith,
      ground arith,
      ground arith,
      ground arith,
      ground arith,
    )
    | inr room ↦ (
      current + ((h current).size - (size + header)) + header,
      ground arith,
      ground arith,
      ground arith,
      ground arith,
      ground arith,
      ground arith,
    )
  ]
