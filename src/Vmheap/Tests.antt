-- ===== src/Vmheap/Tests.antt =====
-- Runs of vmalloc on a heap of one page.
use balrog_os.Prelude.{ℕ, ◌+◌, ◌-◌, ◌≡◌, refl, ◌⊎◌, inl, inr, true, false, some, arith, [], ◌∷◌}
use balrog_os.Heap.{Headers}
use balrog_os.Heap.Tiling.{Tiles}
use balrog_os.Vmheap.{Vmheap, virtual_start, vmalloc}
use balrog_os.Vmheap.Search.{Chain, Answer, vmalloc-Answer}

-- One free block of a page and its header.
abbrev only : Headers
only a = record {
  previous_chunk = 0;
  size = 0x1000 - 24;
  non_arena = false;
  is_mmapped = false;
  present = false;
  full = false;
  next_free = virtual_start + 0x1000;
}

abbrev fresh : Vmheap
fresh = record {
  headers = only;
  vmheap_current_top = virtual_start + 0x1000;
  first_free = virtual_start;
  vmheap_size = 0x1000;
  vmheap_current_size = 0;
  alloc_count = 0;
  free_count = 0;
  mapped = λ a. true;
}

abbrev Listed : ℕ → Type 0
Listed x = (x ≡ virtual_start) ⊎ (x ≡ virtual_start + 0x1000)

fresh-Chain : Chain fresh Listed
fresh-Chain = record {
  later = λ x is low. low;
  closed = λ x is low. inr refl;
  ends = λ x is low. elim is [ inl at ↦ omega arith | inr top ↦ absurd (omega arith) ];
}

-- 5000 bytes do not fit, so the heap grows.
vmalloc-Answer_example :
    (r : ℕ × Vmheap) × (vmalloc (λ a. false) 5001 5000 fresh ≡ some r) × Answer 5072 r
vmalloc-Answer_example =
    vmalloc-Answer (λ a. false) fresh Listed 5000 5000 fresh-Chain (inl refl) (omega arith)
      (omega arith)

only_tiles : Tiles only virtual_start (virtual_start + 0x1000) ((0x1000 - 24) ∷ [])
only_tiles = (refl, omega arith)
