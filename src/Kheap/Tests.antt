-- ===== src/Kheap/Tests.antt =====
-- Runs of kmalloc on a heap of one free block.
use balrog_os.Prelude.{ℕ, ◌≡◌, refl, ◌⊎◌, inl, inr, true, false, some, [], ◌∷◌, arith}
use balrog_os.Heap.{Headers}
use balrog_os.Heap.Tiling.{Tiles}
use balrog_os.Heap.Free.{Ascends}
use balrog_os.Kheap.{Kheap, kmalloc}
use balrog_os.Kheap.Search.{Chain, Answer, kmalloc-Answer}

-- A free block of 1000 bytes at 4096, up to the end of the heap.
abbrev only : Headers
only a = record {
  previous_chunk = 0;
  size = 1000;
  non_arena = false;
  is_mmapped = false;
  present = false;
  full = false;
  next_free = 5120;
}

abbrev fresh : Kheap
fresh = record {
  headers = only;
  kheap_start = 4096;
  kheap_end = 5120;
  kfirst_free = 4096;
  kheap_size = 0;
}

abbrev Listed : ℕ → Type 0
Listed x = (x ≡ 4096) ⊎ (x ≡ 5120)

fresh-Chain : Chain fresh Listed
fresh-Chain = record {
  later = λ x is low. low;
  closed = λ x is low. inr refl;
  free = λ x is low. refl;
}

kmalloc-Answer_example :
    (r : ℕ × Kheap) × (kmalloc 2000 40 fresh ≡ some r) × Answer 112 fresh Listed r
kmalloc-Answer_example =
    kmalloc-Answer fresh Listed 2000 40 fresh-Chain (inl refl) (omega arith) (omega arith)

-- One allocated block over the whole heap.
abbrev taken : Headers
taken a = record {
  previous_chunk = 0;
  size = 1000;
  non_arena = false;
  is_mmapped = true;
  present = false;
  full = true;
  next_free = 0;
}

abbrev taken_heap : Kheap
taken_heap = record fresh { headers = taken; kfirst_free = 5120; kheap_size = 1000 }

taken_tiles : Tiles taken 4096 5120 (1000 ∷ [])
taken_tiles = (refl, refl)

taken-Ascends : Ascends (λ x. x ≡ 5120) taken 4096
taken-Ascends x at l = inl refl
