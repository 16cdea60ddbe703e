-- ===== src/Malloc/Tests.antt =====
-- Runs of malloc in a fresh process.
use balrog_os.Prelude.{ℕ, ◌+◌, ◌≡◌, refl, ◌⊎◌, inl, inr, false, some, arith}
use balrog_os.Heap.{Headers, put}
use balrog_os.Malloc.{Malloc, heap_start, prepare, malloc}
use balrog_os.Malloc.Search.{Chain, Answer, malloc-Answer}

-- Memory of zeros.
abbrev zeros : Headers
zeros a = record {
  previous_chunk = 0;
  size = 0;
  non_arena = false;
  is_mmapped = false;
  present = false;
  full = false;
  next_free = 0;
}

abbrev fresh : Malloc
fresh = record { headers = zeros; heap_top = heap_start + 0x1000; first_free = 0 }

abbrev Listed : ℕ → Type 0
Listed x = (x ≡ heap_start) ⊎ (x ≡ heap_start + 0x1000)

fresh-Chain : Chain (prepare fresh) Listed
unfolding prepare put
fresh-Chain = record {
  later = λ x is low. elim is [ inl at ↦ rw at (omega arith) | inr top ↦ absurd (omega arith) ];
  closed = λ x is low. elim is [ inl at ↦ rw at (inr refl) | inr top ↦ absurd (omega arith) ];
  ends = λ x is low. elim is [ inl at ↦ rw at (omega arith) | inr top ↦ absurd (omega arith) ];
}

malloc-Answer_example :
    (r : ℕ × Malloc) × (malloc (λ a. false) 5001 5000 fresh ≡ some r) × Answer 5072 r
malloc-Answer_example =
    malloc-Answer (λ a. false) fresh Listed 5000 5000 fresh-Chain (unfold prepare in inl refl)
      (unfold prepare in omega arith) (unfold prepare in omega arith)
