-- ===== src/Vector/Tests.antt =====
-- A push on a full vector of one element.
use balrog_os.Prelude.{ℕ, ◌%◌, ◌≡◌, ◌⊎◌, refl, inl, inr, arith, minus_one}
use balrog_os.Memory.{Memory}
use balrog_os.Vector.{Vector, vector_push}
use balrog_os.Vector.Bytes.{Fit, Pushed, vector_push-Pushed}

abbrev counting : Memory
counting x = x % 256

abbrev full : Vector
full = record {
  current_size = 1;
  max_size = 1;
  mem_size = 4;
  data_size = 4;
  growth = 1;
  data_at = 100;
}

-- vmalloc with the address 200 for every size.
abbrev give : ℕ → ℕ
give n = 200

-- The buffers that there are.
abbrev Buffers : (a n : ℕ) → Type 0
Buffers a n = (a ≡ 200) ⊎ ((a ≡ 100) × (n ≡ 4))

full-Fit : Fit Buffers full
full-Fit = record {
  sized = refl;
  filled = omega arith;
  growing = omega arith;
  held = inr (refl, refl);
}

vector_push-Pushed_example :
    Pushed Buffers full counting 300 (vector_push give 300 full counting)
    ⊎ ((◌≡◌ {A = ℕ} 200 0)
        × (◌≡◌ {A = ℕ} 1 1)
        × (vector_push give 300 full counting ≡ (minus_one, full, counting)))
vector_push-Pushed_example =
    vector_push-Pushed Buffers give (λ n there. inl refl) full counting 300 full-Fit
      (inr (omega arith)) (inr (omega arith)) (inl (omega arith)) (inl (omega arith))
