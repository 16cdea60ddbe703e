-- ===== src/Pmm/Skip.antt =====
-- The loop of pmm_alloc over the reserved ranges ends, and ends outside all of them.
use mathlib.Core.List.{append_assoc}
use balrog_os.Prelude.{
  ℕ, zero, suc, ◌+◌, ◌≤◌, ◌<◌, ◌≡◌, refl, ◌∙◌, Bool, true, false, inl, inr, some, List, [], ◌∷◌,
  ◌++◌, arith, ltb, if◌then◌else◌, Bool-cases, length, All,
}
use balrog_os.Pmm.{inside, step_over, skip_reserved}

-- The ranges that end above the front.
abbrev above : List (ℕ × ℕ) → ℕ → ℕ
above [] next = 0
above (r ∷ rs) next = (if ltb next r.1 then 1 else 0) + above rs next

above_mono : (rs : List (ℕ × ℕ)) (a b : ℕ) → a ≤ b → above rs b ≤ above rs a
above_mono [] a b h = omega arith
above_mono (r ∷ rs) a b h = ground (arith, above_mono rs a b h)

above-le-length : (rs : List (ℕ × ℕ)) (a : ℕ) → above rs a ≤ length rs
above-le-length [] a = omega arith
above-le-length (r ∷ rs) a = ground (arith, above-le-length rs a)

-- Stepping to the end of a range that ends above the front leaves fewer.
above_step :
    (pre rs : List (ℕ × ℕ)) (r : ℕ × ℕ) (next : ℕ)
    → next < r.1
    → above (pre ++ (r ∷ rs)) r.1 < above (pre ++ (r ∷ rs)) next
above_step [] rs r next h = ground (arith, above_mono rs next (r.1) (omega arith))
above_step (p ∷ pre) rs r next h = ground (arith, above_step pre rs r next h)

step_over-above :
    (pre rs : List (ℕ × ℕ)) (next : ℕ) (moved : Bool)
    → (next ≤ (step_over rs next moved).0)
      × (above (pre ++ rs) ((step_over rs next moved).0)
            + (if (step_over rs next moved).1 then 1 else 0)
          ≤ above (pre ++ rs) next + (if moved then 1 else 0))
unfolding step_over
step_over-above pre [] next moved = (omega arith, omega arith)
step_over-above pre (r ∷ rs) next moved = elim (Bool-cases (inside next r)) [
  | inl hit ↦
      let below : next < r.1 = ground arith in
      let (grows, fewer) = step_over-above (pre ++ (r ∷ [])) rs (r.1) true in
      let fewer' = rw (append_assoc pre (r ∷ []) rs) at fewer in
      ground (arith, above_step pre rs r next below)
  | inr miss ↦
      let (grows, fewer) = step_over-above (pre ++ (r ∷ [])) rs next moved in
      let fewer' = rw (append_assoc pre (r ∷ []) rs) at fewer in ground arith
]

-- A pass that moves nothing has tested every range against the front as it was.
step_over-still :
    (rs : List (ℕ × ℕ)) (next : ℕ) (moved : Bool)
    → (step_over rs next moved).1 ≡ false
    → (moved ≡ false) × ((step_over rs next moved).0 ≡ next) × All (λ r. inside next r ≡ false) rs
unfolding step_over
step_over-still [] next moved e = (e, refl, tt)
step_over-still (r ∷ rs) next moved e = elim (Bool-cases (inside next r)) [
  | inl hit ↦ let (stuck, _, _) = step_over-still rs (r.1) true (ground arith) in cc
  | inr miss ↦
      let (still, same, out) = step_over-still rs next moved (ground arith) in
      (still, ground arith, (miss, out))
]

skip_reserved-moved :
    (fuel : ℕ) (rs : List (ℕ × ℕ)) (next : ℕ)
    → (step_over rs next false).1 ≡ true
    → skip_reserved (suc fuel) rs next ≡ skip_reserved fuel rs ((step_over rs next false).0)
unfolding skip_reserved
skip_reserved-moved fuel rs next moved = rw (moved, skip_reserved)

skip_reserved-above :
    (fuel : ℕ) (rs : List (ℕ × ℕ)) (next : ℕ)
    → above rs next < fuel
    → (r : ℕ) × (skip_reserved fuel rs next ≡ some r)
      × (next ≤ r)
      × All (λ range. inside r range ≡ false) rs
unfolding skip_reserved
skip_reserved-above zero rs next h = absurd (omega arith)
skip_reserved-above (suc fuel) rs next h = elim (Bool-cases ((step_over rs next false).1)) [
  | inl moved ↦
      let (grows, fewer) = step_over-above [] rs next false in
      let (r, e, le, out) =
        skip_reserved-above fuel rs ((step_over rs next false).0) (ground arith) in
      (r, skip_reserved-moved fuel rs next moved ∙ e, omega arith, out)
  | inr still ↦
      let (_, same, out) = step_over-still rs next false still in
      (next, ground arith, omega arith, out)
]

-- With more fuel than there are reserved ranges the loop ends, at or above the front it started
-- from, and outside every range.
pub skip_reserved_total :
    (fuel : ℕ) (rs : List (ℕ × ℕ)) (next : ℕ)
    → length rs < fuel
    → (r : ℕ) × (skip_reserved fuel rs next ≡ some r)
      × (next ≤ r)
      × All (λ range. inside r range ≡ false) rs
skip_reserved_total fuel rs next h =
    skip_reserved-above fuel rs next (omega (arith, above-le-length rs next))
