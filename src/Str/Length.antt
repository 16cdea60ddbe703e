-- ===== src/Str/Length.antt =====
-- strlen, strcmp and strcpy.
use native.Mathlib.Decide.{ℕ_discrete}
use native.Mathlib.Nat.{add-zero, zero-add, add_assoc}
use balrog_os.Prelude.{
  ℕ, zero, suc, ◌+◌, ◌≤◌, ◌<◌, ◌≡◌, refl, ◌≢◌, ◌↔◌, ◌⊎◌, some, List, [], ◌∷◌, arith, length, sym,
  ap, pos, minus_one,
}
use balrog_os.Memory.{Memory, memcpy}
use balrog_os.Memory.Blocks.{copied, memcpy-copied, memcmp-eq_zero}
use balrog_os.Str.{strlen_from, strlen, strcmp, strcpy}
use balrog_os.Str.Content.{IsStr}

strlen_from_lem :
    (xs : List ℕ) (fuel : ℕ) (m : Memory) (p len : ℕ)
    → length xs < fuel
    → IsStr m (p + len) xs
    → strlen_from fuel m p len ≡ some (len + length xs)
unfolding strlen_from
strlen_from_lem xs zero m p len enough h = absurd (omega arith)
strlen_from_lem [] (suc fuel) m p len enough h = ground arith
strlen_from_lem (x ∷ xs) (suc fuel) m p len enough h =
    let e : p + len + 1 ≡ p + (len + 1) = omega arith in
    let next = strlen_from_lem xs fuel m p (len + 1) (omega arith) (rw e at h.2) in ground arith

-- With one round more than the string has bytes, strlen returns the number of bytes.
pub strlen-length :
    (xs : List ℕ) (fuel : ℕ) (m : Memory) (p : ℕ)
    → length xs < fuel
    → IsStr m p xs
    → strlen fuel m p ≡ some (length xs)
unfolding strlen
strlen-length xs fuel m p enough h =
    rw zero-add at (strlen_from_lem xs fuel m p 0 enough (rw add-zero h))

-- Two strings in memory are the same list of bytes exactly when memory agrees byte by byte.
IsStr-same :
    (xs ys : List ℕ) (m : Memory) (p q : ℕ)
    → IsStr m p xs
    → IsStr m q ys
    → length xs ≡ length ys
    → ((k : ℕ) → k < length xs → m (p + k) ≡ m (q + k))
    → xs ≡ ys
IsStr-same [] [] m p q hx hy e same = refl
IsStr-same [] (y ∷ ys) m p q hx hy e same = absurd (omega arith)
IsStr-same (x ∷ xs) [] m p q hx hy e same = absurd (omega arith)
IsStr-same (x ∷ xs) (y ∷ ys) m p q hx hy e same =
    let first = same 0 (omega arith) in
    let rest =
      IsStr-same xs ys m (p + 1) (q + 1) hx.2 hy.2 (omega arith)
        (λ k l. rw (add_assoc p 1 k, add_assoc q 1 k, one-add k) (same (suc k) (omega arith))) in
    ground (arith, add-zero p, add-zero q)
  where
    one-add : (k : ℕ) → 1 + k ≡ suc k
    one-add k = omega arith

IsStr-byte :
    (xs : List ℕ) (m : Memory) (p q : ℕ)
    → IsStr m p xs
    → IsStr m q xs
    → (k : ℕ) → k < length xs
    → m (p + k) ≡ m (q + k)
IsStr-byte [] m p q hx hy k l = absurd (omega arith)
IsStr-byte (x ∷ xs) m p q hx hy zero l = ground (arith, add-zero p, add-zero q)
IsStr-byte (x ∷ xs) m p q hx hy (suc k) l =
    rw (sym (shift p), sym (shift q)) (IsStr-byte xs m (p + 1) (q + 1) hx.2 hy.2 k (omega arith))
  where
    shift : (a : ℕ) → a + 1 + k ≡ a + suc k
    shift a = omega arith

-- strcmp returns 0 exactly for equal strings.
pub strcmp-eq_zero :
    (xs ys : List ℕ) (fuel : ℕ) (m : Memory) (p q : ℕ)
    → length xs < fuel
    → length ys < fuel
    → IsStr m p xs
    → IsStr m q ys
    → (strcmp fuel m p q ≡ some (pos 0)) ↔ (xs ≡ ys)
unfolding strcmp
strcmp-eq_zero xs ys fuel m p q fx fy hx hy =
    rw (strlen-length xs fuel m p fx hx, strlen-length ys fuel m q fy hy)
      (elim (ℕ_discrete (length xs) (length ys)) [
        | yes e ↦ (
          λ r. IsStr-same xs ys m p q hx hy e ((memcmp-eq_zero m p q (length xs)).0 (ground arith)),
          λ r.
              let zero_result =
                (memcmp-eq_zero m p q (length xs)).1 (IsStr-byte xs m p q hx (rw r hy)) in
              ground arith,
        )
        | no ne ↦ (λ r. absurd (ground arith), λ r. absurd (ne (ap length r)))
      ])

-- Two strings of different lengths compare as -1, in either order.
pub strcmp_unordered :
    (xs ys : List ℕ) (fuel : ℕ) (m : Memory) (p q : ℕ)
    → length xs < fuel
    → length ys < fuel
    → IsStr m p xs
    → IsStr m q ys
    → length xs ≢ length ys
    → (strcmp fuel m p q ≡ some minus_one) × (strcmp fuel m q p ≡ some minus_one)
unfolding strcmp
strcmp_unordered xs ys fuel m p q fx fy hx hy ne =
    rw (strlen-length xs fuel m p fx hx, strlen-length ys fuel m q fy hy)
      (ground arith, ground arith)

-- strcpy copies the bytes of the string and not its NUL: behind the copy memory is as before. It
-- returns 0, not `dest`.
pub strcpy_lem :
    (xs : List ℕ) (fuel : ℕ) (m : Memory) (dest source : ℕ)
    → length xs < fuel
    → IsStr m source xs
    → (dest ≤ source) ⊎ (source + length xs ≤ dest)
    → (m' : Memory) × (strcpy fuel m dest source ≡ some (m', 0))
      × ((x : ℕ) → m' x ≡ copied m dest source (length xs) x)
      × (m' (dest + length xs) ≡ m (dest + length xs))
unfolding strcpy
strcpy_lem xs fuel m dest source enough h apart =
    let copy = (memcpy-copied m dest source (length xs) apart).0 in
    (
      (memcpy m dest source (length xs)).0,
      rw (strlen-length xs fuel m source enough h),
      copy,
      ground (arith, copy (dest + length xs)),
    )
