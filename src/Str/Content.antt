-- ===== src/Str/Content.antt =====
-- The byte strings that memory holds, and what changes them.
use balrog_os.Prelude.{ℕ, suc, ◌+◌, ◌<◌, ◌≡◌, ◌≢◌, ◌⊎◌, inl, List, [], ◌∷◌, ◌++◌, arith, length}
use native.Mathlib.Nat.{add-zero}
use balrog_os.Memory.{Memory, write}

-- Memory holds the bytes `xs`, none of them NUL, at `p`, and a NUL behind them.
abbrev pub IsStr : Memory → ℕ → List ℕ → Type 0
IsStr m p [] = m p ≡ 0
IsStr m p (x ∷ xs) = (m p ≡ x) × (x ≢ 0) × IsStr m (p + 1) xs

-- A write outside the string and its NUL leaves it.
pub IsStr-write :
    (xs : List ℕ) (m : Memory) (p a v : ℕ)
    → (a < p) ⊎ (p + length xs < a)
    → IsStr m p xs
    → IsStr (write m a v) p xs
unfolding write
IsStr-write [] m p a v apart h = ground arith
IsStr-write (x ∷ xs) m p a v apart h =
    (ground arith, h.1, IsStr-write xs m (p + 1) a v (ground arith) h.2)

-- Writing a NUL behind a prefix cuts the string there, and the rest is a string of its own.
pub IsStr-cut :
    (xs ys : List ℕ) (y : ℕ) (m : Memory) (p : ℕ)
    → IsStr m p (xs ++ (y ∷ ys))
    → IsStr (write m (p + length xs) 0) p xs
      × IsStr (write m (p + length xs) 0) (p + length xs + 1) ys
unfolding write
IsStr-cut [] ys y m p h =
    (ground arith, rw add-zero (IsStr-write ys m (p + 1) p 0 (inl (omega arith)) h.2))
IsStr-cut (x ∷ xs) ys y m p h =
    let e : p + 1 + length xs ≡ p + suc (length xs) = omega arith in
    let (front, back) = IsStr-cut xs ys y m (p + 1) h.2 in
    ((ground arith, h.1, rw e at front), rw e at back)

-- The part of a string behind a prefix is a string.
pub IsStr-drop :
    (xs ys : List ℕ) (m : Memory) (p : ℕ) → IsStr m p (xs ++ ys) → IsStr m (p + length xs) ys
IsStr-drop [] ys m p h = rw add-zero h
IsStr-drop (x ∷ xs) ys m p h =
    let e : p + 1 + length xs ≡ p + suc (length xs) = omega arith in
    rw e at (IsStr-drop xs ys m (p + 1) h.2)
