-- ===== src/Str/Tests.antt =====
-- Runs of the string routines on small inputs.
use balrog_os.Prelude.{ℕ, zero, suc, refl, List, [], ◌∷◌, arith}
use balrog_os.Memory.{Memory}
use balrog_os.Str.Content.{IsStr}

-- The bytes from address 1 on, and zeros.
abbrev at_one : List ℕ → Memory
at_one [] a = 0
at_one (x ∷ xs) zero = 0
at_one (x ∷ xs) (suc zero) = x
at_one (x ∷ xs) (suc (suc a)) = at_one xs (suc a)

-- "//a/b" at 1, and "a" at 7
abbrev sample : Memory
sample = at_one (b'/' ∷ b'/' ∷ b'a' ∷ b'/' ∷ b'b' ∷ 0 ∷ b'a' ∷ [])

path : IsStr sample 1 (b'/' ∷ b'/' ∷ b'a' ∷ b'/' ∷ b'b' ∷ [])
path = (
  refl,
  omega arith,
  (refl, omega arith, (refl, omega arith, (refl, omega arith, (refl, omega arith, refl)))),
)
