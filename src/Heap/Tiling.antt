-- ===== src/Heap/Tiling.antt =====
-- Blocks tile the heap: each one starts where the one in front of it ends.
use balrog_os.Prelude.{ℕ, ◌+◌, ◌≤◌, ◌<◌, ◌≡◌, refl, List, [], ◌∷◌, ◌++◌, arith}
use balrog_os.Heap.{header, Headers}

-- From `a` to `top` stand blocks of the sizes `ss`, and nothing else.
abbrev pub Tiles : Headers → (a top : ℕ) → List ℕ → Type 0
Tiles h a top [] = a ≡ top
Tiles h a top (s ∷ ss) = ((h a).size ≡ s) × Tiles h (a + header + s) top ss

-- Where `n` blocks from `a` end.
abbrev pub end_of : ℕ → List ℕ → ℕ
end_of a [] = a
end_of a (s ∷ ss) = end_of (a + header + s) ss

pub end_of-le : (a : ℕ) (ss : List ℕ) → a ≤ end_of a ss
end_of-le a [] = omega arith
end_of-le a (s ∷ ss) = omega (arith, end_of-le (a + header + s) ss)

-- Two headers of the same sizes from `a` on tile alike.
pub Tiles-same :
    (ss : List ℕ) (h g : Headers) (a top : ℕ)
    → ((x : ℕ) → a ≤ x → (g x).size ≡ (h x).size)
    → Tiles h a top ss
    → Tiles g a top ss
Tiles-same [] h g a top same t = t
Tiles-same (s ∷ ss) h g a top same t = (
  ground (arith, same a),
  Tiles-same ss h g (a + header + s) top (λ x l. same x (omega arith)) t.1,
)

pub Tiles-split :
    (pre ss : List ℕ) (h : Headers) (a top : ℕ)
    → Tiles h a top (pre ++ ss)
    → Tiles h a (end_of a pre) pre × Tiles h (end_of a pre) top ss
Tiles-split [] ss h a top t = (refl, t)
Tiles-split (p ∷ pre) ss h a top t =
    let (front, back) = Tiles-split pre ss h (a + header + p) top t.1 in ((t.0, front), back)

pub Tiles-join :
    (pre ss : List ℕ) (h : Headers) (a top : ℕ)
    → Tiles h a (end_of a pre) pre
    → Tiles h (end_of a pre) top ss
    → Tiles h a top (pre ++ ss)
Tiles-join [] ss h a top front back = back
Tiles-join (p ∷ pre) ss h a top front back =
    (front.0, Tiles-join pre ss h (a + header + p) top (front.1) back)

-- Headers that change at or above the end of a run of blocks leave it.
pub Tiles-below :
    (ss : List ℕ) (h g : Headers) (a b : ℕ)
    → ((x : ℕ) → x < b → (g x).size ≡ (h x).size)
    → end_of a ss ≤ b
    → Tiles h a (end_of a ss) ss
    → Tiles g a (end_of a ss) ss
Tiles-below [] h g a b same le t = refl
Tiles-below (s ∷ ss) h g a b same le t = (
  ground (arith, same a, end_of-le (a + header + s) ss),
  Tiles-below ss h g (a + header + s) b same le t.1,
)
