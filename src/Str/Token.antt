-- ===== src/Str/Token.antt =====
-- strtok: one call skips the delimiters in front, cuts off the next token, and remembers where to
-- go on.
use native.Mathlib.Nat.{add-zero, zero-add}
use mathlib.Core.List.{append-nil}
use balrog_os.Prelude.{
  ◌∙◌, false, true, Bool-cases, inl, inr, ℕ, zero, suc, ◌+◌, ◌<◌, ◌≡◌, refl, ◌≢◌, some, List, [],
  ◌∷◌, ◌++◌, arith, length, All, ◌==◌, if◌then◌else◌,
}
use balrog_os.Memory.{Memory, write}
use balrog_os.Str.{
  Tok, tok, strspn_from, strspn, strcspn_from, strcspn, strtok_cut, strtok_skipped, strtok_at,
}
use balrog_os.Str.Content.{IsStr, IsStr-cut, IsStr-drop}

-- `k` delimiters in front of `xs`
abbrev pub delims : ℕ → ℕ → List ℕ → List ℕ
delims d zero xs = xs
delims d (suc k) xs = d ∷ delims d k xs

-- The list does not begin with the delimiter.
abbrev pub Starts : ℕ → List ℕ → Type 0
Starts d [] = Unit
Starts d (x ∷ xs) = x ≢ d

-- The list is empty or begins with the delimiter.
abbrev pub Ends : ℕ → List ℕ → Type 0
Ends d [] = Unit
Ends d (x ∷ xs) = x ≡ d

shift : (a b : ℕ) → a + b + 1 ≡ a + (b + 1)
shift a b = omega arith

pub IsStr-delims :
    (k d : ℕ) (xs : List ℕ) (m : Memory) (p : ℕ) → IsStr m p (delims d k xs) → IsStr m (p + k) xs
IsStr-delims zero d xs m p h = rw add-zero h
IsStr-delims (suc k) d xs m p h =
    let e : p + 1 + k ≡ p + suc k = omega arith in rw e at (IsStr-delims k d xs m (p + 1) h.2)

strspn_from_lem :
    (k fuel : ℕ) (xs : List ℕ) (m : Memory) (p d size : ℕ)
    → k < fuel
    → IsStr m (p + size) (delims d k xs)
    → Starts d xs
    → strspn_from fuel m p d size ≡ some (size + k)
unfolding strspn_from
strspn_from_lem k zero xs m p d size enough h s = absurd (omega arith)
strspn_from_lem zero (suc fuel) [] m p d size enough h s = ground arith
strspn_from_lem zero (suc fuel) (x ∷ xs) m p d size enough h s = ground arith
strspn_from_lem (suc k) (suc fuel) xs m p d size enough h s =
    let next =
      strspn_from_lem k fuel xs m p d (size + 1) (omega arith) (rw (shift p size) at h.2) s in
    ground arith

strcspn_from_lem :
    (t rest : List ℕ) (fuel : ℕ) (m : Memory) (p d size : ℕ)
    → length t < fuel
    → IsStr m (p + size) (t ++ rest)
    → All (λ x. x ≢ d) t
    → Ends d rest
    → strcspn_from fuel m p d size ≡ some (size + length t)
unfolding strcspn_from
strcspn_from_lem t rest zero m p d size enough h a e = absurd (omega arith)
strcspn_from_lem [] [] (suc fuel) m p d size enough h a e = ground arith
strcspn_from_lem [] (x ∷ rest) (suc fuel) m p d size enough h a e = ground arith
strcspn_from_lem (x ∷ t) rest (suc fuel) m p d size enough h a e =
    let next =
      strcspn_from_lem t rest fuel m p d (size + 1) (omega arith) (rw (shift p size) at h.2) a.1
        e in
    ground arith

delims-ne_nul :
    (k d x : ℕ) (xs : List ℕ) (m : Memory) (p : ℕ)
    → IsStr m p (delims d k (x ∷ xs))
    → (m p == 0) ≡ false
delims-ne_nul zero d x xs m p h = ground arith
delims-ne_nul (suc k) d x xs m p h = ground arith

delims-nul : (k d : ℕ) (m : Memory) (p : ℕ) → IsStr m p (delims d k []) → (m p == 0) ≡ true → k ≡ 0
delims-nul zero d m p h e = refl
delims-nul (suc k) d m p h e = absurd (ground arith)

module _ (fuel : ℕ) (m : Memory) (p d k : ℕ) (enough : k < fuel) where
  strtok_at_skips :
      (x : ℕ) (xs : List ℕ)
      → IsStr m p (delims d k (x ∷ xs))
      → x ≢ d
      → strtok_at fuel m p d ≡ strtok_skipped fuel m (p + k) d
  unfolding strtok_at strspn
  strtok_at_skips x xs h s =
      let span = strspn_from_lem k fuel (x ∷ xs) m p d 0 enough (rw add-zero h) s in
      rw (delims-ne_nul k d x xs m p h, span, zero-add)

  -- What the call does with the token `x ∷ t`, whatever follows it.
  strtok_at_cuts :
      (x : ℕ) (t rest : List ℕ)
      → suc (length t) < fuel
      → IsStr m p (delims d k ((x ∷ t) ++ rest))
      → All (λ y. y ≢ d) (x ∷ t)
      → Ends d rest
      → strtok_at fuel m p d ≡ some (strtok_cut m (p + k) (length (x ∷ t)))
  unfolding strtok_skipped strcspn
  strtok_at_cuts x t rest long h a e =
      let here = IsStr-delims k d ((x ∷ t) ++ rest) m p h in
      let span = strcspn_from_lem (x ∷ t) rest fuel m (p + k) d 0 long (rw add-zero here) a e in
      strtok_at_skips x (t ++ rest) h a.0
      ∙ rw (delims-ne_nul 0 d x (t ++ rest) m (p + k) here, span, zero-add)

  -- A call in front of a token that a delimiter ends returns the token as a string of its own: the
  -- delimiter becomes a NUL, nothing else changes, and `current_ptr` stands at the rest.
  pub strtok_at-token :
      (x : ℕ) (t rest : List ℕ)
      → suc (length t) < fuel
      → IsStr m p (delims d k ((x ∷ t) ++ (d ∷ rest)))
      → All (λ y. y ≢ d) (x ∷ t)
      → (r : Tok) × (strtok_at fuel m p d ≡ some r)
        × (r.result ≡ p + k)
        × IsStr r.mem r.result (x ∷ t)
        × IsStr r.mem r.current_ptr rest
        × ((a : ℕ) → r.mem a ≡ (if a == p + k + suc (length t) then 0 else m a))
  unfolding strtok_cut
  strtok_at-token x t rest long h a =
      let here = IsStr-delims k d ((x ∷ t) ++ (d ∷ rest)) m p h in
      let behind = IsStr-drop (x ∷ t) (d ∷ rest) m (p + k) here in
      let more : (m (p + k + suc (length t)) == 0) ≡ false = ground arith in
      let (front, back) = IsStr-cut (x ∷ t) rest d m (p + k) here in
      (
        tok (write m (p + k + suc (length t)) 0) (p + k + suc (length t) + 1) (p + k),
        strtok_at_cuts x t (d ∷ rest) long h a refl ∙ rw more,
        refl,
        front,
        back,
        λ a. unfold write in refl,
      )

  -- A call in front of the last token returns it, leaves memory alone, and `current_ptr` stands at
  -- the string's NUL.
  pub strtok_at-last :
      (x : ℕ) (t : List ℕ)
      → suc (length t) < fuel
      → IsStr m p (delims d k ((x ∷ t) ++ []))
      → All (λ y. y ≢ d) (x ∷ t)
      → (strtok_at fuel m p d ≡ some (tok m (p + k + suc (length t)) (p + k)))
        × IsStr m (p + k) (x ∷ t)
        × IsStr m (p + k + suc (length t)) []
  unfolding strtok_cut
  strtok_at-last x t long h a =
      let here = IsStr-delims k d ((x ∷ t) ++ []) m p h in
      let behind : m (p + k + suc (length t)) ≡ 0 = IsStr-drop (x ∷ t) [] m (p + k) here in
      let whole : IsStr m (p + k) (x ∷ t) = rw append-nil at here in
      let ends : (m (p + k + suc (length t)) == 0) ≡ true = ground arith in
      (strtok_at_cuts x t [] long h a tt ∙ rw ends, whole, behind)

  -- A call in front of delimiters alone, or of nothing, returns NULL, leaves memory alone, and
  -- leaves `current_ptr` at the string's NUL.
  pub strtok_at-none :
      IsStr m p (delims d k []) → (strtok_at fuel m p d ≡ some (tok m (p + k) 0)) × (m (p + k) ≡ 0)
  unfolding strtok_at strtok_skipped strspn
  strtok_at-none h =
      let end = IsStr-delims k d [] m p h in
      let span = strspn_from_lem k fuel [] m p d 0 enough (rw add-zero h) tt in
      let ends : (m (p + k) == 0) ≡ true = ground arith in
      (
        elim (Bool-cases (m p == 0)) [
          | inl here ↦ rw (here, delims-nul k d m p h here, add-zero)
          | inr more ↦ rw (more, span, zero-add, ends)
        ],
        end,
      )
