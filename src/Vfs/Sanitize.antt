-- ===== src/Vfs/Sanitize.antt =====
-- What vfs_sanitize_path makes of an absolute path.
use mathlib.Core.Path.{subst}
use balrog_os.Prelude.{
  append_assoc, ℕ, zero, suc, ◌≤◌, ◌<◌, ◌≡◌, refl, ◌⊎◌, ◌≢◌, ◌∙◌, sym, ap, inl, inr, Bool, true,
  false, not, some, Bool-cases, List, [], ◌∷◌, ◌++◌, All, arith, length, ◌==◌, if◌then◌else◌,
}
use balrog_os.Vfs.Path.{
  slash, part_of, behind_part, skip_slashes, first_slash, sanitize_rounds, vfs_sanitize_path,
}
use balrog_os.Vfs.Walk.{IsPart, join}

abbrev starts_part : List ℕ → Bool
starts_part [] = false
starts_part (c ∷ cs) = not (c == slash)

abbrev extend : ℕ → List (List ℕ) → List (List ℕ)
extend c [] = (c ∷ []) ∷ []
extend c (w ∷ ws) = (c ∷ w) ∷ ws

-- The longest runs of bytes that are not slashes, in order.
unfoldable pub words : List ℕ → List (List ℕ)
words [] = []
words (c ∷ cs) =
    if c == slash
    then words cs
    else (if starts_part cs then extend c (words cs) else (c ∷ []) ∷ words cs)

-- A slash, if the path ends in one.
unfoldable pub trail : List ℕ → List ℕ
trail [] = []
trail (c ∷ []) = if c == slash then slash ∷ [] else []
trail (c ∷ d ∷ cs) = trail (d ∷ cs)

words-skip_slashes : (p : List ℕ) → words (skip_slashes p) ≡ words p
unfolding words skip_slashes
words-skip_slashes [] = refl
words-skip_slashes (c ∷ cs) = ground (arith, words-skip_slashes cs)

-- Where no part starts, there is no part, and nothing is behind it.
no_part : (p : List ℕ) → starts_part p ≡ false → (part_of p ≡ []) × (behind_part p ≡ p)
unfolding part_of behind_part
no_part [] h = (refl, refl)
no_part (c ∷ cs) h = ground arith

words-part : (p : List ℕ) → starts_part p ≡ true → words p ≡ part_of p ∷ words (behind_part p)
unfolding words part_of behind_part
words-part [] h = absurd (ground arith)
words-part (c ∷ cs) h = elim (Bool-cases (starts_part cs)) [
  | inl more ↦ ground (arith, words-part cs)
  | inr last ↦ ground (arith, no_part cs)
]

skip_slashes-cases : (p : List ℕ) → (skip_slashes p ≡ []) ⊎ (starts_part (skip_slashes p) ≡ true)
unfolding skip_slashes
skip_slashes-cases [] = inl refl
skip_slashes-cases (c ∷ cs) = elim (Bool-cases (c == slash)) [
  | inl again ↦ rw again (skip_slashes-cases cs)
  | inr other ↦ inr (rw (other, other) refl)
]

length-skip_slashes : (p : List ℕ) → length (skip_slashes p) ≤ length p
unfolding skip_slashes
length-skip_slashes [] = omega arith
length-skip_slashes (c ∷ cs) = ground (arith, length-skip_slashes cs)

length-skip_slashes-slash :
    (c : ℕ) (cs : List ℕ) → c ≡ slash → length (skip_slashes (c ∷ cs)) ≤ length cs
unfolding skip_slashes
length-skip_slashes-slash c cs h = ground (arith, length-skip_slashes cs)

length-behind_part : (p : List ℕ) → length (behind_part p) ≤ length p
unfolding behind_part
length-behind_part [] = omega arith
length-behind_part (c ∷ cs) = ground (arith, length-behind_part cs)

trail-behind_part : (p : List ℕ) → starts_part p ≡ true → trail p ≡ trail (behind_part p)
unfolding trail behind_part
trail-behind_part [] h = absurd (ground arith)
trail-behind_part (c ∷ []) h = ground arith
trail-behind_part (c ∷ d ∷ cs) h = elim (Bool-cases (d == slash)) [
  | inl stop ↦ ground arith
  | inr more ↦ ground (arith, trail-behind_part (d ∷ cs))
]

trail-skip_slashes :
    (p : List ℕ) → starts_part (skip_slashes p) ≡ true → trail p ≡ trail (skip_slashes p)
unfolding trail skip_slashes
trail-skip_slashes [] h = refl
trail-skip_slashes (c ∷ []) h = ground arith
trail-skip_slashes (c ∷ d ∷ cs) h = ground (arith, trail-skip_slashes (d ∷ cs))

trail-slashes : (c : ℕ) (p : List ℕ) → skip_slashes (c ∷ p) ≡ [] → trail (c ∷ p) ≡ slash ∷ []
unfolding trail skip_slashes
trail-slashes c [] h = ground arith
trail-slashes c (d ∷ p) h = ground (arith, trail-slashes d p)

-- The path from where a round starts: at its end, or at a slash.
abbrev AtSlash : List ℕ → Type 0
AtSlash [] = Unit
AtSlash (c ∷ cs) = c ≡ slash

behind_part-AtSlash : (p : List ℕ) → AtSlash (behind_part p)
unfolding behind_part
behind_part-AtSlash [] = tt
behind_part-AtSlash (c ∷ cs) = elim (Bool-cases (c == slash)) [
  | inl stop ↦ rw stop (ground arith)
  | inr more ↦ rw more (behind_part-AtSlash cs)
]

sanitize_rounds-step :
    (fuel : ℕ) (c : ℕ) (cs rest : List ℕ)
    → sanitize_rounds fuel (behind_part (skip_slashes (c ∷ cs))) ≡ some rest
    → sanitize_rounds (suc fuel) (c ∷ cs)
      ≡ some (first_slash (c ∷ cs) ++ (part_of (skip_slashes (c ∷ cs)) ++ rest))
unfolding sanitize_rounds
sanitize_rounds-step fuel c cs rest h = rw (h, sanitize_rounds) refl

words-round :
    (cs part : List ℕ)
    → skip_slashes (slash ∷ cs) ≡ part
    → slash ∷ (part_of part ++ (join (words (behind_part part)) ++ trail (behind_part part)))
      ≡ join (words (slash ∷ cs)) ++ trail (slash ∷ cs)
words-round cs part e = elim (skip_slashes-cases (slash ∷ cs)) [
  | inl all_slashes ↦
      let nothing : part ≡ [] = sym e ∙ all_slashes in
      let no_words : words (slash ∷ cs) ≡ [] =
        sym (words-skip_slashes (slash ∷ cs)) ∙ ap words all_slashes ∙ unfold words in refl in
      rw (nothing, no_words, trail-slashes slash cs all_slashes)
        (unfold part_of behind_part words trail in refl)
  | inr starts ↦
      let same : words (slash ∷ cs) ≡ part_of part ∷ words (behind_part part) =
        sym (words-skip_slashes (slash ∷ cs)) ∙ ap words e ∙ words-part part (rw e at starts) in
      let end : trail (slash ∷ cs) ≡ trail (behind_part part) =
        trail-skip_slashes (slash ∷ cs) starts
        ∙ ap trail e
        ∙ trail-behind_part part (rw e at starts) in
      rw (same, end)
        (ap (λ l. slash ∷ l)
          (sym (
            append_assoc (part_of part) (join (words (behind_part part)))
              (trail (behind_part part)))))
]

sanitize_rounds-words :
    (fuel : ℕ) (path : List ℕ)
    → length path < fuel
    → AtSlash path
    → sanitize_rounds fuel path ≡ some (join (words path) ++ trail path)
sanitize_rounds-words zero path enough h = absurd (omega arith)
sanitize_rounds-words (suc fuel) [] enough h = unfold words trail sanitize_rounds in refl
sanitize_rounds-words (suc fuel) (c ∷ cs) enough h =
    let part = skip_slashes (c ∷ cs) in
    let shorter : length (behind_part part) < fuel =
      omega (arith, length-behind_part part, length-skip_slashes-slash c cs h) in
    let rest = sanitize_rounds-words fuel (behind_part part) shorter (behind_part-AtSlash part) in
    sanitize_rounds-step fuel c cs (join (words (behind_part part)) ++ trail (behind_part part))
      rest
    ∙ subst
        (λ x.
          some (
            first_slash (x ∷ cs)
            ++ (part_of (skip_slashes (x ∷ cs))
                ++ (join (words (behind_part (skip_slashes (x ∷ cs))))
                    ++ trail (behind_part (skip_slashes (x ∷ cs))))))
          ≡ some (join (words (x ∷ cs)) ++ trail (x ∷ cs)))
        (sym h) (unfold first_slash in ap some (words-round cs (skip_slashes (slash ∷ cs)) refl))

extend-IsPart : (c : ℕ) (ws : List (List ℕ)) → c ≢ slash → All IsPart ws → All IsPart (extend c ws)
extend-IsPart c [] h all = ((λ e. ground arith, (h, tt)), tt)
extend-IsPart c (w ∷ ws) h all = ((λ e. ground arith, (h, all.0.1)), all.1)

words-IsPart : (p : List ℕ) → All IsPart (words p)
unfolding words
words-IsPart [] = tt
words-IsPart (c ∷ cs) = elim (Bool-cases (c == slash)) [
  | inl stop ↦ rw stop (words-IsPart cs)
  | inr byte ↦
      let not_slash : c ≢ slash = ground arith in
      elim (Bool-cases (starts_part cs)) [
        | inl more ↦ rw (byte, more) (extend-IsPart c (words cs) not_slash (words-IsPart cs))
        | inr last ↦ rw (byte, last) ((λ e. ground arith, (not_slash, tt)), words-IsPart cs)
      ]
]

-- vfs_sanitize_path ends, with its length as fuel, and makes of an absolute path its parts in order,
-- each behind one slash, and a slash at the end if there was one.
pub vfs_sanitize_path-words :
    (cs : List ℕ)
    → (vfs_sanitize_path (slash ∷ cs) ≡ some (join (words (slash ∷ cs)) ++ trail (slash ∷ cs)))
      × All IsPart (words (slash ∷ cs))
unfolding vfs_sanitize_path
vfs_sanitize_path-words cs = (
  sanitize_rounds-words (suc (length (slash ∷ cs))) (slash ∷ cs) (omega arith) refl,
  words-IsPart (slash ∷ cs),
)
