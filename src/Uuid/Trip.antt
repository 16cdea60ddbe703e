-- ===== src/Uuid/Trip.antt =====
-- A uuid written as text reads back as itself.
use balrog_os.Prelude.{
  ℕ, zero, suc, ◌+◌, ◌/◌, ◌%◌, ◌<◌, ◌≡◌, refl, [], ◌∷◌, arith, ltb, if◌then◌else◌,
}
use balrog_os.Uuid.{
  gpt_uuid_order, uuid_hex, uuid_chars, uuid_to_str, skip_dash, read, ok, store, parse_end,
  parse_rounds, str_to_uuid,
}
use balrog_os.Uuid.Digits.{read_byte-uuid_hex}

-- The array once the rounds `i` to `i + n - 1` have stored the bytes of `u`.
abbrev stored : (ℕ → ℕ) → (n i : ℕ) → (ℕ → ℕ) → ℕ → ℕ
stored u zero i uuid = uuid
stored u (suc n) i uuid = stored u n (i + 1) (store uuid (gpt_uuid_order i) (u (gpt_uuid_order i)))

-- One round over the text of a byte, dash included.
skip_dash-uuid_chars :
    (u : ℕ → ℕ) (n i : ℕ)
    → skip_dash i (uuid_chars u i (suc n) (0 ∷ []))
      ≡ read 0 (
          uuid_hex (u (gpt_uuid_order i) / 16)
          ∷ uuid_hex (u (gpt_uuid_order i) % 16)
          ∷ uuid_chars u (i + 1) n (0 ∷ []))
unfolding skip_dash uuid_chars
skip_dash-uuid_chars u n i = ground arith

order_lt : (i : ℕ) → i < 16 → gpt_uuid_order i < 16
unfolding gpt_uuid_order
order_lt i h = ground arith

parse_rounds-uuid_chars :
    (u : ℕ → ℕ) (n i : ℕ) (uuid : ℕ → ℕ)
    → i + n ≡ 16
    → ((k : ℕ) → k < 16 → u k < 256)
    → parse_rounds n i uuid (uuid_chars u i n (0 ∷ [])) ≡ ok (stored u n i uuid)
unfolding parse_rounds
parse_rounds-uuid_chars u zero i uuid e h = unfold parse_end uuid_chars in refl
parse_rounds-uuid_chars u (suc n) i uuid e h =
    let o = gpt_uuid_order i in
    ground (
      arith,
      skip_dash-uuid_chars u n i,
      read_byte-uuid_hex (u o) (uuid_chars u (i + 1) n (0 ∷ [])) (h o (order_lt i (omega arith))),
      parse_rounds-uuid_chars u n (i + 1) (store uuid o (u o)) (omega arith) h,
    )

-- Every uuid of 16 bytes survives the trip: str_to_uuid accepts what uuid_to_str writes, whatever
-- its target held, and stores the same 16 bytes.
pub str_to_uuid-uuid_to_str :
    (u uuid : ℕ → ℕ)
    → ((k : ℕ) → k < 16 → u k < 256)
    → (v : ℕ → ℕ) × (str_to_uuid uuid (uuid_to_str u) ≡ ok v)
      × ((k : ℕ) → v k ≡ (if ltb k 16 then u k else uuid k))
unfolding str_to_uuid uuid_to_str gpt_uuid_order
str_to_uuid-uuid_to_str u uuid h =
    (stored u 16 0 uuid, parse_rounds-uuid_chars u 16 0 uuid refl h, λ k. ground arith)
