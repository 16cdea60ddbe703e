-- ===== src/Uuid.antt =====
-- src/shared/uuid/uuid.c: a uuid as text and back. The 16 bytes of a uuid are an array, a function
-- of the index. The text is the list of its characters: `out[o++] = c` appends, `in[t]` is the head
-- of what is left, and a read past the end of the list, which C leaves undefined, is `overread`.
pub mod Digits
pub mod Trip
mod Tests
use balrog_os.Prelude.{
  ℕ, zero, suc, ◌+◌, ◌-◌, ◌*◌, ◌/◌, ◌%◌, Bool, ◌&&◌, ◌||◌, Option, none, some, List, [], ◌∷◌, ltb,
  leb, ◌==◌, if◌then◌else◌,
}

-- UUID_LEN
abbrev pub uuid_len : ℕ
uuid_len = 16

abbrev pub dash : ℕ
dash = b'-'

-- `__gpt_uuid_order`: the first three fields are byte swapped.
unfoldable pub gpt_uuid_order : ℕ → ℕ
gpt_uuid_order i =
    if ltb i 4 then 3 - i else if ltb i 6 then 9 - i else if ltb i 8 then 13 - i else i

-- `__uuid_hex`: 0 to 9, then A to F
unfoldable pub uuid_hex : ℕ → ℕ
uuid_hex d = if ltb d 10 then b'0' + d else b'A' + (d - 10)

-- `none` is the -1 of the source.
unfoldable pub uuid_hex_value : ℕ → Option ℕ
uuid_hex_value c =
    if leb b'0' c && leb c b'9'
    then some (c - b'0')
    else if leb b'a' c && leb c b'f'
    then some (c - b'a' + 10)
    else if leb b'A' c && leb c b'F'
    then some (c - b'A' + 10)
    else none

-- The dashes sit before bytes 4, 6, 8 and 10.
unfoldable pub dash_before : ℕ → Bool
dash_before i = (i == 4) || (i == 6) || (i == 8) || (i == 10)

-- What the rounds `i` to `i + n - 1` write, and the text behind it.
unfoldable pub uuid_chars : (ℕ → ℕ) → (i n : ℕ) → List ℕ → List ℕ
uuid_chars uuid i zero behind = behind
uuid_chars uuid i (suc n) behind =
    let byte = uuid (gpt_uuid_order i) in
    let digits = uuid_hex (byte / 16) ∷ uuid_hex (byte % 16) ∷ uuid_chars uuid (i + 1) n behind in
    if dash_before i then dash ∷ digits else digits

-- The last store is the NUL.
unfoldable pub uuid_to_str : (ℕ → ℕ) → List ℕ
unfolding uuid_chars gpt_uuid_order uuid_hex dash_before
uuid_to_str uuid = uuid_chars uuid 0 uuid_len (0 ∷ [])

-- A value with the text behind it, the error return, or a read past the end of the text.
pub data Read : Type 0 where
  read : ℕ → List ℕ → Read
  bad : Read
  past : Read

-- The test for a dash in round `i`, and the step over it.
unfoldable pub skip_dash : ℕ → List ℕ → Read
skip_dash i [] = if dash_before i then past else read 0 []
skip_dash i (c ∷ text) =
    if dash_before i then (if c == dash then read 0 text else bad) else read 0 (c ∷ text)

-- `(uint8_t) ((high << 4) | low)`, where `low` has four bits
unfoldable pub join_digits : Option ℕ → Option ℕ → List ℕ → Read
join_digits (some high) (some low) text = read ((high * 16 + low) % 256) text
join_digits _ _ text = bad

-- Both characters are read before either is judged.
unfoldable pub read_byte : List ℕ → Read
unfolding join_digits
read_byte [] = past
read_byte (c ∷ []) = past
read_byte (c ∷ d ∷ text) = join_digits (uuid_hex_value c) (uuid_hex_value d) text

-- 0 with the array as stored, -1 with it as far as it was stored, or a read past the text.
pub data Parsed : Type 0 where
  ok : (ℕ → ℕ) → Parsed
  refused : (ℕ → ℕ) → Parsed
  overread : Parsed

abbrev pub store : (ℕ → ℕ) → ℕ → ℕ → ℕ → ℕ
store uuid i v k = if k == i then v else uuid k

-- `return (in[t] == 0) ? 0 : -1;`
unfoldable pub parse_end : (ℕ → ℕ) → List ℕ → Parsed
parse_end uuid [] = overread
parse_end uuid (c ∷ text) = if c == 0 then ok uuid else refused uuid

-- The rounds `i` to `i + n - 1` of the loop, and the test behind it.
unfoldable pub parse_rounds : (n i : ℕ) → (ℕ → ℕ) → List ℕ → Parsed
parse_rounds zero i uuid text = parse_end uuid text
parse_rounds (suc n) i uuid text = elim (skip_dash i text) [
  | past ↦ overread
  | bad ↦ refused uuid
  | read _ text' ↦ elim (read_byte text') [
    | past ↦ overread
    | bad ↦ refused uuid
    | read byte text'' ↦ parse_rounds n (i + 1) (store uuid (gpt_uuid_order i) byte) text''
  ]
]

unfoldable pub str_to_uuid : (ℕ → ℕ) → List ℕ → Parsed
unfolding parse_rounds parse_end read_byte skip_dash uuid_hex_value gpt_uuid_order dash_before
str_to_uuid uuid text = parse_rounds uuid_len 0 uuid text
