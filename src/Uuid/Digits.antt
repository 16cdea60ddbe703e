-- ===== src/Uuid/Digits.antt =====
-- One hexadecimal digit.
use balrog_os.Prelude.{ℕ, ◌+◌, ◌*◌, ◌/◌, ◌%◌, ◌<◌, ◌≡◌, ◌≢◌, some, List, ◌∷◌, arith}
use balrog_os.Uuid.{uuid_hex, uuid_hex_value, read, read_byte}

-- The value of a digit that uuid_to_str writes is the digit.
pub uuid_hex_value-uuid_hex : (d : ℕ) → d < 16 → uuid_hex_value (uuid_hex d) ≡ some d
unfolding uuid_hex_value uuid_hex
uuid_hex_value-uuid_hex d h = ground arith

-- A value is a digit's, and its character is no NUL.
pub uuid_hex_value_bounds : (c d : ℕ) → uuid_hex_value c ≡ some d → (d < 16) × (c ≢ 0)
unfolding uuid_hex_value
uuid_hex_value_bounds c d h = ground arith

-- The two digits of a byte read back as the byte.
pub read_byte-uuid_hex :
    (b : ℕ) (text : List ℕ)
    → b < 256
    → read_byte (uuid_hex (b / 16) ∷ uuid_hex (b % 16) ∷ text) ≡ read b text
unfolding read_byte
read_byte-uuid_hex b text h =
    let high = uuid_hex_value-uuid_hex (b / 16) (omega arith) in
    let low = uuid_hex_value-uuid_hex (b % 16) (omega arith) in
    let whole : (b / 16 * 16 + b % 16) % 256 ≡ b = omega arith in rw (high, low, whole)
