-- ===== src/Uuid/Tests.antt =====
-- Runs of the uuid text routines.
use balrog_os.Prelude.{ℕ, ◌*◌, ◌≡◌, arith, ltb, if◌then◌else◌}
use balrog_os.Uuid.{ok, uuid_to_str, str_to_uuid}
use balrog_os.Uuid.Trip.{str_to_uuid-uuid_to_str}

-- The bytes 0, 17, 34 and so on up to 255
abbrev sample : ℕ → ℕ
sample k = if ltb k 16 then k * 17 else 0

abbrev blank : ℕ → ℕ
blank k = 0

str_to_uuid-uuid_to_str_example :
    (v : ℕ → ℕ) × (str_to_uuid blank (uuid_to_str sample) ≡ ok v)
    × ((k : ℕ) → v k ≡ (if ltb k 16 then sample k else blank k))
str_to_uuid-uuid_to_str_example = str_to_uuid-uuid_to_str sample blank (λ k h. ground arith)
