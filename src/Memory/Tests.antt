-- ===== src/Memory/Tests.antt =====
-- Runs of the block routines on small inputs.
use balrog_os.Prelude.{◌%◌, ◌≡◌, refl}
use balrog_os.Memory.{Memory, write, memcpy, memmove}

-- Every address holds its own low byte.
abbrev counting : Memory
counting x = x % 256

-- The ranges overlap, and the target lies behind the source.
memmove_overlap : (memmove counting 12 10 4).0 15 ≡ 13
unfolding memmove write
memmove_overlap = refl

-- memcpy on the same ranges reads what it has overwritten.
memcpy_overlap : (memcpy counting 12 10 4).0 15 ≡ 11
unfolding memcpy write
memcpy_overlap = refl
