-- ===== src/Memory.antt =====
-- Byte-addressed memory, and the block routines of src/shared/string: memcpy, memmove, memset and
-- memcmp. Memory is flat, as the kernel sees it: every address holds a byte. Pointers do not wrap,
-- which C leaves undefined. A routine returns the new memory beside its result.
pub mod Blocks
mod Tests
use balrog_os.Prelude.{ℕ, zero, suc, ◌+◌, ◌%◌, ltb, ◌==◌, if◌then◌else◌, ℤ, pos, minus_one}

abbrev pub Memory : Type 0
Memory = ℕ → ℕ

-- `*a = v`
unfoldable pub write : Memory → ℕ → ℕ → Memory
write m a v x = if x == a then v else m x

-- `for(; i < size; i++) dst[i] = src[i];` with `n` rounds left
unfoldable pub copy_up : Memory → (dst src i n : ℕ) → Memory
copy_up m dst src i zero = m
copy_up m dst src i (suc n) = copy_up (write m (dst + i) (m (src + i))) dst src (i + 1) n

-- `for(i = size; i > 0; i--) dst[i - 1] = src[i - 1];`
unfoldable pub copy_down : Memory → (dst src i : ℕ) → Memory
copy_down m dst src zero = m
copy_down m dst src (suc i) = copy_down (write m (dst + i) (m (src + i))) dst src i

unfoldable pub memcpy : Memory → (dest source size : ℕ) → Memory × ℕ
unfolding copy_up
memcpy m dest source size = (copy_up m dest source 0 size, dest)

unfoldable pub memmove : Memory → (dest source size : ℕ) → Memory × ℕ
unfolding copy_up copy_down
memmove m dest source size =
    (if ltb dest source then copy_up m dest source 0 size else copy_down m dest source size, dest)

-- `ptr[i] = value`: the store keeps the low byte of the int.
unfoldable pub set_up : Memory → (ptr value i n : ℕ) → Memory
set_up m ptr value i zero = m
set_up m ptr value i (suc n) = set_up (write m (ptr + i) (value % 256)) ptr value (i + 1) n

unfoldable pub memset : Memory → (pointer value count : ℕ) → Memory × ℕ
unfolding set_up
memset m pointer value count = (set_up m pointer value 0 count, pointer)

unfoldable pub compare_up : Memory → (ptr_1 ptr_2 i n : ℕ) → ℤ
compare_up m ptr_1 ptr_2 i zero = pos 0
compare_up m ptr_1 ptr_2 i (suc n) =
    let rest = compare_up m ptr_1 ptr_2 (i + 1) n in
    if ltb (m (ptr_1 + i)) (m (ptr_2 + i))
    then minus_one
    else if ltb (m (ptr_2 + i)) (m (ptr_1 + i))
    then pos 1
    else rest

unfoldable pub memcmp : Memory → (addr_1 addr_2 byte_size : ℕ) → ℤ
unfolding compare_up
memcmp m addr_1 addr_2 byte_size = compare_up m addr_1 addr_2 0 byte_size
