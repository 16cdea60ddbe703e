-- ===== src/Memory/Blocks.antt =====
-- What the block routines of src/shared/string leave in memory.
use native.Mathlib.Decide.{ℕ_discrete}
use native.Mathlib.Nat.{add-zero, zero-add}
use balrog_os.Prelude.{
  ℕ, zero, suc, ◌+◌, ◌-◌, ◌%◌, ◌≤◌, ◌<◌, ◌≡◌, refl, ◌≢◌, ◌↔◌, ◌⊎◌, ◌&&◌, arith, ltb, leb,
  if◌then◌else◌, pos, minus_one,
}
use balrog_os.Memory.{
  Memory, write, copy_up, copy_down, memcpy, memmove, set_up, memset, compare_up, memcmp,
}

-- Memory in which the `n` bytes at `dst` are those that `m` holds at `src`.
abbrev pub copied : Memory → (dst src n : ℕ) → Memory
copied m dst src n x = if leb dst x && ltb x (dst + n) then m (src + (x - dst)) else m x

-- No byte of the source is overwritten before it is read: the target lies below the source, or
-- behind all of it.
copy_up_lem :
    (n i : ℕ) (m : Memory) (dst src x : ℕ)
    → (dst ≤ src) ⊎ (src + i + n ≤ dst)
    → copy_up m dst src i n x
      ≡ (if leb (dst + i) x && ltb x (dst + i + n) then m (src + (x - dst)) else m x)
unfolding copy_up write
copy_up_lem zero i m dst src x h = ground arith
copy_up_lem (suc n) i m dst src x h =
    ground (arith, copy_up_lem n (i + 1) (write m (dst + i) (m (src + i))) dst src x)

copy_down_lem :
    (n : ℕ) (m : Memory) (dst src x : ℕ)
    → src ≤ dst
    → copy_down m dst src n x ≡ copied m dst src n x
unfolding copy_down write
copy_down_lem zero m dst src x h = ground arith
copy_down_lem (suc n) m dst src x h =
    ground (arith, copy_down_lem n (write m (dst + n) (m (src + n))) dst src x)

-- memmove leaves at `dest` exactly the bytes that `source` held before the call, however the two
-- ranges overlap, changes nothing else, and returns `dest`.
pub memmove-copied :
    (m : Memory) (dest source size : ℕ)
    → ((x : ℕ) → (memmove m dest source size).0 x ≡ copied m dest source size x)
      × ((memmove m dest source size).1 ≡ dest)
unfolding memmove
memmove-copied m dest source size = (
  λ x. ground (arith, copy_up_lem size 0 m dest source x, copy_down_lem size m dest source x),
  refl,
)

-- memcpy does the same where the ranges are apart, and where the target starts below the source.
pub memcpy-copied :
    (m : Memory) (dest source size : ℕ)
    → (dest ≤ source) ⊎ (source + size ≤ dest)
    → ((x : ℕ) → (memcpy m dest source size).0 x ≡ copied m dest source size x)
      × ((memcpy m dest source size).1 ≡ dest)
unfolding memcpy
memcpy-copied m dest source size h = (λ x. ground (arith, copy_up_lem size 0 m dest source x), refl)

set_up_lem :
    (n i : ℕ) (m : Memory) (ptr value x : ℕ)
    → set_up m ptr value i n x
      ≡ (if leb (ptr + i) x && ltb x (ptr + i + n) then value % 256 else m x)
unfolding set_up write
set_up_lem zero i m ptr value x = ground arith
set_up_lem (suc n) i m ptr value x =
    ground (arith, set_up_lem n (i + 1) (write m (ptr + i) (value % 256)) ptr value x)

-- memset fills exactly the `count` bytes at `pointer` with the low byte of `value`.
pub memset_lem :
    (m : Memory) (pointer value count x : ℕ)
    → (memset m pointer value count).0 x
      ≡ (if leb pointer x && ltb x (pointer + count) then value % 256 else m x)
unfolding memset
memset_lem m pointer value count x = ground (arith, set_up_lem count 0 m pointer value x)

-- One round of memcmp that goes on to the next.
compare_step :
    (n i : ℕ) (m : Memory) (p q : ℕ)
    → (compare_up m p q i (suc n) ≡ pos 0)
      ↔ ((m (p + i) ≡ m (q + i)) × (compare_up m p q (i + 1) n ≡ pos 0))
unfolding compare_up
compare_step n i m p q = (λ e. (ground arith, ground arith), λ h. ground arith)

compare_up_lem :
    (n i : ℕ) (m : Memory) (p q : ℕ)
    → (compare_up m p q i n ≡ pos 0) ↔ ((k : ℕ) → i ≤ k → k < i + n → m (p + k) ≡ m (q + k))
compare_up_lem zero i m p q = (λ e k l u. absurd (omega arith), λ h. unfold compare_up in refl)
compare_up_lem (suc n) i m p q = (
  λ e k l u.
      let (here, later) = (compare_step n i m p q).0 e in
      let below = (compare_up_lem n (i + 1) m p q).0 later in
      elim (ℕ_discrete k i) [
        | yes same ↦ rw same here
        | no other ↦ below k (omega arith) (omega arith)
      ],
  λ h. (compare_step n i m p q).1 (
    h i (omega arith) (omega arith),
    (compare_up_lem n (i + 1) m p q).1 (λ k l u. h k (omega arith) (omega arith)),
  ),
)

-- memcmp returns 0 exactly when the two ranges hold the same bytes.
pub memcmp-eq_zero :
    (m : Memory) (addr_1 addr_2 size : ℕ)
    → (memcmp m addr_1 addr_2 size ≡ pos 0) ↔ ((k : ℕ) → k < size → m (addr_1 + k) ≡ m (addr_2 + k))
unfolding memcmp
memcmp-eq_zero m addr_1 addr_2 size = (
  λ e k u. (compare_up_lem size 0 m addr_1 addr_2).0 e k (omega arith) (omega arith),
  λ h. (compare_up_lem size 0 m addr_1 addr_2).1 (λ k l u. h k (omega arith)),
)

compare_up_differ :
    (n i : ℕ) (m : Memory) (p q d : ℕ)
    → d < n
    → ((k : ℕ) → k < d → m (p + (i + k)) ≡ m (q + (i + k)))
    → m (p + (i + d)) ≢ m (q + (i + d))
    → compare_up m p q i n ≡ (if ltb (m (p + (i + d))) (m (q + (i + d))) then minus_one else pos 1)
unfolding compare_up
compare_up_differ zero i m p q d l same differ = absurd (omega arith)
compare_up_differ (suc n) i m p q zero l same differ = ground (arith, add-zero i)
compare_up_differ (suc n) i m p q (suc d) l same differ = ground (
  arith,
  add-zero i,
  same 0,
  compare_up_differ n (i + 1) m p q d (omega arith)
      (λ k u. rw (shift k) (same (suc k) (omega arith))) (rw (shift d) differ),
  shift d,
)
  where
    shift : (k : ℕ) → i + 1 + k ≡ i + suc k
    shift k = omega arith

-- memcmp orders two ranges by the first byte at which they differ, unsigned: -1 if the byte of
-- `addr_1` is the smaller, and 1 otherwise.
pub memcmp_differ :
    (m : Memory) (addr_1 addr_2 size d : ℕ)
    → d < size
    → ((k : ℕ) → k < d → m (addr_1 + k) ≡ m (addr_2 + k))
    → m (addr_1 + d) ≢ m (addr_2 + d)
    → memcmp m addr_1 addr_2 size
      ≡ (if ltb (m (addr_1 + d)) (m (addr_2 + d)) then minus_one else pos 1)
unfolding memcmp
memcmp_differ m addr_1 addr_2 size d l same differ = rw zero-add at (
    compare_up_differ size 0 m addr_1 addr_2 d l (λ k u. rw zero-add (same k u))
      (rw zero-add differ))
