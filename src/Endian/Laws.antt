-- ===== src/Endian/Laws.antt =====
-- The byte order calls: what they store, and that they undo one another.
use mathlib.Core.List.{reverse-reverse, reverse_aux}
use native.Mathlib.Nat.{pow-suc}
use balrog_os.Prelude.{
  ℕ, zero, suc, ◌+◌, ◌*◌, ◌/◌, ◌%◌, ◌^◌, ◌<◌, ◌≡◌, refl, ap, List, [], ◌∷◌, reverse, arith, length,
  All,
}
use balrog_os.Endian.{
  bytes_le, from_le, bswap, htobe16, htobe32, htobe64, be16toh, be32toh, be64toh, htons, htonl,
  ntohs, ntohl,
}

abbrev IsByte : ℕ → Type 0
IsByte x = x < 256

bytes_le-bytes : (n value : ℕ) → All IsByte (bytes_le n value)
unfolding bytes_le
bytes_le-bytes zero value = tt
bytes_le-bytes (suc n) value = (omega arith, bytes_le-bytes n (value / 256))

length-bytes_le : (n value : ℕ) → length (bytes_le n value) ≡ n
unfolding bytes_le
length-bytes_le zero value = refl
length-bytes_le (suc n) value = ap suc (length-bytes_le n (value / 256))

bytes_le-from_le : (xs : List ℕ) → All IsByte xs → bytes_le (length xs) (from_le xs) ≡ xs
unfolding bytes_le from_le
bytes_le-from_le [] h = refl
bytes_le-from_le (x ∷ xs) h =
    let low : (x + 256 * from_le xs) % 256 ≡ x = omega arith in
    let high : (x + 256 * from_le xs) / 256 ≡ from_le xs = omega arith in
    rw (low, high, bytes_le-from_le xs h.1)

from_le-bytes_le : (n value : ℕ) → value < 256 ^ n → from_le (bytes_le n value) ≡ value
unfolding bytes_le from_le
from_le-bytes_le zero value h = omega arith
from_le-bytes_le (suc n) value h =
    let small : value / 256 < 256 ^ n = omega (arith, pow-suc 256 n) in
    omega (arith, from_le-bytes_le n (value / 256) small)

All-reverse_aux : (xs ys : List ℕ) → All IsByte xs → All IsByte ys → All IsByte (reverse_aux xs ys)
All-reverse_aux [] ys hx hy = hy
All-reverse_aux (x ∷ xs) ys hx hy = All-reverse_aux xs (x ∷ ys) hx.1 (hx.0, hy)

length-reverse_aux : (xs ys : List ℕ) → length (reverse_aux xs ys) ≡ length xs + length ys
length-reverse_aux [] ys = omega arith
length-reverse_aux (x ∷ xs) ys = omega (arith, length-reverse_aux xs (x ∷ ys))

-- The bytes of a swapped word are the bytes of the word in reverse.
pub bytes_le-bswap : (n value : ℕ) → bytes_le n (bswap n value) ≡ reverse (bytes_le n value)
unfolding bswap
bytes_le-bswap n value =
    let bs = bytes_le n value in
    let e : length (reverse bs) ≡ n =
      omega (arith, length-reverse_aux bs [], length-bytes_le n value) in
    rw e at (bytes_le-from_le (reverse bs) (All-reverse_aux bs [] (bytes_le-bytes n value) tt))

bswap_twice : (n value : ℕ) → value < 256 ^ n → bswap n (bswap n value) ≡ value
bswap_twice n value h =
    let swapped = bytes_le-bswap n value in
    unfold bswap in (rw (bytes_le-bswap n value, reverse-reverse, from_le-bytes_le n value h))

-- htobe16, htobe32 and htobe64 store the word with its most significant byte first.
pub htobe_bytes :
    (value : ℕ)
    → (bytes_le 2 (htobe16 value) ≡ reverse (bytes_le 2 value))
      × (bytes_le 4 (htobe32 value) ≡ reverse (bytes_le 4 value))
      × (bytes_le 8 (htobe64 value) ≡ reverse (bytes_le 8 value))
unfolding htobe16 htobe32 htobe64
htobe_bytes value = (bytes_le-bswap 2 value, bytes_le-bswap 4 value, bytes_le-bswap 8 value)

-- be16toh, be32toh and be64toh undo htobe16, htobe32 and htobe64 on words that fit.
pub betoh-htobe :
    (v16 v32 v64 : ℕ)
    → v16 < 2 ^ 16
    → v32 < 2 ^ 32
    → v64 < 2 ^ 64
    → (be16toh (htobe16 v16) ≡ v16) × (be32toh (htobe32 v32) ≡ v32) × (be64toh (htobe64 v64) ≡ v64)
unfolding htobe16 htobe32 htobe64 be16toh be32toh be64toh
betoh-htobe v16 v32 v64 h16 h32 h64 =
    (bswap_twice 2 v16 h16, bswap_twice 4 v32 h32, bswap_twice 8 v64 h64)

-- ntohs and ntohl undo htons and htonl, and the other way round, on words that fit.
pub ntoh-hton :
    (short long : ℕ)
    → short < 2 ^ 16
    → long < 2 ^ 32
    → (ntohs (htons short) ≡ short)
      × (htons (ntohs short) ≡ short)
      × (ntohl (htonl long) ≡ long)
      × (htonl (ntohl long) ≡ long)
unfolding htons htonl ntohs ntohl
ntoh-hton short long hs hl =
    (bswap_twice 2 short hs, bswap_twice 2 short hs, bswap_twice 4 long hl, bswap_twice 4 long hl)
