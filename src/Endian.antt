-- ===== src/Endian.antt =====
-- src/shared/endian/byteorder.c: the host and network byte orders. `__builtin_bswap16`, 32 and 64
-- are `bswap 2`, 4 and 8: the bytes of a word in reverse. The file is compiled for AMD64, so
-- BYTE_ORDER is LITTLE_ENDIAN, TO_BIG swaps and TO_LITTLE is the identity.
pub mod Laws
mod Tests
use balrog_os.Prelude.{ℕ, zero, suc, ◌+◌, ◌*◌, ◌/◌, ◌%◌, List, [], ◌∷◌, reverse}

-- The `n` low bytes of a word, least significant first: how AMD64 stores it.
unfoldable pub bytes_le : ℕ → ℕ → List ℕ
bytes_le zero value = []
bytes_le (suc n) value = (value % 256) ∷ bytes_le n (value / 256)

-- The word that such bytes store.
unfoldable pub from_le : List ℕ → ℕ
from_le [] = 0
from_le (x ∷ xs) = x + 256 * from_le xs

unfoldable pub bswap : ℕ → ℕ → ℕ
unfolding bytes_le from_le
bswap n value = from_le (reverse (bytes_le n value))

unfoldable pub htobe16 : ℕ → ℕ
htobe16 host = bswap 2 host

unfoldable pub htobe32 : ℕ → ℕ
htobe32 host = bswap 4 host

unfoldable pub htobe64 : ℕ → ℕ
htobe64 host = bswap 8 host

unfoldable pub htole16 : ℕ → ℕ
htole16 host = host

unfoldable pub htole32 : ℕ → ℕ
htole32 host = host

unfoldable pub htole64 : ℕ → ℕ
htole64 host = host

unfoldable pub be16toh : ℕ → ℕ
be16toh big = bswap 2 big

unfoldable pub be32toh : ℕ → ℕ
be32toh big = bswap 4 big

unfoldable pub be64toh : ℕ → ℕ
be64toh big = bswap 8 big

unfoldable pub le16toh : ℕ → ℕ
le16toh little = little

unfoldable pub le32toh : ℕ → ℕ
le32toh little = little

unfoldable pub le64toh : ℕ → ℕ
le64toh little = little

-- Network order is big endian.
unfoldable pub htons : ℕ → ℕ
htons host = bswap 2 host

unfoldable pub htonl : ℕ → ℕ
htonl host = bswap 4 host

unfoldable pub ntohs : ℕ → ℕ
ntohs net = bswap 2 net

unfoldable pub ntohl : ℕ → ℕ
ntohl net = bswap 4 net
