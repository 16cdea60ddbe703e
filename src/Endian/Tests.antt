-- ===== src/Endian/Tests.antt =====
-- Runs of the byte order calls.
use balrog_os.Prelude.{◌≡◌, refl}
use balrog_os.Endian.{bswap, htonl}

htonl_known : htonl 0x01020304 ≡ 0x04030201
unfolding htonl bswap
htonl_known = refl
