-- ===== src/Str.antt =====
-- The C string routines of src/shared/string: strlen, strcmp, strcpy, strspn, strcspn and strtok,
-- over flat memory. A scan for the terminating NUL takes fuel, one unit a round; `none`
-- means that the fuel ran out. A string of `n` bytes takes `n + 1` units.
pub mod Content
pub mod Length
pub mod Token
mod Tests
use balrog_os.Prelude.{
  ℕ, zero, suc, ◌+◌, Bool, true, false, not, ◌&&◌, Option, none, some, ◌==◌, if◌then◌else◌, ℤ,
  minus_one,
}
use balrog_os.Memory.{Memory, write, memcpy, memcmp}

infixl 5 ◌>>=◌
abbrev pub ◌>>=◌ : {A B : Type 0} → Option A → (A → Option B) → Option B
none >>= f = none
some a >>= f = f a

-- `while(str[length]) length++;`
unfoldable pub strlen_from : ℕ → Memory → (str length : ℕ) → Option ℕ
strlen_from zero m str len = none
strlen_from (suc fuel) m str len =
    let rest = strlen_from fuel m str (len + 1) in if m (str + len) == 0 then some len else rest

unfoldable pub strlen : ℕ → Memory → ℕ → Option ℕ
unfolding strlen_from
strlen fuel m str = strlen_from fuel m str 0

unfoldable pub strcmp : ℕ → Memory → (first second : ℕ) → Option ℤ
strcmp fuel m first second = do
  len1 ← strlen fuel m first
  len2 ← strlen fuel m second
  if len1 == len2 then some (memcmp m first second len1) else some minus_one

-- The source copies no NUL and returns 0.
unfoldable pub strcpy : ℕ → Memory → (dest source : ℕ) → Option (Memory × ℕ)
strcpy fuel m dest source = do len ← strlen fuel m source; some ((memcpy m dest source len).0, 0)

-- `while(str[size] == delim && str[size] != 0) size++;`
unfoldable pub strspn_from : ℕ → Memory → (str delim size : ℕ) → Option ℕ
strspn_from zero m str delim size = none
strspn_from (suc fuel) m str delim size =
    let rest = strspn_from fuel m str delim (size + 1) in
    if (m (str + size) == delim) && not (m (str + size) == 0) then rest else some size

unfoldable pub strspn : ℕ → Memory → (str delim : ℕ) → Option ℕ
unfolding strspn_from
strspn fuel m str delim = strspn_from fuel m str delim 0

-- `while(str[size] != delim && str[size] != 0) size++;`
unfoldable pub strcspn_from : ℕ → Memory → (str delim size : ℕ) → Option ℕ
strcspn_from zero m str delim size = none
strcspn_from (suc fuel) m str delim size =
    let rest = strcspn_from fuel m str delim (size + 1) in
    if not (m (str + size) == delim) && not (m (str + size) == 0) then rest else some size

unfoldable pub strcspn : ℕ → Memory → (str delim : ℕ) → Option ℕ
unfolding strcspn_from
strcspn fuel m str delim = strcspn_from fuel m str delim 0

-- What one call of strtok leaves: memory, the static `current_ptr`, and the returned pointer, with
-- 0 for NULL.
pub record Tok : Type 0 where
  pub mem : Memory
  pub current_ptr : ℕ
  pub result : ℕ

abbrev pub tok : Memory → ℕ → ℕ → Tok
tok m c r = record { mem = m; current_ptr = c; result = r }

-- The token is `str[0..size)`: cut it off, unless the string ends with it.
unfoldable pub strtok_cut : Memory → (str size : ℕ) → Tok
strtok_cut m str size =
    if m (str + size) == 0
    then tok m (str + size) str
    else tok (write m (str + size) 0) (str + size + 1) str

unfoldable pub strtok_skipped : ℕ → Memory → (str delim : ℕ) → Option Tok
unfolding strtok_cut
strtok_skipped fuel m str delim =
    if m str == 0
    then some (tok m str 0)
    else do size ← strcspn fuel m str delim; some (strtok_cut m str size)

-- strtok behind its NULL test: `str` is the position to go on from.
unfoldable pub strtok_at : ℕ → Memory → (str delim : ℕ) → Option Tok
unfolding strtok_skipped
strtok_at fuel m str delim =
    if m str == 0
    then some (tok m str 0)
    else do skip ← strspn fuel m str delim; strtok_skipped fuel m (str + skip) delim

unfoldable pub strtok : ℕ → Memory → (current_ptr str delim : ℕ) → Option Tok
unfolding strtok_at
strtok fuel m current_ptr str delim = strtok_at fuel m (if str == 0 then current_ptr else str) delim
