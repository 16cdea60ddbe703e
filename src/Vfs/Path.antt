-- ===== src/Vfs/Path.antt =====
-- The paths of src/kernel/file_system/vfs/vfs.c: the parts between slashes, and vfs_sanitize_path. A
-- path is the list of its bytes without the NUL. vfs_sanitize_path never writes in front of where it
-- reads, so its result does not depend on whether it works in place. Its loop takes fuel.
use balrog_os.Prelude.{
  ℕ, zero, suc, Option, none, some, List, [], ◌∷◌, ◌++◌, ◌==◌, if◌then◌else◌, length,
}
use mathlib.Core.Option

abbrev pub slash : ℕ
slash = b'/'

-- `__vfs_get_next_path_part_len`: the bytes up to a slash, or all that are left.
unfoldable pub next_part_len : List ℕ → ℕ
next_part_len [] = 0
next_part_len (c ∷ cs) = if c == slash then 0 else suc (next_part_len cs)

-- Those bytes, and what stands behind them.
unfoldable pub part_of : List ℕ → List ℕ
part_of [] = []
part_of (c ∷ cs) = if c == slash then [] else c ∷ part_of cs

unfoldable pub behind_part : List ℕ → List ℕ
behind_part [] = []
behind_part (c ∷ cs) = if c == slash then c ∷ cs else behind_part cs

-- `while(path[part_start] == '/') part_start++;`
unfoldable pub skip_slashes : List ℕ → List ℕ
skip_slashes [] = []
skip_slashes (c ∷ cs) = if c == slash then skip_slashes cs else c ∷ cs

-- `if(path[start] == '/') start++;`
unfoldable pub skip_slash : List ℕ → List ℕ
skip_slash [] = []
skip_slash (c ∷ cs) = if c == slash then cs else c ∷ cs

-- The slash that a round copies.
unfoldable pub first_slash : List ℕ → List ℕ
first_slash [] = []
first_slash (c ∷ cs) = if c == slash then slash ∷ [] else []

-- The rounds of vfs_sanitize_path, from the part that starts at `path`.
unfoldable pub sanitize_rounds : ℕ → List ℕ → Option (List ℕ)
unfolding first_slash skip_slashes part_of behind_part
sanitize_rounds zero path = none
sanitize_rounds (suc fuel) [] = some []
sanitize_rounds (suc fuel) (c ∷ cs) =
    let part = skip_slashes (c ∷ cs) in
    Option.map (λ rest. first_slash (c ∷ cs) ++ (part_of part ++ rest))
      (sanitize_rounds fuel (behind_part part))

unfoldable pub vfs_sanitize_path : List ℕ → Option (List ℕ)
unfolding sanitize_rounds
vfs_sanitize_path path = sanitize_rounds (suc (length path)) path
