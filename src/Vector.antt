-- ===== src/Vector.antt =====
-- src/klib/data_structure/vector.c: a growing array of elements of a fixed size, over the memory of
-- Memory. What vmalloc returns for a size is a function, with 0 for none. vmfree changes headers of the
-- heap, which are outside this memory. Sizes do not wrap.
pub mod Bytes
mod Tests
use balrog_os.Prelude.{
  ℕ, ◌+◌, ◌-◌, ◌*◌, Bool, not, Option, none, some, ltb, leb, ◌==◌, if◌then◌else◌, ℤ, pos, negsuc,
  minus_one, false,
}
use balrog_os.Memory.{Memory, memcpy, memmove}

pub record Vector : Type 0 where
  pub current_size : ℕ
  pub max_size : ℕ
  pub mem_size : ℕ
  pub data_size : ℕ
  pub growth : ℕ
  pub data_at : ℕ

-- A result of the calls that return an int.
abbrev pub Result : Type 0
Result = ℤ × Vector × Memory

unfoldable pub vector_init : (vmalloc : ℕ → ℕ) → (data_size default_growth : ℕ) → ℤ × Vector
vector_init vmalloc data_size default_growth = (
  if vmalloc (default_growth * data_size) == 0 then minus_one else pos 0,
  record {
    current_size = 0;
    max_size = default_growth;
    mem_size = default_growth * data_size;
    data_size = data_size;
    growth = default_growth;
    data_at = vmalloc (default_growth * data_size);
  },
)

abbrev pub wider : (room : ℕ) → Vector → Vector
wider room v = record v {
  data_at = room;
  mem_size = v.mem_size + v.growth * v.data_size;
  max_size = v.max_size + v.growth;
}

-- `__vector_grow`
unfoldable pub vector_grow : (vmalloc : ℕ → ℕ) → Vector → Memory → Result
vector_grow vmalloc v m =
    let room : ℕ = vmalloc (v.mem_size + v.growth * v.data_size) in
    if room == 0
    then (minus_one, v, m)
    else (pos 0, wider room v, (memcpy m room v.data_at v.mem_size).0)

-- The copy behind the last element.
unfoldable pub append : (source : ℕ) → Vector → Memory → Result
append source v m = (
  pos 0,
  record v { current_size = v.current_size + 1 },
  (memcpy m (v.data_at + v.current_size * v.data_size) source v.data_size).0,
)

-- A call that returns 0 has succeeded.
abbrev is_zero : ℤ → Bool
is_zero (pos n) = n == 0
is_zero (negsuc n) = false

unfoldable pub vector_push : (vmalloc : ℕ → ℕ) → (source : ℕ) → Vector → Memory → Result
unfolding vector_grow append
vector_push vmalloc source v m =
    let (code, v', m') = vector_grow vmalloc v m in
    if not (ltb v.max_size (v.current_size + 1))
    then append source v m
    else if is_zero code
    then append source v' m'
    else (minus_one, v', m')

-- The elements behind `index` move one down, unless it is the last.
unfoldable pub close_gap : (index : ℕ) → Vector → Memory → Memory
close_gap index v m =
    if index == v.current_size - 1
    then m
    else (memmove m (v.data_at + index * v.data_size) (v.data_at + (index + 1) * v.data_size)
        ((v.current_size - index - 1) * v.data_size)).0

unfoldable pub vector_pop : (index source : ℕ) → Vector → Memory → Result
unfolding close_gap
vector_pop index source v m =
    if leb v.current_size index
    then (minus_one, v, m)
    else if source == 0
    then (minus_one, v, m)
    else (
      pos 0,
      record v { current_size = v.current_size - 1 },
      close_gap index v ((memcpy m source (v.data_at + index * v.data_size) v.data_size).0),
    )

-- The address of an element; `none` is NULL.
unfoldable pub vector_get : Vector → (index : ℕ) → Option ℕ
vector_get v index =
    if leb v.current_size index then none else some (v.data_at + index * v.data_size)

unfoldable pub vector_clear : Vector → ℤ × Vector
vector_clear v = if v.data_at == 0 then (minus_one, v) else (pos 0, record v { data_at = 0 })
