-- ===== src/FsCache.antt =====
-- src/kernel/file_system/fs_cache.c: the table of cached files and the map of 32 MiB buffer slots.
-- The tables are functions of the index; an index of the C code stays below 100 and 4096. A slot's
-- byte is 0 or 1, kept as a Bool. `mapped` says which pages of the cache area have a mapping: what
-- vmm_set_page and vmm_free_page do there. `fails i` says that pmm_calloc or vmm_set_page has nothing
-- for the page at offset `i`.
pub mod Buffer
pub mod Files
mod Tests
use balrog_os.Prelude.{
  ℕ, zero, suc, ◌+◌, ◌-◌, ◌*◌, ◌/◌, ◌%◌, ◌^◌, Bool, true, false, not, ◌&&◌, ◌||◌, Option, none,
  some, ltb, leb, ◌==◌, if◌then◌else◌, ℤ, pos, minus_one,
}

-- FS_MAX_FILE, FS_BUFFER_SIZE, FS_CACHE_OFFSET, the number of slots, and PAGE_SIZE
abbrev pub max_file : ℕ
max_file = 100

abbrev pub buffer_size : ℕ
buffer_size = 32 * (1024 * 1024)

abbrev pub cache_offset : ℕ
cache_offset = 0xffffffa000000000

abbrev pub slots : ℕ
slots = 4096

abbrev pub page_size : ℕ
page_size = 4096

-- `fs_file`; the name is its address.
pub record File : Type 0 where
  pub name : ℕ
  pub data_at : ℕ
  pub size : ℕ
  pub protection : ℕ
  pub reference : ℕ
  pub inode_nbr : ℕ

pub record Cache : Type 0 where
  pub file_table : ℕ → File
  pub slot_taken : ℕ → Bool
  pub mapped : ℕ → Bool

abbrev pub update {ℓ} : {A : Type ℓ} → (ℕ → A) → ℕ → A → ℕ → A
update f i a j = if j == i then a else f j

-- The first free entry from `i` on, of `n` entries.
unfoldable pub free_entry : (ℕ → File) → (i n : ℕ) → ℕ
free_entry table i zero = max_file
free_entry table i (suc n) =
    let rest = free_entry table (i + 1) n in if (table i).size == 0 then i else rest

-- The stores to the entry.
abbrev pub put_file : (name inbr buffer size i : ℕ) → Cache → Cache
put_file name inbr buffer size i c = record c {
  file_table =
      update c.file_table i
        (record (c.file_table i) { name = name; data_at = buffer; size = size; inode_nbr = inbr });
}

-- `_fs_cache_add_file_array`; FS_MAX_FILE is not an entry.
unfoldable pub add_file_array : (name inbr buffer size : ℕ) → Cache → Cache × ℕ
add_file_array name inbr buffer size c =
    let i = free_entry c.file_table 0 max_file in
    if i == max_file then (c, max_file) else (put_file name inbr buffer size i c, i)

-- The result, and what goes through `index`.
unfoldable pub fs_cache_add_file : (name buffer inbr size : ℕ) → Cache → Cache × ℤ × ℕ
fs_cache_add_file name buffer inbr size c =
    let (c', index) = add_file_array name inbr buffer size c in
    (c', if leb max_file index then minus_one else pos 0, index)

unfoldable pub fs_cache_increase_ref : ℕ → Cache → Cache
fs_cache_increase_ref index c = record c {
  file_table =
      update c.file_table index
        (record (c.file_table index) { reference = ((c.file_table index).reference + 1) % 2 ^ 32 });
}

unfoldable pub fs_cache_get_file : ℕ → Cache → Option File
fs_cache_get_file index c = if leb max_file index then none else some (c.file_table index)

-- The locals of the search: `start_buffer_index`, `buffer_size` and `contiguous`.
pub record Span : Type 0 where
  pub start : ℕ
  pub bytes : ℕ
  pub contiguous : Bool

abbrev pub span : ℕ → ℕ → Bool → Span
span s b c = record { start = s; bytes = b; contiguous = c }

-- One round, at slot `i`.
unfoldable pub span_step : (ℕ → Bool) → ℕ → Span → Span
span_step slot_taken i s =
    if not (slot_taken i) && (s.bytes == 0)
    then span i buffer_size true
    else if not (slot_taken i) && s.contiguous
    then span s.start (s.bytes + buffer_size) true
    else if slot_taken i
    then span 0 0 false
    else s

-- The rounds from slot `i`, `n` at most, up to the break.
unfoldable pub find_span : (ℕ → Bool) → (size i n : ℕ) → Span → Span
find_span slot_taken size i zero s = s
find_span slot_taken size i (suc n) s =
    let s' = span_step slot_taken i s in
    let rest = find_span slot_taken size (i + 1) n s' in if leb size s'.bytes then s' else rest

-- Slots `start` to `end - 1` get the value.
unfoldable pub mark_slots : (ℕ → Bool) → (start end : ℕ) → Bool → ℕ → Bool
mark_slots slot_taken start end value k = if leb start k && ltb k end then value else slot_taken k

-- The pages of `addr` from offset `i` on, of `n` rounds; none if one of them fails, with the pages
-- unmapped that were mapped before it.
unfoldable pub map_pages : (ℕ → Bool) → (addr i n : ℕ) → (ℕ → Bool) → Bool × (ℕ → Bool)
map_pages fails addr i zero mapped = (true, mapped)
map_pages fails addr i (suc n) mapped =
    let rest = map_pages fails addr (i + page_size) n (update mapped (addr + i) true) in
    if fails i then (false, mapped) else rest

-- `for(i = 0; i < bytes; i += PAGE_SIZE) vmm_free_page(0, addr + i)`
unfoldable pub unmap_pages : (addr i n : ℕ) → (ℕ → Bool) → ℕ → Bool
unmap_pages addr i zero mapped = mapped
unmap_pages addr i (suc n) mapped =
    unmap_pages addr (i + page_size) n (update mapped (addr + i) false)

-- The rounds of a loop over the pages of `bytes` bytes.
abbrev pub pages_of : ℕ → ℕ
pages_of bytes = (bytes + page_size - 1) / page_size

-- How many pages were mapped before the first that fails.
unfoldable pub pages_before : (ℕ → Bool) → (i n : ℕ) → ℕ
pages_before fails i zero = 0
pages_before fails i (suc n) =
    let rest : ℕ = suc (pages_before fails (i + page_size) n) in if fails i then 0 else rest

-- A span that is large enough is taken and mapped, or given back if a page is missing.
unfoldable pub take_span : (ℕ → Bool) → (size : ℕ) → Span → Cache → Cache × ℕ
unfolding mark_slots
take_span fails size s c =
    let end_block : ℕ = s.start + s.bytes / buffer_size in
    let addr : ℕ = cache_offset + s.start * buffer_size in
    let taken = mark_slots c.slot_taken s.start end_block true in
    let to_map : ℕ = if size == 0 then page_size else size in
    let (done, mapped) = map_pages fails addr 0 (pages_of to_map) c.mapped in
    if done then (record c { slot_taken = taken; mapped = mapped }, addr) else (
      record c {
        slot_taken = mark_slots taken s.start end_block false;
        mapped = unmap_pages addr 0 (pages_before fails 0 (pages_of to_map)) mapped;
      },
      0,
    )

-- A buffer of `size` bytes, or 0.
unfoldable pub fs_cache_get_new_buffer : (ℕ → Bool) → (size : ℕ) → Cache → Cache × ℕ
fs_cache_get_new_buffer fails size c =
    let s = find_span c.slot_taken size 0 slots (span 0 0 false) in
    if leb size s.bytes then take_span fails size s c else (c, 0)

-- `data & ~FS_CACHE_OFFSET` keeps the low 37 bits and bit 38.
abbrev pub cache_part : ℕ → ℕ
cache_part addr = addr % 2 ^ 37 + addr / 2 ^ 38 % 2 * 2 ^ 38

-- `__fs_cache_free_buffer`
unfoldable pub free_buffer : ℕ → Cache → Cache
unfolding mark_slots
free_buffer index c =
    let f = c.file_table index in
    let buf_size : ℕ = f.size / buffer_size in
    let buf_idx : ℕ = cache_part f.data_at / buffer_size in
    record c {
      slot_taken = mark_slots c.slot_taken buf_idx (buf_idx + buf_size) false;
      mapped = unmap_pages f.data_at 0 (pages_of f.size) c.mapped;
    }

abbrev pub drop_size : ℕ → Cache → Cache
drop_size index c = record c {
  file_table = update c.file_table index (record (c.file_table index) { size = 0 });
}

unfoldable pub fs_cache_invalidate : ℕ → Cache → Cache × ℤ
unfolding free_buffer
fs_cache_invalidate index c =
    if leb max_file index || ((c.file_table index).reference == 0)
    then (c, minus_one)
    else if not ((c.file_table index).reference == 0)
    then (c, minus_one)
    else (drop_size index (free_buffer index c), pos 0)

-- `--file_table[index].reference`
abbrev pub drop_reference : ℕ → Cache → Cache
drop_reference index c = record c {
  file_table = update c.file_table index (record (c.file_table index) {
    reference = ((c.file_table index).reference + 2 ^ 32 - 1) % 2 ^ 32;
  });
}

unfoldable pub fs_cache_close_file : ℕ → Cache → Cache × ℤ
unfolding free_buffer
fs_cache_close_file index c =
    let c' = drop_reference index c in
    if (c'.file_table index).reference == 0
    then (drop_size index (free_buffer index c'), pos 0)
    else (c', minus_one)
