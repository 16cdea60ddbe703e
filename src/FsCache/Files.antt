-- ===== src/FsCache/Files.antt =====
-- The file table: adding, referencing, invalidating and closing.
use mathlib.Core.Path.{subst}
use native.Mathlib.Decide.{ℕ_discrete}
use balrog_os.Prelude.{
  ℕ, zero, suc, ◌+◌, ◌-◌, ◌^◌, ◌≤◌, ◌<◌, ◌≡◌, refl, ◌≢◌, ◌⊎◌, false, inl, inr, arith, leb, ◌==◌,
  Bool-cases, ==_refl, sym, ℤ, some, minus_one, pos,
}
use balrog_os.FsCache.{
  buffer_size, max_file, put_file, File, Cache, free_entry, add_file_array, fs_cache_add_file,
  fs_cache_get_file, fs_cache_increase_ref, fs_cache_invalidate, fs_cache_close_file,
}

-- The entry found is in range and free, or none of the `n` entries from `i` on is.
free_entry_lem :
    (n i : ℕ) (table : ℕ → File)
    → i + n ≤ max_file
    → ((free_entry table i n ≡ max_file)
        × ((k : ℕ) → i ≤ k → k < i + n → ((table k).size == 0) ≡ false))
      ⊎ ((free_entry table i n < max_file) × ((table (free_entry table i n)).size ≡ 0))
unfolding free_entry
free_entry_lem zero i table h = inl (refl, λ k low high. absurd (omega arith))
free_entry_lem (suc n) i table h = elim (Bool-cases ((table i).size == 0)) [
  | inl free ↦ inr (ground arith, ground arith)
  | inr used ↦ elim (free_entry_lem n (i + 1) table (omega arith)) [
    | inl (end, all) ↦ inl (
      rw used end,
      λ k low high. elim (ℕ_discrete k i) [
        | yes here ↦ rw here used
        | no other ↦ all k (omega arith) (omega arith)
      ],
    )
    | inr entry ↦ inr (rw used entry)
  ]
]

add_file_array-found :
    (name inbr buffer size : ℕ) (c : Cache)
    → free_entry c.file_table 0 max_file < max_file
    → add_file_array name inbr buffer size c ≡ (
      put_file name inbr buffer size (free_entry c.file_table 0 max_file) c,
      free_entry c.file_table 0 max_file,
    )
unfolding add_file_array
add_file_array-found name inbr buffer size c h = ground arith

add_file_array-full :
    (name inbr buffer size : ℕ) (c : Cache)
    → free_entry c.file_table 0 max_file ≡ max_file
    → add_file_array name inbr buffer size c ≡ (c, max_file)
unfolding add_file_array
add_file_array-full name inbr buffer size c h = ground arith

-- What fs_cache_add_file leaves: an entry that was free holds the file, and every other is as it
-- was; or no entry was free, and nothing has changed.
pub data Added (name buffer inbr size : ℕ) (c : Cache) (r : Cache × ℤ × ℕ) : Type 0 where
  added :
      (f : File)
      → r.1 ≡ pos 0
      → (c.file_table (r.2)).size ≡ 0
      → fs_cache_get_file (r.2) (r.0) ≡ some f
      → (f.name ≡ name) × (f.data_at ≡ buffer) × (f.size ≡ size) × (f.inode_nbr ≡ inbr)
      → ((k : ℕ) → k ≢ r.2 → r.0.file_table k ≡ c.file_table k)
      → Added name buffer inbr size c r
  full :
      ((k : ℕ) → k < max_file → ((c.file_table k).size == 0) ≡ false)
      → r ≡ (c, minus_one, max_file)
      → Added name buffer inbr size c r

fs_cache_add_file-full :
    (name buffer inbr size : ℕ) (c : Cache)
    → free_entry c.file_table 0 max_file ≡ max_file
    → fs_cache_add_file name buffer inbr size c ≡ (c, minus_one, max_file)
unfolding fs_cache_add_file
fs_cache_add_file-full name buffer inbr size c none_left =
    rw (add_file_array-full name inbr buffer size c none_left) refl

fs_cache_add_file-found :
    (name buffer inbr size : ℕ) (c : Cache)
    → free_entry c.file_table 0 max_file < max_file
    → fs_cache_add_file name buffer inbr size c ≡ (
      put_file name inbr buffer size (free_entry c.file_table 0 max_file) c,
      pos 0,
      free_entry c.file_table 0 max_file,
    )
unfolding fs_cache_add_file
fs_cache_add_file-found name buffer inbr size c low =
    let here : leb max_file (free_entry c.file_table 0 max_file) ≡ false = ground arith in
    rw (add_file_array-found name inbr buffer size c low, here) refl

-- fs_cache_add_file puts the file into an entry that was free, where fs_cache_get_file finds it,
-- and returns 0, and no other entry changes; or none of the FS_MAX_FILE entries was free, and it
-- returns -1 with FS_MAX_FILE as the index and changes nothing.
pub fs_cache_add_file-Added :
    (name buffer inbr size : ℕ) (c : Cache)
    → Added name buffer inbr size c (fs_cache_add_file name buffer inbr size c)
fs_cache_add_file-Added name buffer inbr size c =
    elim (free_entry_lem max_file 0 c.file_table (omega arith)) [
      | inl (none_left, all) ↦
          full (λ k low. all k (omega arith) (omega arith))
            (fs_cache_add_file-full name buffer inbr size c none_left)
      | inr (low, free) ↦
          let i : ℕ = free_entry c.file_table 0 max_file in
          let self = ==_refl i in
          subst (Added name buffer inbr size c)
            (sym (fs_cache_add_file-found name buffer inbr size c low))
            (added ((put_file name inbr buffer size i c).file_table i) refl free
              (unfold fs_cache_get_file in ground arith)
              (
                ground (arith, self),
                ground (arith, self),
                ground (arith, self),
                ground (arith, self),
              )
              (λ k ne. ground arith))
    ]

-- fs_cache_invalidate refuses every index, in every state, and changes nothing: its first test wants
-- a reference, and its second none.
pub fs_cache_invalidate_refuses :
    (index : ℕ) (c : Cache) → fs_cache_invalidate index c ≡ (c, minus_one)
unfolding fs_cache_invalidate
fs_cache_invalidate_refuses index c = ground arith

-- A file that is opened once more and closed keeps its buffer: the close returns -1, and the
-- reference count and every slot are as before.
pub close-increase_ref :
    (index : ℕ) (c : Cache)
    → 0 < (c.file_table index).reference
    → (c.file_table index).reference < 2 ^ 32 - 1
    → ((fs_cache_close_file index (fs_cache_increase_ref index c)).1 ≡ minus_one)
      × (((fs_cache_close_file index (fs_cache_increase_ref index c)).0.file_table index).reference
          ≡ (c.file_table index).reference)
      × ((k : ℕ)
          → (fs_cache_close_file index (fs_cache_increase_ref index c)).0.slot_taken k
            ≡ c.slot_taken k)
unfolding fs_cache_close_file fs_cache_increase_ref
close-increase_ref index c low high = (ground arith, ground arith, λ k. ground arith)

-- The last close of a file smaller than a slot returns 0 and frees the entry, and leaves every slot
-- of the buffer map taken that was taken.
pub close-leaks :
    (index : ℕ) (c : Cache)
    → (c.file_table index).reference ≡ 1
    → (c.file_table index).size < buffer_size
    → ((fs_cache_close_file index c).1 ≡ pos 0)
      × (((fs_cache_close_file index c).0.file_table index).size ≡ 0)
      × ((k : ℕ) → (fs_cache_close_file index c).0.slot_taken k ≡ c.slot_taken k)
unfolding fs_cache_close_file
close-leaks index c last small = (ground arith, ground arith, λ k. ground arith)
