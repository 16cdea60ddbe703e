-- ===== src/Ext2/Tests.antt =====
-- Runs of the block bitmap on a device of a few sectors.
use balrog_os.Prelude.{
  ℕ, ◌≤◌, ◌≡◌, ◌≢◌, refl, ◌⊎◌, true, ◌&&◌, Option, none, some, arith, ltb, ◌==◌, pos,
}
use balrog_os.Ext2.{
  Counters, Device, Ext2, free_byte, find_free_bitmap, find_free_blocks,
  find_higher_half_free_blocks, free_alloc_block, take_block, store_bit, store_sector, count_blocks,
  update_sb_and_blk_desc,
}
use balrog_os.Ext2.Full.{Unserved, find_higher_half_free_blocks-low}
use balrog_os.Ext2.Take.{Allocated, find_free_blocks-Allocated}
use balrog_os.Ext2.Blocks.{free_alloc_block-find_free_blocks, find_free_blocks-distinct}

abbrev some_counters : Counters
some_counters = record {
  unalloc_blocks = 7997;
  unalloc_inodes = 100;
  num_of_unalloc_block = 7997;
  num_of_unalloc_inode = 100;
}

-- The first three blocks of 8000 are taken.
abbrev three_taken : Device
three_taken = record {
  sectors = λ x i b. (x == 24) && ((i == 0) && ltb b 3);
  saved = some_counters;
  read_ok = λ x. true;
  write_ok = λ x. true;
}

abbrev small_disk : Ext2
small_disk = record {
  dev = three_taken;
  fs_data = record {
    counters = some_counters;
    blocks = 8000;
    block_bitmap = 3;
    inode_bitmap = 4;
    sec_per_block = 8;
    block_size = 4096;
  };
}

-- The state behind a search.
abbrev state_of : Option (ℕ × Ext2) → Ext2
state_of none = small_disk
state_of (some p) = p.1

abbrev after_first : Ext2
after_first = state_of (find_free_blocks 1001 small_disk)

first_block : find_free_blocks 1001 small_disk ≡ some (4, after_first)
unfolding find_free_blocks find_free_bitmap free_byte take_block
first_block = refl

find_free_blocks-Allocated_example :
    (id : ℕ) × (e' : Ext2) × (find_free_blocks 1001 small_disk ≡ some (id, e'))
    × (((id ≡ 0) × (e' ≡ small_disk)) ⊎ Allocated small_disk id e')
find_free_blocks-Allocated_example =
    find_free_blocks-Allocated 1001 small_disk (omega arith) (omega arith)

free_alloc_block-find_free_blocks_example :
    ((free_alloc_block 4 after_first).0 ≡ pos 0)
    × ((x i b : ℕ)
        → ((free_alloc_block 4 after_first).1).dev.sectors x i b ≡ small_disk.dev.sectors x i b)
    × (((free_alloc_block 4 after_first).1).fs_data ≡ small_disk.fs_data)
free_alloc_block-find_free_blocks_example =
    free_alloc_block-find_free_blocks 1001 4 small_disk after_first (omega arith) (omega arith)
      (omega arith) (omega arith) (omega arith) first_block (omega arith)

abbrev after_second : Ext2
after_second = state_of (find_free_blocks 1001 after_first)

second_block : find_free_blocks 1001 after_first ≡ some (5, after_second)
unfolding find_free_blocks find_free_bitmap free_byte take_block update_sb_and_blk_desc count_blocks
    store_sector store_bit
second_block = refl

find_free_blocks-distinct_example : ◌≢◌ {A = ℕ} 4 5
find_free_blocks-distinct_example =
    find_free_blocks-distinct 1001 4 5 small_disk after_first after_second (omega arith)
      (omega arith) first_block (omega arith) second_block (omega arith)

find_higher_half_free_blocks-low_example :
    (id : ℕ) × (e' : Ext2) × (find_higher_half_free_blocks 2 small_disk ≡ some (id, e'))
    × (((id ≡ 0) × (e' ≡ small_disk) × Unserved three_taken 24)
        ⊎ ((id ≤ 4096) × Allocated small_disk id e'))
find_higher_half_free_blocks-low_example =
    find_higher_half_free_blocks-low 0 small_disk (omega arith) (omega arith)

-- A bitmap of one byte in a sector that is all set.
abbrev full_device : Device
full_device = record {
  sectors = λ x i b. true;
  saved = some_counters;
  read_ok = λ x. true;
  write_ok = λ x. true;
}

full_search : find_free_bitmap 2 1 24 0 full_device ≡ some (0, full_device)
unfolding find_free_bitmap free_byte
full_search = refl
