-- ===== src/Ext2.antt =====
-- The usage bitmaps of src/kernel/file_system/ext2/ext2.c, and the counters that go with them. A
-- sector of a bitmap is a function that tells which bit of which byte is set. The device answers
-- whether a read or a write of a sector succeeds; a write that fails leaves the sector as it was. The
-- superblock and the group descriptor on the device are their counters here.
pub mod Bitmap
pub mod Search
pub mod Full
pub mod Take
pub mod Blocks
mod Tests
use balrog_os.Prelude.{
  ℕ, zero, suc, ◌+◌, ◌-◌, ◌*◌, ◌/◌, ◌%◌, Bool, true, false, ◌&&◌, not, Option, none, some, ltb,
  ◌==◌, if◌then◌else◌, ℤ, pos, minus_one,
}
use mathlib.Core.Option

abbrev pub Byte : Type 0
Byte = ℕ → Bool

abbrev pub Sector : Type 0
Sector = ℕ → Byte

-- The counters of the superblock and of the group descriptor.
pub record Counters : Type 0 where
  pub unalloc_blocks : ℕ
  pub unalloc_inodes : ℕ
  pub num_of_unalloc_block : ℕ
  pub num_of_unalloc_inode : ℕ

-- `fs_device_t`: its sectors, the counters that are written on it, and which sectors fail.
pub record Device : Type 0 where
  pub sectors : ℕ → Sector
  pub saved : Counters
  pub read_ok : ℕ → Bool
  pub write_ok : ℕ → Bool

-- `ext2_fs_data`
pub record FsData : Type 0 where
  pub counters : Counters
  pub blocks : ℕ
  pub block_bitmap : ℕ
  pub inode_bitmap : ℕ
  pub sec_per_block : ℕ
  pub block_size : ℕ

-- The mounted file system: the device and what ext2.c keeps of it.
pub record Ext2 : Type 0 where
  pub dev : Device
  pub fs_data : FsData

-- The first clear bit of a byte, from `bit` on.
unfoldable pub free_bit : (left bit : ℕ) → Byte → Option ℕ
free_bit zero bit byte = none
free_bit (suc left) bit byte =
    let rest = free_bit left (bit + 1) byte in if byte bit then rest else some bit

-- `block_bitmap[i] != 0xff` fails
unfoldable pub is_full : (left : ℕ) → Byte → Bool
is_full zero byte = true
is_full (suc left) byte = byte left && is_full left byte

-- The first clear bit of a sector, with its byte, from byte `i` on.
unfoldable pub free_byte : (left i : ℕ) → Sector → Option (ℕ × ℕ)
unfolding free_bit is_full
free_byte zero i sector = none
free_byte (suc left) i sector =
    let rest = free_byte left (i + 1) sector in
    if is_full 8 (sector i)
    then rest
    else elim (free_bit 8 0 (sector i)) [ none ↦ rest | some bit ↦ some (i, bit) ]

-- One bit of a sector is stored, and one sector of the device.
unfoldable pub store_bit : (i bit : ℕ) → Bool → Sector → Sector
store_bit i bit v sector x y = if (x == i) && (y == bit) then v else sector x y

unfoldable pub store_sector : (lba : ℕ) → Sector → Device → Device
store_sector lba sector dev = record dev {
  sectors = λ x. if x == lba then sector else dev.sectors x;
}

-- The rounds of `__ext2_find_free_bitmap`, which start at `lba` for `map_idx` 0. `none`: the fuel ran
-- out.
unfoldable pub find_free_bitmap : (fuel bitmap_size lba map_idx : ℕ) → Device → Option (ℕ × Device)
find_free_bitmap zero bitmap_size lba map_idx dev = none
find_free_bitmap (suc fuel) bitmap_size lba map_idx dev =
    let here : ℕ = lba + map_idx / 512 in
    let next = find_free_bitmap fuel bitmap_size lba (map_idx + 512) dev in
    if ltb map_idx bitmap_size
    then (if dev.read_ok here
        then elim (free_byte 512 0 (dev.sectors here)) [
          | none ↦ next
          | some (i, bit) ↦
              if dev.write_ok here
              then some (
                (bit + i * 8 + 4096 * (map_idx / 512) + 1) % 4294967296,
                store_sector here (store_bit i bit true (dev.sectors here)) dev,
              )
              else some (0, dev)
        ]
        else some (0, dev))
    else some (0, dev)

-- `__ext2_update_sb_and_blk_desc`: the superblock at sector 2, the descriptor behind it.
unfoldable pub update_sb_and_blk_desc : Ext2 → ℤ × Ext2
update_sb_and_blk_desc e =
    let fs = e.fs_data in
    let block_grp_loc : ℕ = if fs.block_size == 1024 then 2 else 1 in
    let with_sb : Device = record e.dev {
      saved = record e.dev.saved {
        unalloc_blocks = fs.counters.unalloc_blocks;
        unalloc_inodes = fs.counters.unalloc_inodes;
      };
    } in
    if not (e.dev.write_ok 2)
    then (minus_one, e)
    else if not (e.dev.write_ok (block_grp_loc * fs.sec_per_block))
    then (minus_one, record e { dev = with_sb })
    else (pos 0, record e { dev = record with_sb { saved = fs.counters } })

-- The counters for one block more, or less, that is free; of 32 and of 16 bits.
unfoldable pub count_blocks : (blocks : ℕ) → (group : ℕ) → Ext2 → Ext2
count_blocks blocks group e = record e {
  fs_data = record e.fs_data {
    counters = record e.fs_data.counters {
      unalloc_blocks = (e.fs_data.counters.unalloc_blocks + blocks) % 4294967296;
      num_of_unalloc_block = (e.fs_data.counters.num_of_unalloc_block + group) % 65536;
    };
  };
}

unfoldable pub count_inodes : (inodes : ℕ) → (group : ℕ) → Ext2 → Ext2
count_inodes inodes group e = record e {
  fs_data = record e.fs_data {
    counters = record e.fs_data.counters {
      unalloc_inodes = (e.fs_data.counters.unalloc_inodes + inodes) % 4294967296;
      num_of_unalloc_inode = (e.fs_data.counters.num_of_unalloc_inode + group) % 65536;
    };
  };
}

-- Bit `n` of a bitmap is cleared in the sector `lba`; `none` where the device fails.
unfoldable pub clear_at : (lba n : ℕ) → Ext2 → Option Ext2
clear_at lba n e =
    if e.dev.read_ok lba && e.dev.write_ok lba
    then some (record e {
      dev = store_sector lba (store_bit ((n / 8) % 512) (n % 8) false (e.dev.sectors lba)) e.dev;
    })
    else none

-- The sector and the bit of an id, in 32 bits.
unfoldable pub clear_bit : (bitmap : ℕ) → (id : ℕ) → Ext2 → Option Ext2
clear_bit bitmap id e =
    let n : ℕ = (id + 4294967295) % 4294967296 in
    clear_at ((bitmap * e.fs_data.sec_per_block + (n / 8) / 512) % 4294967296) n e

-- `__ext2_free_alloc_block` and `__ext2_free_alloc_inode`
unfoldable pub free_alloc_block : (block_id : ℕ) → Ext2 → ℤ × Ext2
free_alloc_block block_id e = elim (clear_bit e.fs_data.block_bitmap block_id e) [
  | none ↦ (minus_one, e)
  | some e' ↦ (pos 0, (update_sb_and_blk_desc (count_blocks 1 1 e')).1)
]

unfoldable pub free_alloc_inode : (inode_id : ℕ) → Ext2 → ℤ × Ext2
free_alloc_inode inode_id e = elim (clear_bit e.fs_data.inode_bitmap inode_id e) [
  | none ↦ (minus_one, e)
  | some e' ↦ (pos 0, (update_sb_and_blk_desc (count_inodes 1 1 e')).1)
]

-- What the callers of `__ext2_find_free_bitmap` do with its answer.
unfoldable pub take_block : ℕ × Device → Ext2 → ℕ × Ext2
take_block (block_id, dev) e =
    let e' : Ext2 = record e { dev = dev } in
    if block_id == 0
    then (0, e')
    else (block_id, (update_sb_and_blk_desc (count_blocks 4294967295 65535 e')).1)

unfoldable pub take_inode : ℕ × Device → Ext2 → ℕ × Ext2
take_inode (inode_id, dev) e =
    let e' : Ext2 = record e { dev = dev } in
    if inode_id == 0
    then (0, e')
    else (inode_id, (update_sb_and_blk_desc (count_inodes 4294967295 65535 e')).1)

-- `__ext2_find_free_blocks`
unfoldable pub find_free_blocks : (fuel : ℕ) → Ext2 → Option (ℕ × Ext2)
find_free_blocks fuel e =
    let fs = e.fs_data in
    Option.map (λ found. take_block found e)
      (find_free_bitmap fuel (fs.blocks / 8) (fs.block_bitmap * fs.sec_per_block) 0 e.dev)

-- `__ext2_find_higher_half_free_blocks`
unfoldable pub find_higher_half_free_blocks : (fuel : ℕ) → Ext2 → Option (ℕ × Ext2)
find_higher_half_free_blocks fuel e =
    let fs = e.fs_data in
    Option.map (λ found. take_block found e)
      (find_free_bitmap fuel (fs.blocks / 8) (fs.block_bitmap * fs.sec_per_block)
        ((fs.blocks / 8) / 2) e.dev)

-- `__ext2_find_free_inode`, whose bitmap has as many bytes as that of the blocks
unfoldable pub find_free_inode : (fuel : ℕ) → Ext2 → Option (ℕ × Ext2)
find_free_inode fuel e =
    let fs = e.fs_data in
    Option.map (λ found. take_inode found e)
      (find_free_bitmap fuel (fs.blocks / 8) (fs.inode_bitmap * fs.sec_per_block) 0 e.dev)
