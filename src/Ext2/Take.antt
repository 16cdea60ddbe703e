-- ===== src/Ext2/Take.antt =====
-- A block is taken.
use mathlib.Core.Path.{subst}
use balrog_os.Prelude.{
  ℕ, ◌+◌, ◌*◌, ◌/◌, ◌%◌, ◌≤◌, ◌<◌, ◌≡◌, refl, ap, sym, ◌∙◌, ◌⊎◌, inl, inr, true, false, some, arith,
  ◌==◌,
}
use balrog_os.Ext2.{
  Device, Ext2, store_sector, update_sb_and_blk_desc, count_blocks, take_block, find_free_blocks,
}
use balrog_os.Ext2.Bitmap.{bit_at, store_at}
use balrog_os.Ext2.Search.{Taken, TakenBit, find_free_bitmap-Taken}

-- The bits of the usage bitmap of the blocks.
abbrev pub bitmap_lba : Ext2 → ℕ
bitmap_lba e = e.fs_data.block_bitmap * e.fs_data.sec_per_block

-- The superblock and the descriptor are written to their own place.
pub update-sectors : (e : Ext2) → ((update_sb_and_blk_desc e).1).dev.sectors ≡ e.dev.sectors
unfolding update_sb_and_blk_desc
update-sectors e = ground arith

update-ok :
    (e : Ext2)
    → (((update_sb_and_blk_desc e).1).dev.read_ok ≡ e.dev.read_ok)
      × (((update_sb_and_blk_desc e).1).dev.write_ok ≡ e.dev.write_ok)
unfolding update_sb_and_blk_desc
update-ok e = (ground arith, ground arith)

pub update-fs_data : (e : Ext2) → ((update_sb_and_blk_desc e).1).fs_data ≡ e.fs_data
unfolding update_sb_and_blk_desc
update-fs_data e = ground arith

-- What is left of a block that is taken: its bit, and the counters.
pub record Allocated (e : Ext2) (id : ℕ) (e' : Ext2) : Type 0 where
  pub number : ℕ
  pub id_is : id ≡ number + 1
  pub low : number + 1 < 4294967296
  pub was_clear : bit_at e.dev (bitmap_lba e) number ≡ false
  pub sectors_are : e'.dev.sectors ≡ (store_at (bitmap_lba e) number true e.dev).sectors
  pub reads : e'.dev.read_ok ≡ e.dev.read_ok
  pub writes : e'.dev.write_ok ≡ e.dev.write_ok
  pub read_here : e.dev.read_ok (bitmap_lba e + number / 4096) ≡ true
  pub written_here : e.dev.write_ok (bitmap_lba e + number / 4096) ≡ true
  pub data_is : e'.fs_data ≡ record e.fs_data {
    counters = record e.fs_data.counters {
      unalloc_blocks = (e.fs_data.counters.unalloc_blocks + 4294967295) % 4294967296;
      num_of_unalloc_block = (e.fs_data.counters.num_of_unalloc_block + 65535) % 65536;
    };
  }

-- The state that take_block passes to the update of the device.
abbrev counted : Device → Ext2 → Ext2
counted dev' e = count_blocks 4294967295 65535 (record e { dev = dev' })

take_block-some :
    (id n : ℕ) (dev' : Device) (e : Ext2)
    → id ≡ n + 1
    → take_block (id, dev') e ≡ (id, (update_sb_and_blk_desc (counted dev' e)).1)
unfolding take_block
take_block-some id n dev' e h = let other : (id == 0) ≡ false = ground arith in rw other refl

pub take_block-none :
    (id : ℕ) (dev' : Device) (e : Ext2) → id ≡ 0 → dev' ≡ e.dev → take_block (id, dev') e ≡ (0, e)
unfolding take_block
take_block-none id dev' e h same = rw (h, same) refl

pub take_block-TakenBit :
    (id : ℕ) (dev' : Device) (e : Ext2)
    → TakenBit (bitmap_lba e) e.dev id dev'
    → ((take_block (id, dev') e).0 ≡ id) × Allocated e id ((take_block (id, dev') e).1)
unfolding count_blocks
take_block-TakenBit id dev' e (n, id_is, low, clear, stored, good, written) =
    let taken = take_block-some id n dev' e id_is in
    let e' = (update_sb_and_blk_desc (counted dev' e)).1 in
    let allocated : Allocated e id e' = record {
      number = n;
      id_is = id_is;
      low = low;
      was_clear = clear;
      sectors_are = update-sectors (counted dev' e) ∙ ap (λ (d : Device). d.sectors) stored;
      reads =
          (update-ok (counted dev' e)).0
          ∙ (ap (λ (d : Device). d.read_ok) stored ∙ unfold store_sector in refl);
      writes =
          (update-ok (counted dev' e)).1
          ∙ (ap (λ (d : Device). d.write_ok) stored ∙ unfold store_sector in refl);
      read_here = good;
      written_here = written;
      data_is = update-fs_data (counted dev' e);
    } in
    (
      ap (λ (p : ℕ × Ext2). p.0) taken,
      subst (λ (p : ℕ × Ext2). Allocated e id (p.1)) (sym taken) allocated,
    )

take_block-Allocated :
    (id : ℕ) (dev' : Device) (e : Ext2)
    → Taken (bitmap_lba e) e.dev id dev'
    → (take_block (id, dev') e ≡ (0, e))
      ⊎ Allocated e ((take_block (id, dev') e).0) ((take_block (id, dev') e).1)
take_block-Allocated id dev' e (inl (nothing, same)) = inl (take_block-none id dev' e nothing same)
take_block-Allocated id dev' e (inr bit) =
    let (same, allocated) = take_block-TakenBit id dev' e bit in
    inr (subst (λ (x : ℕ). Allocated e x ((take_block (id, dev') e).1)) (sym same) allocated)

-- In a file system of at most 2^32 - 4096 blocks, with fuel for the bytes of the bitmap,
-- __ext2_find_free_blocks returns: 0 with nothing changed, or the id of a block whose bit was
-- clear and is set now, with every other bit as before and the counters of superblock and group
-- one lower.
pub find_free_blocks-Allocated :
    (fuel : ℕ) (e : Ext2)
    → e.fs_data.blocks / 8 < fuel
    → e.fs_data.blocks + 4096 ≤ 4294967296
    → (id : ℕ) × (e' : Ext2) × (find_free_blocks fuel e ≡ some (id, e'))
      × (((id ≡ 0) × (e' ≡ e)) ⊎ Allocated e id e')
unfolding find_free_blocks
find_free_blocks-Allocated fuel e enough small =
    let (id, dev', found, taken) =
      find_free_bitmap-Taken fuel (e.fs_data.blocks / 8) (bitmap_lba e) 0 e.dev (omega arith)
        (omega arith) (omega arith) in
    (
      (take_block (id, dev') e).0,
      (take_block (id, dev') e).1,
      rw (found, find_free_blocks) refl,
      elim (take_block-Allocated id dev' e taken) [
        | inl nothing ↦ inl (ap (λ (p : ℕ × Ext2). p.0) nothing, ap (λ (p : ℕ × Ext2). p.1) nothing)
        | inr allocated ↦ inr allocated
      ],
    )
