-- ===== src/Ext2/Blocks.antt =====
-- A block is given back.
use mathlib.Core.Path.{subst}
use balrog_os.Prelude.{
  ℕ, ◌+◌, ◌*◌, ◌/◌, ◌%◌, ◌≤◌, ◌<◌, ◌≡◌, refl, ◌≢◌, ap, sym, ◌∙◌, inl, inr, true, false, ◌&&◌,
  Bool-cases, Option, none, some, arith, ◌==◌, ==_refl, pos,
}
use balrog_os.Ext2.{
  Sector, Device, FsData, Ext2, store_bit, store_sector, update_sb_and_blk_desc, count_blocks,
  clear_at, clear_bit, free_alloc_block, find_free_blocks,
}
use balrog_os.Ext2.Bitmap.{bit_at, store_at}
use balrog_os.Ext2.Take.{
  Allocated, bitmap_lba, update-sectors, update-fs_data, find_free_blocks-Allocated,
}

clear_at-some :
    (lba n : ℕ) (e : Ext2)
    → e.dev.read_ok lba ≡ true
    → e.dev.write_ok lba ≡ true
    → clear_at lba n e
      ≡ some (record e {
        dev = store_sector lba (store_bit ((n / 8) % 512) (n % 8) false (e.dev.sectors lba)) e.dev;
      })
unfolding clear_at
clear_at-some lba n e good written = rw (good, written) refl

abbrev pair_or : ℕ × Ext2 → Option (ℕ × Ext2) → ℕ × Ext2
pair_or p none = p
pair_or p (some q) = q

clear_bit-some :
    (bitmap id n : ℕ) (e : Ext2)
    → id ≡ n + 1
    → n + 1 < 4294967296
    → bitmap * e.fs_data.sec_per_block + n / 4096 < 4294967296
    → e.dev.read_ok (bitmap * e.fs_data.sec_per_block + n / 4096) ≡ true
    → e.dev.write_ok (bitmap * e.fs_data.sec_per_block + n / 4096) ≡ true
    → clear_bit bitmap id e
      ≡ some (record e { dev = store_at (bitmap * e.fs_data.sec_per_block) n false e.dev })
unfolding clear_bit
clear_bit-some bitmap id n e id_is low inside good written =
    let number : (id + 4294967295) % 4294967296 ≡ n = omega arith in
    let sector : (bitmap * e.fs_data.sec_per_block + (n / 8) / 512) % 4294967296
        ≡ bitmap * e.fs_data.sec_per_block + n / 4096 =
      omega arith in
    let after : Option Ext2 =
      some (record e { dev = store_at (bitmap * e.fs_data.sec_per_block) n false e.dev }) in
    subst
      (λ m. clear_at ((bitmap * e.fs_data.sec_per_block + (m / 8) / 512) % 4294967296) m e ≡ after)
      (sym number)
      (subst (λ l. clear_at l n e ≡ after) (sym sector)
        (clear_at-some (bitmap * e.fs_data.sec_per_block + n / 4096) n e good written))

-- A bit that was clear and is set, and then cleared, leaves the sectors as they were.
stored_back :
    (lba n : ℕ) (before after : Device)
    → bit_at before lba n ≡ false
    → after.sectors ≡ (store_at lba n true before).sectors
    → (x i b : ℕ) → (store_at lba n false after).sectors x i b ≡ before.sectors x i b
unfolding store_sector store_bit
stored_back lba n before after clear stored x i b =
    let at_x : after.sectors x i b ≡ (store_at lba n true before).sectors x i b =
      ap (λ (f : ℕ → Sector). f x i b) stored in
    let here = lba + n / 4096 in
    let at_here : after.sectors here i b ≡ (store_at lba n true before).sectors here i b =
      ap (λ (f : ℕ → Sector). f here i b) stored in
    elim (Bool-cases (x == here)) [
      | inl same ↦
          let x_is : x ≡ here = ground arith in
          elim (Bool-cases ((i == (n / 8) % 512) && (b == n % 8))) [
            | inl bit ↦
                let i_is : i ≡ (n / 8) % 512 = ground arith in
                let b_is : b ≡ n % 8 = ground arith in rw (same, bit) (sym (cc))
            | inr other ↦
                rw (same, other)
                  ((rw (==_refl here, other) at at_here)
                    ∙ ap (λ y. before.sectors y i b) (sym x_is))
          ]
      | inr elsewhere ↦ rw elsewhere (rw elsewhere at at_x)
    ]

free_alloc_block-some :
    (id : ℕ) (e e' : Ext2)
    → clear_bit e.fs_data.block_bitmap id e ≡ some e'
    → free_alloc_block id e ≡ (pos 0, (update_sb_and_blk_desc (count_blocks 1 1 e')).1)
unfolding free_alloc_block
free_alloc_block-some id e e' h = rw (h, free_alloc_block) refl

count_blocks-bit :
    (e : Ext2) (x i b : ℕ) → (count_blocks 1 1 e).dev.sectors x i b ≡ e.dev.sectors x i b
unfolding count_blocks
count_blocks-bit e x i b = refl

-- The counters go up by what they went down.
count_back :
    (e e' : Ext2)
    → e.fs_data.counters.unalloc_blocks < 4294967296
    → e.fs_data.counters.num_of_unalloc_block < 65536
    → e'.fs_data ≡ record e.fs_data {
      counters = record e.fs_data.counters {
        unalloc_blocks = (e.fs_data.counters.unalloc_blocks + 4294967295) % 4294967296;
        num_of_unalloc_block = (e.fs_data.counters.num_of_unalloc_block + 65535) % 65536;
      };
    }
    → (count_blocks 1 1 e').fs_data ≡ e.fs_data
unfolding count_blocks
count_back e e' blocks group h =
    let up : ((e.fs_data.counters.unalloc_blocks + 4294967295) % 4294967296 + 1) % 4294967296
        ≡ e.fs_data.counters.unalloc_blocks =
      omega arith in
    let group_up : ((e.fs_data.counters.num_of_unalloc_block + 65535) % 65536 + 1) % 65536
        ≡ e.fs_data.counters.num_of_unalloc_block =
      omega arith in
    rw (h, up, group_up) refl

call-Allocated :
    (fuel id : ℕ) (e e' : Ext2)
    → e.fs_data.blocks / 8 < fuel
    → e.fs_data.blocks + 4096 ≤ 4294967296
    → find_free_blocks fuel e ≡ some (id, e')
    → id ≢ 0
    → Allocated e id e'
call-Allocated fuel id e e' enough small result real =
    let (found, after, same, answer) = find_free_blocks-Allocated fuel e enough small in
    let pairs : ◌≡◌ {A = ℕ × Ext2} (found, after) (id, e') =
      ap (pair_or (found, after)) (sym same ∙ result) in
    let allocated : Allocated e found after = elim answer [
      | inl (nothing, unchanged) ↦ absurd (real (sym (ap (λ (p : ℕ × Ext2). p.0) pairs) ∙ nothing))
      | inr allocated ↦ allocated
    ] in
    subst (λ (p : ℕ × Ext2). Allocated e (p.0) (p.1)) pairs allocated

-- Where the sectors of the bitmap fit 32 bits and the counters their width, a block that
-- __ext2_find_free_blocks hands out is given back by __ext2_free_alloc_block: it returns 0, every bit
-- of every sector is as before the block was taken, and so are the counters.
pub free_alloc_block-find_free_blocks :
    (fuel id : ℕ) (e e' : Ext2)
    → e.fs_data.blocks / 8 < fuel
    → e.fs_data.blocks + 4096 ≤ 4294967296
    → bitmap_lba e + 1048576 < 4294967296
    → e.fs_data.counters.unalloc_blocks < 4294967296
    → e.fs_data.counters.num_of_unalloc_block < 65536
    → find_free_blocks fuel e ≡ some (id, e')
    → id ≢ 0
    → ((free_alloc_block id e').0 ≡ pos 0)
      × ((x i b : ℕ) → ((free_alloc_block id e').1).dev.sectors x i b ≡ e.dev.sectors x i b)
      × (((free_alloc_block id e').1).fs_data ≡ e.fs_data)
free_alloc_block-find_free_blocks fuel id e e' enough small inside blocks group result real =
    let allocated = call-Allocated fuel id e e' enough small result real in
    let n = allocated.number in
    let low = allocated.low in
    let lba = bitmap_lba e in
    let same_lba : bitmap_lba e' ≡ lba =
      ap (λ (d : FsData). d.block_bitmap * d.sec_per_block) allocated.data_is in
    let fits : bitmap_lba e' + n / 4096 < 4294967296 = omega arith in
    let good : e'.dev.read_ok (bitmap_lba e' + n / 4096) ≡ true =
      rw (same_lba, allocated.reads) allocated.read_here in
    let written : e'.dev.write_ok (bitmap_lba e' + n / 4096) ≡ true =
      rw (same_lba, allocated.writes) allocated.written_here in
    let out : Ext2 = record e' { dev = store_at (bitmap_lba e') n false e'.dev } in
    let cleared : clear_bit e'.fs_data.block_bitmap id e' ≡ some out =
      clear_bit-some e'.fs_data.block_bitmap id n e' allocated.id_is allocated.low fits good
        written in
    rw (free_alloc_block-some id e' out cleared) (
      refl,
      λ x i b.
          ap (λ (f : ℕ → Sector). f x i b) (update-sectors (count_blocks 1 1 out))
          ∙ (count_blocks-bit out x i b
              ∙ (ap (λ l. (store_at l n false e'.dev).sectors x i b) same_lba
                  ∙ stored_back lba n e.dev e'.dev allocated.was_clear allocated.sectors_are x i
                      b)),
      update-fs_data (count_blocks 1 1 out) ∙ count_back e out blocks group allocated.data_is,
    )

bit_stored :
    (lba n : ℕ) (before after : Device)
    → after.sectors ≡ (store_at lba n true before).sectors
    → bit_at after lba n ≡ true
unfolding store_sector store_bit
bit_stored lba n before after stored =
    ap (λ (f : ℕ → Sector). f (lba + n / 4096) ((n / 8) % 512) (n % 8)) stored
    ∙ rw (==_refl (lba + n / 4096), ==_refl ((n / 8) % 512), ==_refl (n % 8)) refl

-- In a file system of at most 2^32 - 4096 blocks, with fuel for the bytes of the bitmap, two calls
-- of __ext2_find_free_blocks, with no block given back in between, that both hand out a block,
-- hand out different ones.
pub find_free_blocks-distinct :
    (fuel id id' : ℕ) (e e' e'' : Ext2)
    → e.fs_data.blocks / 8 < fuel
    → e.fs_data.blocks + 4096 ≤ 4294967296
    → find_free_blocks fuel e ≡ some (id, e')
    → id ≢ 0
    → find_free_blocks fuel e' ≡ some (id', e'')
    → id' ≢ 0
    → id ≢ id'
find_free_blocks-distinct fuel id id' e e' e'' enough small result real result' real' same =
    let first = call-Allocated fuel id e e' enough small result real in
    let blocks : e'.fs_data.blocks ≡ e.fs_data.blocks =
      ap (λ (d : FsData). d.blocks) first.data_is in
    let second =
      call-Allocated fuel id' e' e'' (rw blocks enough) (rw blocks small) result' real' in
    let lba : bitmap_lba e' ≡ bitmap_lba e =
      ap (λ (d : FsData). d.block_bitmap * d.sec_per_block) first.data_is in
    let number : second.number ≡ first.number = omega (arith, first.id_is, second.id_is, same) in
    let taken = bit_stored (bitmap_lba e) first.number e.dev e'.dev first.sectors_are in
    let clear : bit_at e'.dev (bitmap_lba e) first.number ≡ false =
      subst (λ l. bit_at e'.dev l first.number ≡ false) lba
        (subst (λ m. bit_at e'.dev (bitmap_lba e') m ≡ false) number second.was_clear) in
    ground (arith, taken, clear)
