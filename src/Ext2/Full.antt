-- ===== src/Ext2/Full.antt =====
-- When the search for a clear bit finds nothing, and what the search of the higher half leaves out.
use mathlib.Core.Path.{subst}
use balrog_os.Prelude.{
  ℕ, ◌⊎◌, refl, zero, suc, ◌+◌, ◌*◌, ◌/◌, ◌%◌, ◌≤◌, ◌<◌, ◌≡◌, ap, sym, ◌∙◌, inl, inr, true, false,
  Bool-cases, Option, Option-cases, none, some, arith, ltb,
}
use balrog_os.Ext2.{
  Device, Ext2, free_byte, find_free_bitmap, take_block, find_higher_half_free_blocks,
}
use balrog_os.Ext2.Bitmap.{bit_at, free_byte-some, free_byte-none}
use balrog_os.Ext2.Take.{Allocated, bitmap_lba, take_block-none, take_block-TakenBit}
use balrog_os.Ext2.Search.{
  TakenBit, found_slot, round_end, round_unread, round_full, round_unwritten, round_taken,
}

abbrev answer : Option (ℕ × Device) → ℕ
answer none = 1
answer (some p) = p.0

-- On a device that reads and writes, a search that starts at a sector and hands out nothing leaves no
-- clear bit from there to the end of the bitmap.
pub find_free_bitmap-full :
    (fuel size lba map_idx : ℕ) (dev dev' : Device) (n : ℕ)
    → ((x : ℕ) → dev.read_ok x ≡ true)
    → ((x : ℕ) → dev.write_ok x ≡ true)
    → map_idx % 512 ≡ 0
    → size + 512 ≤ 536870912
    → find_free_bitmap fuel size lba map_idx dev ≡ some (0, dev')
    → 8 * map_idx ≤ n
    → n < 8 * size
    → bit_at dev lba n ≡ true
find_free_bitmap-full zero size lba map_idx dev dev' n reads writes aligned small h low high =
    absurd (unfold find_free_bitmap in ground arith)
find_free_bitmap-full (suc fuel) size lba map_idx dev dev' n reads writes aligned small h low high =
    let here = lba + map_idx / 512 in
    let inside : ltb map_idx size ≡ true = ground arith in
    let less : map_idx < size = omega arith in
    elim (Option-cases (free_byte 512 0 (dev.sectors here))) [
      | inl full ↦ elim (Bool-cases (ltb n (8 * map_idx + 4096))) [
        | inl in_sector ↦
            let below : n < 8 * map_idx + 4096 = ground arith in
            let sector : n / 4096 ≡ map_idx / 512 = omega arith in
            let byte : (n / 8) % 512 < 512 = omega arith in
            let bit : n % 8 < 8 = omega arith in
            subst (λ k. dev.sectors (lba + k) ((n / 8) % 512) (n % 8) ≡ true) (sym sector)
              (free_byte-none 512 0 ((n / 8) % 512) (n % 8) (dev.sectors here) full (omega arith)
                (omega arith) bit)
        | inr behind ↦
            let above : 8 * (map_idx + 512) ≤ n = ground arith in
            find_free_bitmap-full fuel size lba (map_idx + 512) dev dev' n reads writes
              (omega arith) small
              (sym (round_full fuel size lba map_idx dev inside (reads here) full) ∙ h) above high
      ]
      | inr ((i, bit), found) ↦
          let (at_byte, at_bit, clear) = free_byte-some 512 0 i bit (dev.sectors here) found in
          let zero_id : (bit + i * 8 + 4096 * (map_idx / 512) + 1) % 4294967296 ≡ 0 = ap answer (
            sym
              (round_taken fuel size lba map_idx i bit dev inside (reads here) found (writes here))
            ∙ h) in
          absurd (omega arith)
    ]

-- Why a search of one sector hands out nothing: the device fails there, or the sector is full.
abbrev pub Unserved : Device → (lba : ℕ) → Type 0
Unserved dev lba =
    (dev.read_ok lba ≡ false)
    ⊎ ((dev.write_ok lba ≡ false) ⊎ ((n : ℕ) → n < 4096 → bit_at dev lba n ≡ true))

sector_full :
    (dev : Device) (lba n : ℕ)
    → free_byte 512 0 (dev.sectors lba) ≡ none
    → n < 4096
    → bit_at dev lba n ≡ true
sector_full dev lba n full low =
    let sector : lba + n / 4096 ≡ lba = omega arith in
    subst (λ (x : ℕ). dev.sectors x ((n / 8) % 512) (n % 8) ≡ true) (sym sector)
      (free_byte-none 512 0 ((n / 8) % 512) (n % 8) (dev.sectors lba) full (omega arith)
        (omega arith) (omega arith))

-- What a search leaves that starts inside the first sector of at most 512 more bytes.
FirstOnly : (lba : ℕ) → Device → (id : ℕ) → Device → Type 0
FirstOnly lba dev id dev' =
    ((id ≡ 0) × (dev' ≡ dev) × Unserved dev lba) ⊎ ((id ≤ 4096) × TakenBit lba dev id dev')

-- Two rounds are enough for it.
module _ (fuel size lba map_idx : ℕ) (dev : Device) (start : map_idx < 512) (inner : map_idx < size)
    (rest : size ≤ map_idx + 512) where
  inside : ltb map_idx size ≡ true
  inside = ground arith

  same_sector : lba + map_idx / 512 ≡ lba
  same_sector = omega arith

  first_taken :
      (i bit : ℕ)
      → dev.read_ok lba ≡ true
      → dev.write_ok lba ≡ true
      → free_byte 512 0 (dev.sectors lba) ≡ some (i, bit)
      → (id : ℕ) × (dev' : Device) × (find_free_bitmap (suc (suc fuel)) size lba map_idx dev
          ≡ some (id, dev'))
        × FirstOnly lba dev id dev'
  unfolding FirstOnly
  first_taken i bit good written found =
      let (at_byte, at_bit, clear) = free_byte-some 512 0 i bit (dev.sectors lba) found in
      let k : map_idx / 512 ≡ 0 = omega arith in
      let zero_sector : lba + 0 ≡ lba = omega arith in
      let round =
        round_taken (suc fuel) size lba map_idx i bit dev inside (rw same_sector good)
          (rw same_sector found) (rw same_sector written) in
      let slot =
        found_slot lba 0 i bit dev at_bit (omega arith) (omega arith) (rw zero_sector clear)
          (rw zero_sector good) (rw zero_sector written) in
      let id : (bit + i * 8 + 4096 * (map_idx / 512) + 1) % 4294967296
          ≡ bit + i * 8 + 4096 * 0 + 1 =
        omega arith in
      (_, _, round, inr (omega arith, rw (id, k) slot))

  first_sector :
      (id : ℕ) × (dev' : Device) × (find_free_bitmap (suc (suc fuel)) size lba map_idx dev
        ≡ some (id, dev'))
      × FirstOnly lba dev id dev'
  unfolding FirstOnly
  first_sector = elim (Bool-cases (dev.read_ok lba)) [
    | inr bad ↦ (
      0,
      dev,
      round_unread (suc fuel) size lba map_idx dev inside (rw same_sector bad),
      inl (refl, refl, inl bad),
    )
    | inl good ↦ elim (Option-cases (free_byte 512 0 (dev.sectors lba))) [
      | inl full ↦
          let past : ltb (map_idx + 512) size ≡ false = ground arith in
          (
            0,
            dev,
            round_full (suc fuel) size lba map_idx dev inside (rw same_sector good)
                  (rw same_sector full)
                ∙ round_end fuel size lba (map_idx + 512) dev past,
            inl (refl, refl, inr (inr (λ n low. sector_full dev lba n full low))),
          )
      | inr ((i, bit), found) ↦ elim (Bool-cases (dev.write_ok lba)) [
        | inr bad ↦ (
          0,
          dev,
          round_unwritten (suc fuel) size lba map_idx i bit dev inside (rw same_sector good)
              (rw same_sector found) (rw same_sector bad),
          inl (refl, refl, inr (inl bad)),
        )
        | inl written ↦ first_taken i bit good written found
      ]
    ]
  ]

-- In a file system whose bitmap has more than 512 and less than 1024 bytes, the search of the
-- higher half returns after at most two rounds, and looks at the bitmap's first sector alone: it
-- takes a block with an id of at most 4096, or it returns 0 and changes nothing, where that sector
-- cannot be read or written or has no clear bit, whatever blocks are free behind it.
pub find_higher_half_free_blocks-low :
    (fuel : ℕ) (e : Ext2)
    → 512 < e.fs_data.blocks / 8
    → e.fs_data.blocks / 8 < 1024
    → (id : ℕ) × (e' : Ext2) × (find_higher_half_free_blocks (suc (suc fuel)) e ≡ some (id, e'))
      × (((id ≡ 0) × (e' ≡ e) × Unserved e.dev (bitmap_lba e)) ⊎ ((id ≤ 4096) × Allocated e id e'))
unfolding find_higher_half_free_blocks FirstOnly
find_higher_half_free_blocks-low fuel e large small =
    let half : ℕ = (e.fs_data.blocks / 8) / 2 in
    let (id, dev', found, outcome) =
      first_sector fuel (e.fs_data.blocks / 8) (bitmap_lba e) half e.dev (omega arith) (omega arith)
        (omega arith) in
    let e' = (take_block (id, dev') e).1 in
    let runs : find_higher_half_free_blocks (suc (suc fuel)) e ≡ some (take_block (id, dev') e) =
      rw (found, find_higher_half_free_blocks) refl in
    elim outcome [
      | inl (nothing, same, why) ↦
          (0, e, runs ∙ ap some (take_block-none id dev' e nothing same), inl (refl, refl, why))
      | inr (low, bit) ↦
          let (same, allocated) = take_block-TakenBit id dev' e bit in
          (id, e', runs ∙ ap (λ (x : ℕ). some (x, e')) same, inr (low, allocated))
    ]
