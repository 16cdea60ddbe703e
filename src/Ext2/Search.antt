-- ===== src/Ext2/Search.antt =====
-- `__ext2_find_free_bitmap`.
use balrog_os.Prelude.{
  ℕ, zero, suc, ◌+◌, ◌*◌, ◌/◌, ◌%◌, ◌≤◌, ◌<◌, ◌≡◌, refl, ap, ◌∙◌, ◌⊎◌, inl, inr, true, false,
  Bool-cases, Option-cases, none, some, arith, ltb,
}
use balrog_os.Ext2.{Device, free_byte, store_bit, store_sector, find_free_bitmap}
use balrog_os.Ext2.Bitmap.{bit_at, store_at, free_byte-some}

-- A clear bit of the bitmap is taken, and the id is its number counted from 1.
abbrev pub TakenBit : (lba : ℕ) → Device → (id : ℕ) → Device → Type 0
TakenBit lba dev id dev' =
    (n : ℕ) × (id ≡ n + 1)
    × (n + 1 < 4294967296)
    × (bit_at dev lba n ≡ false)
    × (dev' ≡ store_at lba n true dev)
    × (dev.read_ok (lba + n / 4096) ≡ true)
    × (dev.write_ok (lba + n / 4096) ≡ true)

-- Nothing is taken, or such a bit is.
abbrev pub Taken : (lba : ℕ) → Device → (id : ℕ) → Device → Type 0
Taken lba dev id dev' = ((id ≡ 0) × (dev' ≡ dev)) ⊎ TakenBit lba dev id dev'

-- A round at the end of the bitmap, at a sector that cannot be read, that is full, and that has a
-- clear bit, where the sector can be written or not.
pub round_end :
    (fuel size lba map_idx : ℕ) (dev : Device)
    → ltb map_idx size ≡ false
    → find_free_bitmap (suc fuel) size lba map_idx dev ≡ some (0, dev)
unfolding find_free_bitmap
round_end fuel size lba map_idx dev past = rw past refl

pub round_unread :
    (fuel size lba map_idx : ℕ) (dev : Device)
    → ltb map_idx size ≡ true
    → dev.read_ok (lba + map_idx / 512) ≡ false
    → find_free_bitmap (suc fuel) size lba map_idx dev ≡ some (0, dev)
unfolding find_free_bitmap
round_unread fuel size lba map_idx dev inside bad = rw (inside, bad) refl

pub round_full :
    (fuel size lba map_idx : ℕ) (dev : Device)
    → ltb map_idx size ≡ true
    → dev.read_ok (lba + map_idx / 512) ≡ true
    → free_byte 512 0 (dev.sectors (lba + map_idx / 512)) ≡ none
    → find_free_bitmap (suc fuel) size lba map_idx dev
      ≡ find_free_bitmap fuel size lba (map_idx + 512) dev
unfolding find_free_bitmap
round_full fuel size lba map_idx dev inside good full =
    rw (inside, good, full, find_free_bitmap) refl

pub round_unwritten :
    (fuel size lba map_idx i bit : ℕ) (dev : Device)
    → ltb map_idx size ≡ true
    → dev.read_ok (lba + map_idx / 512) ≡ true
    → free_byte 512 0 (dev.sectors (lba + map_idx / 512)) ≡ some (i, bit)
    → dev.write_ok (lba + map_idx / 512) ≡ false
    → find_free_bitmap (suc fuel) size lba map_idx dev ≡ some (0, dev)
unfolding find_free_bitmap
round_unwritten fuel size lba map_idx i bit dev inside good found bad =
    rw (inside, good, found, bad, find_free_bitmap) refl

pub round_taken :
    (fuel size lba map_idx i bit : ℕ) (dev : Device)
    → ltb map_idx size ≡ true
    → dev.read_ok (lba + map_idx / 512) ≡ true
    → free_byte 512 0 (dev.sectors (lba + map_idx / 512)) ≡ some (i, bit)
    → dev.write_ok (lba + map_idx / 512) ≡ true
    → find_free_bitmap (suc fuel) size lba map_idx dev
      ≡ some (
        (bit + i * 8 + 4096 * (map_idx / 512) + 1) % 4294967296,
        store_sector
            (lba + map_idx / 512)
            (store_bit i bit true (dev.sectors (lba + map_idx / 512)))
            dev,
      )
unfolding find_free_bitmap
round_taken fuel size lba map_idx i bit dev inside good found written =
    rw (inside, good, found, written, find_free_bitmap) refl

-- The number of a bit gives back its sector, its byte and its place.
split_number :
    (bit i k : ℕ)
    → bit < 8
    → i < 512
    → ((bit + i * 8 + 4096 * k) / 4096 ≡ k)
      × (((bit + i * 8 + 4096 * k) / 8) % 512 ≡ i)
      × ((bit + i * 8 + 4096 * k) % 8 ≡ bit)
split_number bit i k small byte = (omega arith, omega arith, omega arith)

pub found_slot :
    (lba k i bit : ℕ) (dev : Device)
    → bit < 8
    → i < 512
    → bit + i * 8 + 4096 * k + 1 < 4294967296
    → dev.sectors (lba + k) i bit ≡ false
    → dev.read_ok (lba + k) ≡ true
    → dev.write_ok (lba + k) ≡ true
    → TakenBit lba dev
        (bit + i * 8 + 4096 * k + 1)
        (store_sector (lba + k) (store_bit i bit true (dev.sectors (lba + k))) dev)
found_slot lba k i bit dev small byte low clear good written =
    let (sector, at_byte, at_bit) = split_number bit i k small byte in
    (bit + i * 8 + 4096 * k, refl, low, cc, cc, cc, cc)

-- The search ends, with fuel for the bytes of the bitmap, and takes nothing or a clear bit.
pub find_free_bitmap-Taken :
    (fuel size lba map_idx : ℕ) (dev : Device)
    → 0 < fuel
    → size < map_idx + fuel
    → size + 512 ≤ 536870912
    → (id : ℕ) × (dev' : Device) × (find_free_bitmap fuel size lba map_idx dev ≡ some (id, dev'))
      × Taken lba dev id dev'
find_free_bitmap-Taken zero size lba map_idx dev some_fuel enough small = absurd (omega arith)
find_free_bitmap-Taken (suc fuel) size lba map_idx dev some_fuel enough small =
    elim (Bool-cases (ltb map_idx size)) [
      | inr past ↦ (0, dev, round_end fuel size lba map_idx dev past, inl (refl, refl))
      | inl inside ↦
          let less : map_idx < size = ground arith in
          elim (Bool-cases (dev.read_ok (lba + map_idx / 512))) [
            | inr bad ↦
                (0, dev, round_unread fuel size lba map_idx dev inside bad, inl (refl, refl))
            | inl good ↦ elim (Option-cases (free_byte 512 0 (dev.sectors (lba + map_idx / 512)))) [
              | inl full ↦
                  let (id, dev', result, taken) =
                    find_free_bitmap-Taken fuel size lba (map_idx + 512) dev (omega arith)
                      (omega arith) small in
                  (id, dev', round_full fuel size lba map_idx dev inside good full ∙ result, taken)
              | inr ((i, bit), found) ↦ elim (Bool-cases (dev.write_ok (lba + map_idx / 512))) [
                | inr bad ↦ (
                  0,
                  dev,
                  round_unwritten fuel size lba map_idx i bit dev inside good found bad,
                  inl (refl, refl),
                )
                | inl written ↦
                    let (at_byte, at_bit, clear) =
                      free_byte-some 512 0 i bit (dev.sectors (lba + map_idx / 512)) found in
                    let low : bit + i * 8 + 4096 * (map_idx / 512) + 1 < 4294967296 = omega arith in
                    (
                      bit + i * 8 + 4096 * (map_idx / 512) + 1,
                      store_sector (lba + map_idx / 512)
                          (store_bit i bit true (dev.sectors (lba + map_idx / 512))) dev,
                      round_taken fuel size lba map_idx i bit dev inside good found written
                          ∙ ap
                              (λ x. some (
                                x,
                                store_sector (lba + map_idx / 512)
                                    (store_bit i bit true (dev.sectors (lba + map_idx / 512))) dev,
                              ))
                              (omega arith),
                      inr (
                          found_slot lba (map_idx / 512) i bit dev at_bit (omega arith) low clear
                            good written),
                    )
              ]
            ]
          ]
    ]
