-- ===== src/Ext2/Bitmap.antt =====
-- The search for a clear bit of a bitmap.
use balrog_os.Prelude.{
  some-inj, none-some, ℕ, zero, suc, ◌+◌, ◌/◌, ◌%◌, ◌≤◌, ◌<◌, ◌≡◌, refl, ap, sym, ◌∙◌, inl, inr,
  Bool, true, false, Bool-cases, Option, Option-cases, none, some, arith, ◌==◌,
}
use balrog_os.Ext2.{Byte, Sector, Device, free_bit, is_full, free_byte, store_bit, store_sector}

-- The bit of number `n` in the bitmap that starts at the sector `lba`.
abbrev pub bit_at : Device → (lba n : ℕ) → Bool
bit_at dev lba n = dev.sectors (lba + n / 4096) ((n / 8) % 512) (n % 8)

-- The device with that bit stored.
abbrev pub store_at : (lba n : ℕ) → Bool → Device → Device
store_at lba n v dev =
    store_sector (lba + n / 4096)
      (store_bit ((n / 8) % 512) (n % 8) v (dev.sectors (lba + n / 4096))) dev

some-none : {A : Type 0} {a : A} → some a ≡ none → ⊥
some-none e = ground arith

abbrev pair_or_zero : Option (ℕ × ℕ) → ℕ × ℕ
pair_or_zero none = (0, 0)
pair_or_zero (some p) = p

pair-inj : {a b c d : ℕ} → ◌≡◌ {A = Option (ℕ × ℕ)} (some (a, b)) (some (c, d)) → (a ≡ c) × (b ≡ d)
pair-inj e = (ap (λ o. (pair_or_zero o).0) e, ap (λ o. (pair_or_zero o).1) e)

free_bit-some :
    (left bit b : ℕ) (byte : Byte)
    → free_bit left bit byte ≡ some b
    → (bit ≤ b) × (b < bit + left) × (byte b ≡ false)
unfolding free_bit
free_bit-some zero bit b byte h = absurd (ground arith)
free_bit-some (suc left) bit b byte h = elim (Bool-cases (byte bit)) [
  | inl taken ↦
      let (low, high, clear) = free_bit-some left (bit + 1) b byte (rw (taken, free_bit) at h) in
      (omega arith, omega arith, clear)
  | inr clear ↦
      let here : bit ≡ b = some-inj (rw (clear, free_bit) at h) in
      (omega arith, omega arith, rw here at clear)
]

free_bit-none :
    (left bit k : ℕ) (byte : Byte)
    → free_bit left bit byte ≡ none
    → bit ≤ k
    → k < bit + left
    → byte k ≡ true
unfolding free_bit
free_bit-none zero bit k byte h low high = absurd (omega arith)
free_bit-none (suc left) bit k byte h low high = elim (Bool-cases (byte bit)) [
  | inl taken ↦ elim (Bool-cases (bit == k)) [
    | inl here ↦ let same : bit ≡ k = ground arith in rw same at taken
    | inr later ↦
        let above : bit + 1 ≤ k = ground arith in
        free_bit-none left (bit + 1) k byte (rw (taken, free_bit) at h) above (omega arith)
  ]
  | inr clear ↦ absurd (some-none (rw (clear, free_bit) at h))
]

is_full-all : (left k : ℕ) (byte : Byte) → is_full left byte ≡ true → k < left → byte k ≡ true
unfolding is_full
is_full-all zero k byte h less = absurd (omega arith)
is_full-all (suc left) k byte h less = elim (Bool-cases (k == left)) [
  | inl here ↦
      let same : left ≡ k = ground arith in
      let set : byte left ≡ true = ground arith in rw same at set
  | inr other ↦ is_full-all left k byte (ground arith) (ground arith)
]

-- The byte that is looked at is full, or has its first clear bit taken, or would be full.
free_byte-full :
    (left i : ℕ) (sector : Sector)
    → is_full 8 (sector i) ≡ true
    → free_byte (suc left) i sector ≡ free_byte left (i + 1) sector
unfolding free_byte
free_byte-full left i sector full = rw full refl

free_byte-here :
    (left i b : ℕ) (sector : Sector)
    → is_full 8 (sector i) ≡ false
    → free_bit 8 0 (sector i) ≡ some b
    → free_byte (suc left) i sector ≡ some (i, b)
unfolding free_byte
free_byte-here left i b sector room found = rw (room, found, free_byte) refl

free_byte-no_bit :
    (left i : ℕ) (sector : Sector)
    → is_full 8 (sector i) ≡ false
    → free_bit 8 0 (sector i) ≡ none
    → free_byte (suc left) i sector ≡ free_byte left (i + 1) sector
unfolding free_byte
free_byte-no_bit left i sector room none_found = rw (room, none_found, free_byte) refl

pub free_byte-some :
    (left i j b : ℕ) (sector : Sector)
    → free_byte left i sector ≡ some (j, b)
    → (j < i + left) × (b < 8) × (sector j b ≡ false)
free_byte-some zero i j b sector h = absurd (unfold free_byte in none-some h)
free_byte-some (suc left) i j b sector h = elim (Bool-cases (is_full 8 (sector i))) [
  | inl full ↦
      let (less, bit, clear) =
        free_byte-some left (i + 1) j b sector (sym (free_byte-full left i sector full) ∙ h) in
      (omega arith, bit, clear)
  | inr room ↦ elim (Option-cases (free_bit 8 0 (sector i))) [
    | inl no_bit ↦
        let (less, bit, clear) =
          free_byte-some left (i + 1) j b sector
            (sym (free_byte-no_bit left i sector room no_bit) ∙ h) in
        (omega arith, bit, clear)
    | inr (bit, found) ↦
        let (same_i, same_b) = pair-inj (sym (free_byte-here left i bit sector room found) ∙ h) in
        let (low, high, clear) = free_bit-some 8 0 bit (sector i) found in
        (omega arith, omega arith, rw (same_i, same_b) at clear)
  ]
]

pub free_byte-none :
    (left i j b : ℕ) (sector : Sector)
    → free_byte left i sector ≡ none
    → i ≤ j
    → j < i + left
    → b < 8
    → sector j b ≡ true
free_byte-none zero i j b sector h low high bit = absurd (omega arith)
free_byte-none (suc left) i j b sector h low high bit = elim (Bool-cases (is_full 8 (sector i))) [
  | inl full ↦ elim (Bool-cases (i == j)) [
    | inl here ↦ let same : i ≡ j = ground arith in rw same at (is_full-all 8 b (sector i) full bit)
    | inr later ↦
        let above : i + 1 ≤ j = ground arith in
        free_byte-none left (i + 1) j b sector (sym (free_byte-full left i sector full) ∙ h) above
          (omega arith) bit
  ]
  | inr room ↦ elim (Option-cases (free_bit 8 0 (sector i))) [
    | inl no_bit ↦ elim (Bool-cases (i == j)) [
      | inl here ↦
          let same : i ≡ j = ground arith in
          rw same at (free_bit-none 8 0 b (sector i) no_bit (omega arith) (omega arith))
      | inr later ↦
          let above : i + 1 ≤ j = ground arith in
          free_byte-none left (i + 1) j b sector
            (sym (free_byte-no_bit left i sector room no_bit) ∙ h) above (omega arith) bit
    ]
    | inr (first, found) ↦
        absurd (none-some (sym h ∙ free_byte-here left i first sector room found))
  ]
]
