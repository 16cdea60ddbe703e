-- ===== src/FsCache/Buffer.antt =====
-- The buffers that fs_cache_get_new_buffer hands out.
use mathlib.Core.Path.{subst}
use native.Mathlib.Decide.{ℕ_discrete}
use balrog_os.Prelude.{
  sym, leb→le, ◌⊎◌, ℕ, zero, suc, ◌+◌, ◌*◌, ◌/◌, ◌≤◌, ◌<◌, ◌≡◌, refl, Bool, true, false, ◌&&◌, inl,
  inr, arith, ltb, leb, ◌==◌, if◌then◌else◌, Bool-cases,
}
use balrog_os.FsCache.{
  buffer_size, cache_offset, slots, Cache, Span, span, span_step, find_span, map_pages, pages_of,
  page_size, take_span, update, fs_cache_get_new_buffer,
}

-- A slot between the two that is taken.
abbrev pub TakenBetween : (ℕ → Bool) → (a b : ℕ) → Type 0
TakenBetween slot_taken a b = (k : ℕ) × (a ≤ k) × (k < b) × (slot_taken k ≡ true)

-- The span is `count` free slots, all below `i`, and no more free slots in a row end there.
record IsFree (slot_taken : ℕ → Bool) (i : ℕ) (s : Span) : Type 0 where
  count : ℕ
  bytes : s.bytes ≡ count * buffer_size
  low : s.start + count ≤ i
  open_ : s.contiguous ≡ false → count ≡ 0
  ends : s.contiguous ≡ true → s.start + count ≡ i
  free : (k : ℕ) → s.start ≤ k → k < s.start + count → slot_taken k ≡ false
  longest : (a : ℕ) → a + count < i → TakenBetween slot_taken a i

module _ (slot_taken : ℕ → Bool) (i : ℕ) (s : Span) (v : IsFree slot_taken i s) where
  open v use {count, bytes, low, open_, ends, free, longest}

  one_more : (a : ℕ) → a + count < i → TakenBetween slot_taken a (i + 1)
  one_more a l = let (k, from, to, t) = longest a l in (k, from, omega arith, t)

  step_taken : slot_taken i ≡ true → IsFree slot_taken (i + 1) (span_step slot_taken i s)
  step_taken t =
      let e : span_step slot_taken i s ≡ span 0 0 false = unfold span_step in ground arith in
      subst (IsFree slot_taken (i + 1)) (sym e) (record {
        count = 0;
        bytes = refl;
        low = omega arith;
        open_ = λ _. refl;
        ends = λ h. cc;
        free = λ k l u. absurd (omega arith);
        longest = λ a l. (i, omega arith, omega arith, t);
      })

  step_first :
      slot_taken i ≡ false
      → (s.bytes == 0) ≡ true
      → IsFree slot_taken (i + 1) (span_step slot_taken i s)
  step_first t z =
      let e : span_step slot_taken i s ≡ span i buffer_size true =
        unfold span_step in ground arith in
      subst (IsFree slot_taken (i + 1)) (sym e) (record {
        count = 1;
        bytes = refl;
        low = omega arith;
        open_ = λ h. cc;
        ends = λ h. refl;
        free = λ k l u. let here : k ≡ i = omega arith in rw here t;
        longest =
            λ a l. let none_yet : count ≡ 0 = ground (arith, bytes) in one_more a (omega arith);
      })

  step_more :
      slot_taken i ≡ false
      → (s.bytes == 0) ≡ false
      → IsFree slot_taken (i + 1) (span_step slot_taken i s)
  step_more t z =
      let some_left : 0 < count = ground arith in
      let c : s.contiguous ≡ true = ground (arith, open_) in
      let at : s.start + count ≡ i = ends c in
      let e : span_step slot_taken i s ≡ span s.start (s.bytes + buffer_size) true =
        unfold span_step in ground arith in
      subst (IsFree slot_taken (i + 1)) (sym e) (record {
        count = count + 1;
        bytes = omega arith;
        low = omega arith;
        open_ = λ h. cc;
        ends = λ h. omega arith;
        free = λ k l u. elim (ℕ_discrete k i) [
          | yes here ↦ rw here t
          | no other ↦ free k l (omega arith)
        ];
        longest = λ a l. one_more a (omega arith);
      })

  step-IsFree : IsFree slot_taken (i + 1) (span_step slot_taken i s)
  step-IsFree = elim (Bool-cases (slot_taken i)) [
    | inl t ↦ step_taken t
    | inr t ↦ elim (Bool-cases (s.bytes == 0)) [ inl z ↦ step_first t z | inr z ↦ step_more t z ]
  ]

-- What is left of it once the search is over.
pub record Found (slot_taken : ℕ → Bool) (s : Span) : Type 0 where
  pub count : ℕ
  pub bytes : s.bytes ≡ count * buffer_size
  pub low : s.start + count ≤ slots
  pub free : (k : ℕ) → s.start ≤ k → k < s.start + count → slot_taken k ≡ false

found :
    (slot_taken : ℕ → Bool) (i : ℕ) (s : Span)
    → i ≤ slots
    → IsFree slot_taken i s
    → Found slot_taken s
found slot_taken i s le v = record {
  count = v.count;
  bytes = v.bytes;
  low = omega (arith, v.low);
  free = v.free;
}

-- No run of slots below `i` that has room for the bytes is free.
abbrev pub NoRun : (ℕ → Bool) → (size i : ℕ) → Type 0
NoRun slot_taken size i =
    (start n : ℕ)
    → size ≤ n * buffer_size
    → start + n ≤ i
    → TakenBetween slot_taken start (start + n)

NoRun-step :
    (slot_taken : ℕ → Bool) (size i : ℕ) (s : Span)
    → IsFree slot_taken (i + 1) s
    → s.bytes < size
    → NoRun slot_taken size i
    → NoRun slot_taken size (i + 1)
NoRun-step slot_taken size i s v small none_yet start n room le =
    elim (ℕ_discrete (start + n) (i + 1)) [
      | yes here ↦
          let (k, from, to, t) = v.longest start (omega (arith, v.bytes)) in
          (k, from, omega arith, t)
      | no other ↦ none_yet start n room (omega arith)
    ]

step-bytes :
    (slot_taken : ℕ → Bool) (i : ℕ) (s : Span)
    → (span_step slot_taken i s).bytes ≤ s.bytes + buffer_size
unfolding span_step
step-bytes slot_taken i s = ground arith

-- How the search ends: with enough bytes and not a slot too many, or without a run that has room.
abbrev Ending : (ℕ → Bool) → (size : ℕ) → Span → Type 0
Ending slot_taken size s =
    ((size ≤ s.bytes) × (s.bytes < size + buffer_size))
    ⊎ ((s.bytes < size) × NoRun slot_taken size slots)

-- The search ends with a span of free slots, all of them in the map.
find_span-Found :
    (slot_taken : ℕ → Bool) (size n i : ℕ) (s : Span)
    → i + n ≡ slots
    → IsFree slot_taken i s
    → s.bytes < size
    → NoRun slot_taken size i
    → Found slot_taken (find_span slot_taken size i n s)
      × Ending slot_taken size (find_span slot_taken size i n s)
unfolding find_span
find_span-Found slot_taken size zero i s e v small none_yet = (
  found slot_taken i s (omega arith) v,
  inr (small, λ start n room le. none_yet start n room (omega arith)),
)
find_span-Found slot_taken size (suc n) i s e v small none_yet =
    let s' = span_step slot_taken i s in
    let w = step-IsFree slot_taken i s v in
    elim (Bool-cases (leb size (s'.bytes))) [
      | inl large ↦ rw large (
        found slot_taken (i + 1) s' (omega arith) w,
        inl (leb→le size (s'.bytes) large, omega (arith, step-bytes slot_taken i s)),
      )
      | inr more ↦
          let less : s'.bytes < size = ground arith in
          rw more (
            find_span-Found slot_taken size n (i + 1) s' (omega arith) w less
              (NoRun-step slot_taken size i s' w less none_yet))
    ]

start-IsFree : (slot_taken : ℕ → Bool) → IsFree slot_taken 0 (span 0 0 false)
start-IsFree slot_taken = record {
  count = 0;
  bytes = refl;
  low = omega arith;
  open_ = λ _. refl;
  ends = λ h. cc;
  free = λ k l u. absurd (omega arith);
  longest = λ a l. absurd (omega arith);
}

-- What fs_cache_get_new_buffer leaves when it hands out the slots from `start`, as few as have room for
-- the bytes.
pub record Handed (c : Cache) (size : ℕ) (c' : Cache) (addr : ℕ) : Type 0 where
  pub start : ℕ
  pub count : ℕ
  pub large : size ≤ count * buffer_size
  pub tight : count * buffer_size < size + buffer_size
  pub low : start + count ≤ slots
  pub address : addr ≡ cache_offset + start * buffer_size
  pub was_free : (k : ℕ) → start ≤ k → k < start + count → c.slot_taken k ≡ false
  pub now_taken :
      (k : ℕ)
      → c'.slot_taken k ≡ (if leb start k && ltb k (start + count) then true else c.slot_taken k)
  pub same_files : c'.file_table ≡ c.file_table

-- What it leaves when it hands out nothing: no run of free slots has room, or a page is missing.
pub record Refused (fails : ℕ → Bool) (c : Cache) (size : ℕ) (c' : Cache) (addr : ℕ) : Type 0 where
  pub null : addr ≡ 0
  pub same_slots : (k : ℕ) → c'.slot_taken k ≡ c.slot_taken k
  pub why : NoRun c.slot_taken size slots ⊎ ((offset : ℕ) × (offset < size) × (fails offset ≡ true))

page_below : (size k : ℕ) → k < pages_of size → 0 + k * page_size < size
page_below size k l = omega arith

missing_page :
    (fails : ℕ → Bool) (addr i n : ℕ) (mapped : ℕ → Bool)
    → (map_pages fails addr i n mapped).0 ≡ false
    → (k : ℕ) × (k < n) × (fails (i + k * page_size) ≡ true)
unfolding map_pages
missing_page fails addr i zero mapped e = absurd (ground arith)
missing_page fails addr i (suc n) mapped e = elim (Bool-cases (fails i)) [
  | inl bad ↦ let here : i + 0 * page_size ≡ i = omega arith in (0, omega arith, rw here bad)
  | inr good ↦
      let (k, low, bad) =
        missing_page fails addr (i + page_size) n (update mapped (addr + i) true)
          (rw (good, map_pages) at e) in
      let there : i + page_size + k * page_size ≡ i + (k + 1) * page_size = omega arith in
      (k + 1, omega arith, rw there at bad)
]

module _ (fails : ℕ → Bool) (size : ℕ) (s : Span) (c : Cache) (v : Found c.slot_taken s)
    (positive : 0 < size) (large : size ≤ s.bytes) (tight : s.bytes < size + buffer_size) where
  open v use {count, bytes, low, free}

  abbrev pages : Bool × (ℕ → Bool)
  pages =
      map_pages fails (cache_offset + s.start * buffer_size) 0
        (pages_of (if size == 0 then page_size else size)) c.mapped

  slots_used : s.bytes / buffer_size ≡ count
  slots_used = omega (arith, bytes)

  take_span-taken :
      pages.0 ≡ true → Handed c size ((take_span fails size s c).0) ((take_span fails size s c).1)
  unfolding take_span
  take_span-taken done = record {
    start = s.start;
    count = count;
    large = omega (arith, bytes);
    tight = omega (arith, bytes);
    low = low;
    address = ground arith;
    was_free = free;
    now_taken = λ k. ground (arith, slots_used);
    same_files = ground arith;
  }

  take_span-Refused :
      pages.0 ≡ false
      → Refused fails c size ((take_span fails size s c).0) ((take_span fails size s c).1)
  unfolding take_span
  take_span-Refused failed =
      let bytes_to_map : (if size == 0 then page_size else size) ≡ size = ground arith in
      let (k, low, bad) = missing_page fails _ 0 _ c.mapped failed in
      record {
        null = ground arith;
        same_slots = λ k. ground (arith, slots_used, free k);
        why = inr (0 + k * page_size, page_below size k (rw bytes_to_map at low), bad);
      }

-- For a size above 0, a buffer is handed out, of as few slots in a row as have room for the size,
-- all free before and taken after with every other slot as it was, at the address of the first; or
-- 0 is returned and no slot has changed, and no run of free slots has room or a page of the buffer
-- is missing.
pub fs_cache_get_new_buffer-Handed :
    (fails : ℕ → Bool) (size : ℕ) (c : Cache)
    → 0 < size
    → Handed c size
        ((fs_cache_get_new_buffer fails size c).0)
        ((fs_cache_get_new_buffer fails size c).1)
      ⊎ Refused fails c size
          ((fs_cache_get_new_buffer fails size c).0)
          ((fs_cache_get_new_buffer fails size c).1)
unfolding fs_cache_get_new_buffer
fs_cache_get_new_buffer-Handed fails size c positive =
    let s = find_span c.slot_taken size 0 slots (span 0 0 false) in
    let (f, ending) =
      find_span-Found c.slot_taken size slots 0 (span 0 0 false) (omega arith)
        (start-IsFree c.slot_taken) positive (λ start n room le. absurd (omega arith)) in
    elim ending [
      | inl (large, tight) ↦
          let enough : leb size s.bytes ≡ true = ground arith in
          elim (Bool-cases ((pages fails size s c f positive large tight).0)) [
            | inl done ↦
                inl (rw enough (take_span-taken fails size s c f positive large tight done))
            | inr failed ↦
                inr (rw enough (take_span-Refused fails size s c f positive large tight failed))
          ]
      | inr (small, no_run) ↦
          let less : leb size s.bytes ≡ false = ground arith in
          inr (rw less (record { null = refl; same_slots = λ k. refl; why = inl no_run }))
    ]
