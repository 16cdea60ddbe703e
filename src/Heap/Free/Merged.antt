-- ===== src/Heap/Free/Merged.antt =====
-- The part of heap_free behind the merge with the previous block.
use balrog_os.Prelude.{
  ℕ, suc, ◌+◌, ◌≤◌, ◌<◌, ◌≡◌, refl, ◌∙◌, true, false, not, ◌&&◌, inl, inr, some, List, [], ◌∷◌,
  ◌++◌, arith, ltb, ◌==◌, if◌then◌else◌, length, Bool-cases,
}
use balrog_os.Heap.{
  header, Headers, put, after, Freed, freed, absorb, set_next, scan, link, mark_after, free_merged,
}
use balrog_os.Heap.Tiling.{Tiles, end_of, Tiles-same, Tiles-split, Tiles-join, Tiles-below}
use balrog_os.Heap.Free.Scan.{
  Scanned, scan-Scanned, scan_on, scan_found, scan_end, set_next-Scanned, Tiles-le, walk-total,
  scan-marks, Ascends,
}

-- The sizes of the block and of those behind it, once it has taken in a free one.
abbrev pub merged : Headers → (max next s : ℕ) → List ℕ → List ℕ
merged h max next s [] = s ∷ []
merged h max next s (n ∷ post) =
    if not ((h next).is_mmapped) && ltb (s + header) max
    then (s + (n + header)) ∷ post
    else s ∷ n ∷ post

link-size :
    (fuel block : ℕ) (s t : Freed)
    → link fuel block s ≡ some t
    → (x : ℕ) → (t.headers x).size ≡ (s.headers x).size
unfolding link put
link-size fuel block s t e x = ground arith

mark_after-size :
    (top block : ℕ) (s : Freed) (x : ℕ)
    → ((mark_after top block s).headers x).size ≡ (s.headers x).size
unfolding mark_after put
mark_after-size top block s x = ground arith

link-marks :
    (fuel block : ℕ) (s t : Freed)
    → link fuel block s ≡ some t
    → (x : ℕ) → (t.headers x).is_mmapped ≡ (s.headers x).is_mmapped
unfolding link put
link-marks fuel block s t e x = ground arith

mark_after-marks :
    (top block : ℕ) (s : Freed) (x : ℕ)
    → ((mark_after top block s).headers x).is_mmapped ≡ (s.headers x).is_mmapped
unfolding mark_after put
mark_after-marks top block s x = ground arith

link-total :
    (IsFree : ℕ → Type 0) (fuel block next : ℕ) (h : Headers) (f : ℕ) (s : Freed)
    → block < fuel
    → (f < block → IsFree f)
    → Ascends IsFree h block
    → Scanned h f block next s
    → block ≤ next
    → (t : Freed) × (link fuel block s ≡ some t)
unfolding link
link-total IsFree fuel block next h f s enough is up ok le =
    elim (Bool-cases (ltb block s.first_free)) [
      | inl first ↦ (freed (set_next s.headers block s.first_free) block, rw first)
      | inr later ↦
          let (r, e) =
            walk-total IsFree fuel s.headers block s.first_free (ground arith) (ground arith)
              (rw ok.same_first is) (λ x free l. rw (ok.others x (omega arith)) (up x free l))
              (omega (arith, ok.ahead)) in
          (if r == block then s else freed (set_next s.headers r block) s.first_free, rw (later, e))
    ]

module _ (h : Headers) (a top max f s n : ℕ) (pre post : List ℕ)
    (tiles : Tiles h a top (pre ++ (s ∷ n ∷ post))) where
  pub absorb-Tiles :
      Tiles
        ((absorb h (end_of a pre) (end_of a pre + header + s) f).headers)
        a
        top
        (pre ++ ((s + (n + header)) ∷ post))
  unfolding absorb put
  absorb-Tiles =
      let block : ℕ = end_of a pre in
      let next : ℕ = block + header + s in
      let r = (absorb h block next f).headers in
      let (front, back) = Tiles-split pre (s ∷ n ∷ post) h a top tiles in
      let e : block + header + (s + (n + header)) ≡ next + header + n = omega arith in
      Tiles-join pre ((s + (n + header)) ∷ post) r a top
        (Tiles-below pre h r a block (λ x l. ground arith) (omega arith) front)
        (
          ground (arith, back.0, back.1.0),
          rw e (Tiles-same post h r (next + header + n) top (λ x l. ground arith) (back.1.1)),
        )

-- What the scan leaves: over headers that tile the heap by the sizes `ss`.
pub record Merged (IsFree : ℕ → Type 0) (a top block : ℕ) (ss : List ℕ) (r : Freed) : Type 0 where
  pub base : Headers
  pub first : ℕ
  pub from : ℕ
  pub past : block ≤ from
  pub scanned : Scanned base first block from r
  pub tiled : Tiles base a top ss
  pub start : first < block → IsFree first
  pub rising : Ascends IsFree base block

Ascends-absorb :
    (IsFree : ℕ → Type 0) (h : Headers) (block next f : ℕ)
    → Ascends IsFree h block
    → Ascends IsFree ((absorb h block next f).headers) block
unfolding absorb put
Ascends-absorb IsFree h block next f up x is l =
    let other : (x == block) ≡ false = ground arith in rw other (up x is l)

absorb-start :
    (IsFree : ℕ → Type 0) (h : Headers) (block next f : ℕ)
    → (f < block → IsFree f)
    → (absorb h block next f).first_free < block
    → IsFree ((absorb h block next f).first_free)
unfolding absorb
absorb-start IsFree h block next f is l = elim (Bool-cases (f == next)) [
  | inl e ↦ absurd (ground arith)
  | inr e ↦ rw e (is (ground arith))
]

scan_taken :
    (fuel top max block next : ℕ) (h : Headers) (f : ℕ)
    → next < top
    → (h next).is_mmapped ≡ false
    → ltb ((h block).size + header) max ≡ true
    → scan (suc fuel) top max block next true (freed h f)
      ≡ scan fuel top max block (after h next) false (absorb h block next f)
unfolding scan
scan_taken fuel top max block next h f inner unused small = ground arith

-- The scan from the block that is freed ends, and leaves the heap tiled with the merged block.
module _ (fuel : ℕ) (h : Headers) (a top max f s : ℕ) (pre : List ℕ) (IsFree : ℕ → Type 0)
    (is : f < end_of a pre → IsFree f) (up : Ascends IsFree h (end_of a pre)) where
  abbrev block : ℕ
  block = end_of a pre

  abbrev next : ℕ
  next = block + header + s

  Outcome : List ℕ → Type 0
  Outcome post =
      (r : Freed) × (scan (suc fuel) top max block next true (freed h f) ≡ some r)
      × Merged IsFree a top block (pre ++ merged h max next s post) r

  scan-Merged_last : Tiles h a top (pre ++ (s ∷ [])) → Outcome []
  unfolding Outcome
  scan-Merged_last tiles =
      let ends : next ≡ top = (Tiles-split pre (s ∷ []) h a top tiles).1.1 in
      (
        freed (set_next h block top) f,
        scan_end fuel top max block next h f true (omega arith),
        record {
          base = h;
          first = f;
          from = next;
          past = omega arith;
          scanned = set_next-Scanned h f block next top (omega arith);
          tiled = tiles;
          start = is;
          rising = up;
        },
      )

  module _ (n : ℕ) (post : List ℕ) (tiles : Tiles h a top (pre ++ (s ∷ n ∷ post)))
      (enough : length post < fuel) where
    size : (h block).size ≡ s
    size = (Tiles-split pre (s ∷ n ∷ post) h a top tiles).1.0

    size_next : (h next).size ≡ n
    size_next = (Tiles-split pre (s ∷ n ∷ post) h a top tiles).1.1.0

    behind : Tiles h (after h next) top post
    behind =
        let e : next + header + n ≡ after h next = omega (arith, size_next) in
        rw e at ((Tiles-split pre (s ∷ n ∷ post) h a top tiles).1.1.1)

    inner : next < top
    inner = omega (arith, Tiles-le post h (after h next) top behind)

    scan-Merged_used : (h next).is_mmapped ≡ true → Outcome (n ∷ post)
    unfolding Outcome
    scan-Merged_used used =
        let (r, done, ok) = scan-Scanned post fuel h top max f block (after h next) enough behind in
        (
          r,
          scan_on fuel top max block next h f inner used true ∙ done,
          record {
            base = h;
            first = f;
            from = after h next;
            past = omega arith;
            scanned = ok;
            tiled = rw used tiles;
            start = is;
            rising = up;
          },
        )

    scan-Merged_apart :
        (h next).is_mmapped ≡ false → ltb (s + header) max ≡ false → Outcome (n ∷ post)
    unfolding Outcome
    scan-Merged_apart unused large =
        let large' : ltb ((h block).size + header) max ≡ false = rw size large in
        (
          freed (set_next h block next) f,
          scan_found fuel top max block next h f true inner unused (rw large' refl),
          record {
            base = h;
            first = f;
            from = next;
            past = omega arith;
            scanned = set_next-Scanned h f block next next (omega arith);
            tiled = rw (unused, large) tiles;
            start = is;
            rising = up;
          },
        )

    scan-Merged_taken :
        (h next).is_mmapped ≡ false → ltb (s + header) max ≡ true → Outcome (n ∷ post)
    unfolding Outcome
    scan-Merged_taken unused small =
        let small' : ltb ((h block).size + header) max ≡ true = rw size small in
        let g = absorb h block next f in
        let behind' : Tiles (g.headers) (after h next) top post =
          Tiles-same post h (g.headers) (after h next) top
            (λ x l. unfold absorb put in ground arith) behind in
        let (r, done, ok) =
          scan-Scanned post fuel (g.headers) top max (g.first_free) block (after h next) enough
            behind' in
        (
          r,
          scan_taken fuel top max block next h f inner unused small' ∙ done,
          record {
            base = g.headers;
            first = g.first_free;
            from = after h next;
            past = omega arith;
            scanned = ok;
            tiled = rw (unused, small) (absorb-Tiles h a top max f s n pre post tiles);
            start = absorb-start IsFree h block next f is;
            rising = Ascends-absorb IsFree h block next f up;
          },
        )

  pub scan-Merged :
      (post : List ℕ)
      → Tiles h a top (pre ++ (s ∷ post))
      → length post ≤ fuel
      → (r : Freed) × (scan
            (suc fuel)
            top
            max
            (end_of a pre)
            (end_of a pre + header + s)
            true
            (freed h f)
          ≡ some r)
        × Merged IsFree a top
            (end_of a pre)
            (pre ++ merged h max (end_of a pre + header + s) s post)
            r
  unfolding Outcome
  scan-Merged [] tiles enough = scan-Merged_last tiles
  scan-Merged (n ∷ post) tiles enough = elim (Bool-cases ((h next).is_mmapped)) [
    | inl used ↦ scan-Merged_used n post tiles (omega arith) used
    | inr unused ↦ elim (Bool-cases (ltb (s + header) max)) [
      | inl small ↦ scan-Merged_taken n post tiles (omega arith) unused small
      | inr large ↦ scan-Merged_apart n post tiles (omega arith) unused large
    ]
  ]

-- What heap_free does from there on leaves all sizes as they are.
pub free_merged-Tiles :
    (fuel : ℕ) (h : Headers) (a top max f s : ℕ) (pre post : List ℕ)
    → Tiles h a top (pre ++ (s ∷ post))
    → (IsFree : ℕ → Type 0) → (f < end_of a pre → IsFree f)
    → Ascends IsFree h (end_of a pre)
    → length post ≤ fuel
    → end_of a pre ≤ fuel
    → (r : Freed) × (free_merged (suc fuel) (end_of a pre + header + s) top f max (end_of a pre) h
        ≡ some r)
      × Tiles (r.headers) a top (pre ++ merged h max (end_of a pre + header + s) s post)
      × ((x : ℕ) → (r.headers x).is_mmapped ≡ (h x).is_mmapped)
unfolding free_merged
free_merged-Tiles fuel h a top max f s pre post tiles IsFree is up enough high =
    let block : ℕ = end_of a pre in
    let next : ℕ = block + header + s in
    let (r, done, m) = scan-Merged fuel h a top max f s pre IsFree is up post tiles enough in
    let (t, linked) =
      link-total IsFree (suc fuel) block (m.from) (m.base) (m.first) r (omega arith) (m.start)
        (m.rising) (m.scanned) (m.past) in
    (
      mark_after top block t,
      ground (arith, done, linked),
      Tiles-same (pre ++ merged h max next s post) (m.base) ((mark_after top block t).headers) a top
          (λ x l.
            mark_after-size top block t x
            ∙ link-size (suc fuel) block r t linked x
            ∙ m.scanned.sizes x)
          (m.tiled),
      λ x.
          mark_after-marks top block t x
          ∙ link-marks (suc fuel) block r t linked x
          ∙ scan-marks (suc fuel) top max block next true (freed h f) r done x,
    )
