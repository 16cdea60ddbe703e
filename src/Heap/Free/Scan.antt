-- ===== src/Heap/Free/Scan.antt =====
-- The loops of heap_free: the scan for the next free block, and the walk to the previous one.
use balrog_os.Prelude.{
  ℕ, zero, suc, ◌+◌, ◌≤◌, ◌<◌, ◌≡◌, refl, ◌≢◌, ◌∙◌, ◌⊎◌, Bool, true, false, not, ◌&&◌, inl, inr,
  some, List, [], ◌∷◌, arith, ltb, ◌==◌, length, Bool-cases,
}
use balrog_os.Heap.{header, Headers, put, after, Freed, freed, absorb, set_next, scan, walk}
use balrog_os.Heap.Tiling.{Tiles}

pub Tiles-le : (ss : List ℕ) (h : Headers) (a top : ℕ) → Tiles h a top ss → a ≤ top
Tiles-le [] h a top t = omega arith
Tiles-le (s ∷ ss) h a top t = omega (arith, Tiles-le ss h (a + header + s) top t.1)

-- What a scan that absorbs nothing more leaves.
pub record Scanned (h : Headers) (f block next : ℕ) (s : Freed) : Type 0 where
  pub sizes : (x : ℕ) → (s.headers x).size ≡ (h x).size
  pub same_first : s.first_free ≡ f
  pub ahead : next ≤ (s.headers block).next_free
  pub others : (x : ℕ) → x ≢ block → (s.headers x).next_free ≡ (h x).next_free

pub scan_on :
    (fuel top max block next : ℕ) (h : Headers) (f : ℕ)
    → next < top
    → (h next).is_mmapped ≡ true
    → (contiguous : Bool)
    → scan (suc fuel) top max block next contiguous (freed h f)
      ≡ scan fuel top max block (after h next) false (freed h f)
unfolding scan
scan_on fuel top max block next h f inner used contiguous = ground arith

pub scan_found :
    (fuel top max block next : ℕ) (h : Headers) (f : ℕ) (contiguous : Bool)
    → next < top
    → (h next).is_mmapped ≡ false
    → (ltb ((h block).size + header) max && contiguous) ≡ false
    → scan (suc fuel) top max block next contiguous (freed h f)
      ≡ some (freed (set_next h block next) f)
unfolding scan
scan_found fuel top max block next h f contiguous inner unused apart = ground arith

pub scan_end :
    (fuel top max block next : ℕ) (h : Headers) (f : ℕ) (contiguous : Bool)
    → top ≤ next
    → scan (suc fuel) top max block next contiguous (freed h f)
      ≡ some (freed (set_next h block top) f)
unfolding scan
scan_end fuel top max block next h f contiguous end = ground arith

and-false : (b : Bool) → (b && false) ≡ false
and-false true = refl
and-false false = refl

pub set_next-Scanned :
    (h : Headers) (f block next n : ℕ)
    → next ≤ n
    → Scanned h f block next (freed (set_next h block n) f)
unfolding put
set_next-Scanned h f block next n le = record {
  sizes = λ x. ground arith;
  same_first = refl;
  ahead = ground arith;
  others = λ x ne. ground arith;
}

-- The scan leaves every mark of an allocated block as it is.
pub scan-marks :
    (fuel top max block next : ℕ) (contiguous : Bool) (s t : Freed)
    → scan fuel top max block next contiguous s ≡ some t
    → (x : ℕ) → (t.headers x).is_mmapped ≡ (s.headers x).is_mmapped
scan-marks zero top max block next contiguous s t e x = absurd (unfold scan in ground arith)
scan-marks (suc fuel) top max block next contiguous s t e x =
    let on = scan-marks fuel top max block (after s.headers next) false in
    let absorbed = absorb s.headers block next s.first_free in
    let kept : (absorbed.headers x).is_mmapped ≡ (s.headers x).is_mmapped =
      unfold absorb put in ground arith in
    elim (Bool-cases (ltb next top)) [
      | inr end ↦ unfold scan put in ground arith
      | inl inner ↦ elim (Bool-cases ((s.headers next).is_mmapped)) [
        | inl used ↦ on s t (unfold scan in (rw (inner, used, scan) at e)) x
        | inr unused ↦ elim (Bool-cases (ltb ((s.headers block).size + header) max && contiguous)) [
          | inl taken ↦
              on absorbed t (unfold scan in (rw (inner, unused, taken, scan) at e)) x ∙ kept
          | inr apart ↦ unfold scan put in ground arith
        ]
      ]
    ]

-- Over `post` the scan ends, for there are fewer blocks than units of fuel.
pub scan-Scanned :
    (post : List ℕ) (fuel : ℕ) (h : Headers) (top max f block next : ℕ)
    → length post < fuel
    → Tiles h next top post
    → (s : Freed) × (scan fuel top max block next false (freed h f) ≡ some s)
      × Scanned h f block next s
scan-Scanned post zero h top max f block next enough t = absurd (omega arith)
scan-Scanned [] (suc fuel) h top max f block next enough t = (
  _,
  scan_end fuel top max block next h f false (omega arith),
  set_next-Scanned h f block next top (omega arith),
)
scan-Scanned (n ∷ post) (suc fuel) h top max f block next enough t =
    let le = Tiles-le post h (next + header + n) top (t.1) in
    elim (Bool-cases ((h next).is_mmapped)) [
      | inl used ↦
          let e : next + header + n ≡ after h next = omega (arith, t.0) in
          let (s, done, ok) =
            scan-Scanned post fuel h top max f block (after h next) (omega arith) (rw e at (t.1)) in
          (
            s,
            scan_on fuel top max block next h f (omega arith) used false ∙ done,
            record {
              sizes = ok.sizes;
              same_first = ok.same_first;
              ahead = omega (arith, ok.ahead);
              others = ok.others;
            },
          )
      | inr unused ↦ (
        _,
        scan_found fuel top max block next h f false (omega arith) unused (and-false _),
        set_next-Scanned h f block next next (omega arith),
      )
    ]

-- Below the block the free list goes up, or ends with a 0.
abbrev pub Ascends : (ℕ → Type 0) → Headers → ℕ → Type 0
Ascends IsFree h block =
    (x : ℕ)
    → IsFree x
    → x < block
    → ((h x).next_free ≡ 0) ⊎ ((x < (h x).next_free) × IsFree ((h x).next_free))

-- The walk ends below or at the block, if below the block the free list goes up.
pub walk-total :
    (IsFree : ℕ → Type 0) (fuel : ℕ) (h : Headers) (block first : ℕ)
    → first ≤ block
    → block < fuel + first
    → (first < block → IsFree first)
    → Ascends IsFree h block
    → block ≤ (h block).next_free
    → (r : ℕ) × (walk fuel h block first ≡ some r)
unfolding walk
walk-total IsFree zero h block first le enough is up ahead = absurd (omega arith)
walk-total IsFree (suc fuel) h block first le enough is up ahead =
    elim (Bool-cases
      (not (first == 0) && not ((h first).next_free == 0) && ltb ((h first).next_free) block)) [
        | inl go ↦
            let below : first < block = ground arith in
            let nonzero : (h first).next_free ≢ 0 = ground arith in
            elim (up first (is below) below) [
              | inl zero_next ↦ absurd (nonzero zero_next)
              | inr (further, free) ↦
                  let (r, e) =
                    walk-total IsFree fuel h block ((h first).next_free) (ground arith)
                      (omega arith) (λ _. free) up ahead in
                  (r, rw go e)
            ]
        | inr stop ↦ (first, rw stop)
      ]
