-- ===== src/Heap/Alloc.antt =====
-- heap_alloc keeps the heap tiled, and gives a block that is large enough.
use mathlib.Core.Path.{subst}
use native.Mathlib.Decide.{dec_lt}
use balrog_os.Prelude.{
  ℕ, ◌+◌, ◌-◌, ◌≤◌, ◌<◌, ◌≡◌, refl, sym, Bool, true, false, List, ◌∷◌, ◌++◌, arith, leb, ◌==◌,
  if◌then◌else◌,
}
use balrog_os.Heap.{header, Headers, Alloced, alloc_whole, alloc_split, heap_alloc}
use balrog_os.Heap.Tiling.{Tiles, end_of, Tiles-same, Tiles-split, Tiles-join, Tiles-below}

module _ (h : Headers) (size current prev top first_free : ℕ) (first_block : Bool) where
  -- A block given whole: every size is as before.
  alloc_whole-size :
      (x : ℕ)
      → ((alloc_whole h current prev top first_free first_block).headers x).size ≡ (h x).size
  unfolding alloc_whole
  alloc_whole-size x = ground arith

  alloc_whole-is_mmapped :
      (x : ℕ)
      → ((alloc_whole h current prev top first_free first_block).headers x).is_mmapped
        ≡ (if x == current then true else (h x).is_mmapped)
  unfolding alloc_whole
  alloc_whole-is_mmapped x = ground arith

  -- A block that is split: the front keeps what is left, and the end has the size asked for.
  alloc_split-size :
      (x : ℕ)
      → ((alloc_split h size current top first_free).headers x).size ≡ (
          if x == current + ((h current).size - (size + header)) + header
          then size
          else if x == current
          then (h current).size - (size + header)
          else (h x).size)
  unfolding alloc_split
  alloc_split-size x = ground arith

  alloc_split-is_mmapped :
      (x : ℕ)
      → ((alloc_split h size current top first_free).headers x).is_mmapped ≡ (
          if x == current + ((h current).size - (size + header)) + header
          then true
          else (h x).is_mmapped)
  unfolding alloc_split
  alloc_split-is_mmapped x = ground arith

-- The sizes of the blocks once `size` bytes are taken from a block of `s`.
abbrev pub taken : (size s : ℕ) → List ℕ → List ℕ
taken size s post = if leb s (size + header) then s ∷ post else (s - (size + header)) ∷ size ∷ post

module _ (h : Headers) (size prev top first_free a s : ℕ) (pre post : List ℕ) (first_block : Bool)
    (fits : size ≤ s) (tiles : Tiles h a top (pre ++ (s ∷ post))) where
  abbrev current : ℕ
  current = end_of a pre

  here : (h current).size ≡ s
  here = (Tiles-split pre (s ∷ post) h a top tiles).1.0

  split-Tiles :
      size + header < s
      → Tiles
          ((alloc_split h size current top first_free).headers)
          a
          top
          (pre ++ ((s - (size + header)) ∷ size ∷ post))
  split-Tiles room =
      let r = (alloc_split h size current top first_free).headers in
      let (front, back) = Tiles-split pre (s ∷ post) h a top tiles in
      let sizes = alloc_split-size h size current prev top first_free first_block in
      let e : current + header + (s - (size + header)) + header + size ≡ current + header + s =
        omega arith in
      Tiles-join pre ((s - (size + header)) ∷ size ∷ post) r a top
        (Tiles-below pre h r a current (λ x l. ground (arith, sizes x)) (omega arith) front)
        (
          ground (arith, here, sizes current),
          (
            ground (arith, here, sizes (current + header + (s - (size + header)))),
            rw e (
                Tiles-same post h r (current + header + s) top
                  (λ x l. ground (arith, here, sizes x)) (back.1)),
          ),
        )

  -- What it is to give `size` bytes out of the block, at the address `block` + header.
  pub record Placed (r : Alloced) : Type 0 where
    pub block : ℕ
    pub result : r.result ≡ block + header
    pub tiled : Tiles (r.headers) a top (pre ++ taken size s post)
    pub low : current ≤ block
    pub high : block + header + size ≤ current + header + s
    pub large : size ≤ (r.headers block).size
    pub marks : (x : ℕ) → (r.headers x).is_mmapped ≡ (if x == block then true else (h x).is_mmapped)

  whole-Placed : s ≤ size + header → Placed (alloc_whole h current prev top first_free first_block)
  whole-Placed whole =
      let r = alloc_whole h current prev top first_free first_block in
      let sizes = alloc_whole-size h size current prev top first_free first_block in
      let all : leb s (size + header) ≡ true = ground arith in
      record {
        block = current;
        result = unfold alloc_whole in refl;
        tiled = rw all (Tiles-same (pre ++ (s ∷ post)) h r.headers a top (λ x l. sizes x) tiles);
        low = omega arith;
        high = omega arith;
        large = omega (arith, sizes current, here);
        marks = alloc_whole-is_mmapped h size current prev top first_free first_block;
      }

  split-Placed : size + header < s → Placed (alloc_split h size current top first_free)
  split-Placed room =
      let r = alloc_split h size current top first_free in
      let sizes = alloc_split-size h size current prev top first_free first_block in
      let marks = alloc_split-is_mmapped h size current prev top first_free first_block in
      let block : ℕ = current + ((h current).size - (size + header)) + header in
      let some_left : leb s (size + header) ≡ false = ground arith in
      record {
        block = block;
        result = unfold alloc_split in refl;
        tiled = rw some_left (split-Tiles room);
        low = omega arith;
        high = omega (arith, here);
        large = ground (arith, sizes block);
        marks = marks;
      }

  heap_alloc-whole :
      s ≤ size + header
      → heap_alloc h size current prev top first_free first_block
        ≡ alloc_whole h current prev top first_free first_block
  unfolding heap_alloc
  heap_alloc-whole whole = ground (arith, here)

  heap_alloc-split :
      size + header < s
      → heap_alloc h size current prev top first_free first_block
        ≡ alloc_split h size current top first_free
  unfolding heap_alloc
  heap_alloc-split room = ground (arith, here)

  -- heap_alloc on a block that is large enough returns an address behind a header inside that block.
  -- The heap is tiled as before, but for the block, which is given whole or cut in two: its front
  -- stays free, and its end is given. The header in front of the address is marked allocated and has
  -- at least the size asked for; no other block's mark changes.
  pub heap_alloc-Placed : Placed (heap_alloc h size current prev top first_free first_block)
  heap_alloc-Placed = elim (dec_lt (size + header) s) [
    | yes room ↦ subst Placed (sym (heap_alloc-split room)) (split-Placed room)
    | no room ↦
        let whole : s ≤ size + header = omega arith in
        subst Placed (sym (heap_alloc-whole whole)) (whole-Placed whole)
  ]

-- heap_alloc on a block that is too small returns 0 and changes nothing.
pub heap_alloc-small :
    (h : Headers) (size current prev top first_free : ℕ) (first_block : Bool)
    → (h current).size < size
    → heap_alloc h size current prev top first_free first_block
      ≡ record { result = 0; headers = h; first_free = first_free }
unfolding heap_alloc
heap_alloc-small h size current prev top first_free first_block small = ground arith
