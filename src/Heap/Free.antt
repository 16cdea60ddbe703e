-- ===== src/Heap/Free.antt =====
-- heap_free keeps the heap tiled: the block is one with the free neighbours that it merges with.
mod Scan
mod Merged
pub use Merged.{merged}
pub use Scan.{Ascends}
use Merged.{free_merged-Tiles}
use mathlib.Core.List.{append_assoc}
use balrog_os.Prelude.{
  if◌then◌else◌, ◌==◌, false, ◌⊎◌, ℕ, suc, ◌+◌, ◌≤◌, ◌<◌, ◌≡◌, refl, sym, ◌∙◌, false, some, List,
  [], ◌∷◌, ◌++◌, arith, length,
}
use balrog_os.Heap.{header, Headers, put, Freed, unmap, merge_previous, heap_free}
use balrog_os.Heap.Tiling.{Tiles, end_of, Tiles-same}

unmap-size : (h : Headers) (block x : ℕ) → (unmap h block x).size ≡ (h x).size
unfolding unmap put
unmap-size h block x = ground arith

unmap-next : (h : Headers) (block x : ℕ) → (unmap h block x).next_free ≡ (h x).next_free
unfolding unmap put
unmap-next h block x = ground arith

unmap-marks :
    (h : Headers) (block x : ℕ)
    → (unmap h block x).is_mmapped ≡ (if x == block then false else (h x).is_mmapped)
unfolding unmap put
unmap-marks h block x = ground arith

pub heap_free-Tiles :
    (fuel : ℕ) (h : Headers) (a top max f s : ℕ) (pre post : List ℕ)
    → Tiles h a top (pre ++ (s ∷ post))
    → (IsFree : ℕ → Type 0) → (f < end_of a pre → IsFree f)
    → Ascends IsFree h (end_of a pre)
    → (h (end_of a pre)).present ≡ false
    → length post ≤ fuel
    → end_of a pre ≤ fuel
    → (r : Freed) × (heap_free (suc fuel) h (end_of a pre) (end_of a pre + header + s) top f max
        ≡ some r)
      × Tiles
          (r.headers)
          a
          top
          (pre ++ merged (unmap h (end_of a pre)) max (end_of a pre + header + s) s post)
      × ((x : ℕ)
          → (r.headers x).is_mmapped ≡ (if x == end_of a pre then false else (h x).is_mmapped))
unfolding heap_free
heap_free-Tiles fuel h a top max f s pre post tiles IsFree is up used enough high =
    let block : ℕ = end_of a pre in
    let alone : merge_previous (unmap h block) block ≡ (block, unmap h block) =
      unfold merge_previous unmap put in ground arith in
    let (r, done, t, marks) =
      free_merged-Tiles fuel (unmap h block) a top max f s pre post
        (Tiles-same (pre ++ (s ∷ post)) h (unmap h block) a top (λ x l. unmap-size h block x) tiles)
        IsFree is (λ x free l. rw (unmap-next h block x) (up x free l)) enough high in
    (r, rw alone done, t, λ x. marks x ∙ unmap-marks h block x)

-- The headers once the block at `block` is a part of the free one at `p`.
abbrev pub joined : Headers → (p block : ℕ) → Headers
joined h p block =
    let g = unmap h block in
    put g p (record (g p) { size = (g p).size + ((g block).size + header) })
