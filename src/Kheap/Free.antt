-- ===== src/Kheap/Free.antt =====
-- kfree keeps the kernel heap tiled.
use balrog_os.Prelude.{
  ℕ, suc, ◌+◌, ◌-◌, ◌%◌, ◌^◌, ◌≤◌, ◌<◌, ◌≡◌, refl, true, false, some, List, ◌∷◌, ◌++◌, arith,
  length,
}
use balrog_os.Heap.{header, unmap}
use balrog_os.Heap.Tiling.{Tiles, end_of, Tiles-split}
use balrog_os.Heap.Free.{heap_free-Tiles, merged, Ascends}
use balrog_os.Kheap.{Kheap, kfree, give_back}

-- kfree of the address behind the header of an allocated block, in a tiled heap whose free
-- list goes up below the block, and where the block in front is allocated, returns if there is
-- fuel for the blocks behind and for the walk. The
-- heap is tiled as before, but for a free block right behind, which is taken in if the size stays
-- below the limit; the count of bytes
-- in use loses the size of the block.
pub kfree-Tiles :
    (fuel : ℕ) (k : Kheap) (s : ℕ) (pre post : List ℕ)
    → Tiles k.headers k.kheap_start k.kheap_end (pre ++ (s ∷ post))
    → (IsFree : ℕ → Type 0) → (k.kfirst_free < end_of k.kheap_start pre → IsFree k.kfirst_free)
    → Ascends IsFree k.headers (end_of k.kheap_start pre)
    → (k.headers (end_of k.kheap_start pre)).present ≡ false
    → (k.headers (end_of k.kheap_start pre)).is_mmapped ≡ true
    → length post ≤ fuel
    → end_of k.kheap_start pre ≤ fuel
    → (t : Kheap) × (kfree (suc fuel) (end_of k.kheap_start pre + header) k ≡ some t)
      × (t.kheap_size ≡ (k.kheap_size + 2 ^ 64 - s) % 2 ^ 64)
      × Tiles t.headers k.kheap_start k.kheap_end (
          pre
          ++ merged
              (unmap k.headers (end_of k.kheap_start pre))
              (k.kheap_end - k.kheap_start)
              (end_of k.kheap_start pre + header + s)
              s
              post)
unfolding kfree give_back
kfree-Tiles fuel k s pre post tiles IsFree is up used marked enough high =
    let block : ℕ = end_of k.kheap_start pre in
    let sized : (k.headers block).size ≡ s =
      (Tiles-split pre (s ∷ post) k.headers k.kheap_start k.kheap_end tiles).1.0 in
    let (r, e, t, _) =
      heap_free-Tiles fuel k.headers k.kheap_start k.kheap_end (k.kheap_end - k.kheap_start)
        k.kfirst_free s pre post tiles IsFree is up used enough high in
    let back : block + header - header ≡ block = omega arith in
    (
      record k {
        headers = r.headers;
        kfirst_free = r.first_free;
        kheap_size = (k.kheap_size + 2 ^ 64 - s) % 2 ^ 64;
      },
      rw (back, sized, marked, e),
      refl,
      t,
    )
