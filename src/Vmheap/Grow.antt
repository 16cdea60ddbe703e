-- ===== src/Vmheap/Grow.antt =====
-- How the growing heaps grow.
use balrog_os.Prelude.{
  ℕ, ◌+◌, ◌-◌, ◌*◌, ◌≤◌, ◌<◌, ◌≡◌, inl, inr, true, false, List, [], ◌∷◌, ◌++◌, arith, ◌==◌,
  if◌then◌else◌, Bool-cases,
}
use balrog_os.Heap.{Headers, header, put}
use balrog_os.Heap.Tiling.{Tiles, end_of, Tiles-split, Tiles-join, Tiles-below, end_of-le}
use balrog_os.Vmheap.{grow, grow_tail, grow_block, extend, empty_list, pages_needed}

module _ (h : Headers) (low top first_free prev size : ℕ)
    (small : extend h low top prev ≡ true → (h prev).size < size) where
  -- If a block that is to be extended is smaller than the bytes asked for, the block that growth
  -- offers is larger than those bytes and a header.
  pub grow_room :
      size + header
      < ((grow h low top first_free prev size).0.headers
          ((grow h low top first_free prev size).0.current)).size
  unfolding grow grow_tail grow_block pages_needed put
  grow_room = elim (Bool-cases (extend h low top prev)) [
    | inl last ↦ rw last (let less = small last in ground arith)
    | inr other ↦ rw other (ground arith)
  ]

-- The block that growth offers stands in the heap.
pub grow_current :
    (h : Headers) (low top first_free prev size : ℕ)
    → low ≤ top
    → (low ≤ (grow h low top first_free prev size).0.current)
      × ((grow h low top first_free prev size).0.current
          < top + (grow h low top first_free prev size).1)
unfolding grow grow_tail grow_block extend empty_list pages_needed
grow_current h low top first_free prev size le = (ground arith, ground arith)

-- The block that growth offers ends where the heap then does.
pub grow_ends :
    (h : Headers) (low top first_free prev size : ℕ)
    → (grow h low top first_free prev size).0.current
        + header
        + ((grow h low top first_free prev size).0.headers
            ((grow h low top first_free prev size).0.current)).size
      ≡ top + (grow h low top first_free prev size).1
unfolding grow grow_tail grow_block extend empty_list pages_needed put
grow_ends h low top first_free prev size = elim (Bool-cases (extend h low top prev)) [
  | inl last ↦ ground arith
  | inr other ↦ ground arith
]

grow_tail-Tiles :
    (h : Headers) (low top first_free bytes t : ℕ) (pre : List ℕ)
    → Tiles h low top (pre ++ (t ∷ []))
    → Tiles
        ((grow_tail h top first_free (end_of low pre) bytes).headers)
        low
        (top + bytes)
        (pre ++ ((t + bytes) ∷ []))
unfolding grow_tail put
grow_tail-Tiles h low top first_free bytes t pre tiles =
    let prev : ℕ = end_of low pre in
    let g = (grow_tail h top first_free prev bytes).headers in
    let (front, back) = Tiles-split pre (t ∷ []) h low top tiles in
    Tiles-join pre ((t + bytes) ∷ []) g low (top + bytes)
      (Tiles-below pre h g low prev (λ x l. unfold grow_tail put in ground arith) (omega arith)
        front)
      (ground (arith, back.0), omega (arith, back.1))

end_of-Tiles : (ss : List ℕ) (h : Headers) (a top : ℕ) → Tiles h a top ss → end_of a ss ≡ top
end_of-Tiles [] h a top t = t
end_of-Tiles (s ∷ ss) h a top t = end_of-Tiles ss h (a + header + s) top t.1

grow_block-size :
    (h : Headers) (low top first_free prev bytes x : ℕ)
    → ((grow_block h low top first_free prev bytes).headers x).size
      ≡ (if x == top then bytes - header else (h x).size)
unfolding grow_block put
grow_block-size h low top first_free prev bytes x = ground arith

grow_block-Tiles :
    (h : Headers) (low top first_free prev bytes : ℕ) (ss : List ℕ)
    → header ≤ bytes
    → Tiles h low top ss
    → Tiles
        ((grow_block h low top first_free prev bytes).headers)
        low
        (top + bytes)
        (ss ++ ((bytes - header) ∷ []))
grow_block-Tiles h low top first_free prev bytes ss large tiles =
    let g = (grow_block h low top first_free prev bytes).headers in
    let sizes = grow_block-size h low top first_free prev bytes in
    let ends : end_of low ss ≡ top = end_of-Tiles ss h low top tiles in
    Tiles-join ss ((bytes - header) ∷ []) g low (top + bytes)
      (Tiles-below ss h g low top (λ x l. ground (arith, sizes x)) (omega arith) (rw ends tiles))
      (ground (arith, sizes top), omega arith)

-- The sizes of the blocks after the growth by `bytes`.
abbrev pub grown_sizes : (bytes t : ℕ) → (pre post : List ℕ) → List ℕ
grown_sizes bytes t pre [] = pre ++ ((t + bytes) ∷ [])
grown_sizes bytes t pre (p ∷ post) = (pre ++ (t ∷ p ∷ post)) ++ ((bytes - header) ∷ [])

extend_last :
    (h : Headers) (low top t : ℕ) (pre : List ℕ)
    → Tiles h low top (pre ++ (t ∷ []))
    → extend h low top (end_of low pre) ≡ true
unfolding extend empty_list
extend_last h low top t pre tiles =
    let (front, back) = Tiles-split pre (t ∷ []) h low top tiles in
    ground (arith, back.0, back.1, end_of-le low pre)

extend_inner :
    (h : Headers) (low top t p : ℕ) (pre post : List ℕ)
    → Tiles h low top (pre ++ (t ∷ p ∷ post))
    → extend h low top (end_of low pre) ≡ false
unfolding extend empty_list
extend_inner h low top t p pre post tiles =
    let (front, back) = Tiles-split pre (t ∷ p ∷ post) h low top tiles in
    let beyond = end_of-le (end_of low pre + header + t + header + p) post in
    let ends = end_of-Tiles post h (end_of low pre + header + t + header + p) top (back.1.1) in
    ground (arith, back.0, beyond, ends)

-- Growth keeps the heap tiled. If the block that the search ended with is the last of the heap, it
-- gets the new bytes; else they are a block of their own behind all others.
pub grow-Tiles :
    (h : Headers) (low top first_free size t : ℕ) (pre post : List ℕ)
    → Tiles h low top (pre ++ (t ∷ post))
    → Tiles
        ((grow h low top first_free (end_of low pre) size).0.headers)
        low
        (top + (grow h low top first_free (end_of low pre) size).1)
        (grown_sizes ((grow h low top first_free (end_of low pre) size).1) t pre post)
unfolding grow
grow-Tiles h low top first_free size t pre [] tiles = rw (extend_last h low top t pre tiles) (
    grow_tail-Tiles h low top first_free (pages_needed h size true (end_of low pre) * 0x1000) t pre
      tiles)
grow-Tiles h low top first_free size t pre (p ∷ post) tiles =
    rw (extend_inner h low top t p pre post tiles) (
      grow_block-Tiles h low top first_free (end_of low pre)
        (pages_needed h size false (end_of low pre) * 0x1000) (pre ++ (t ∷ p ∷ post))
        (unfold pages_needed in omega arith) tiles)
