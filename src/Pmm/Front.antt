-- ===== src/Pmm/Front.antt =====
-- What pmm_alloc returns from its front.
use balrog_os.Prelude.{
  false, ℕ, ◌+◌, ◌≤◌, ◌<◌, ◌≡◌, refl, ◌⊎◌, inl, inr, some, arith, leb, Bool-cases, length, All,
}
use balrog_os.Pmm.{page_size, Pmm, inside, Alloc, take_front, cross_32, alloc_front}
use balrog_os.Pmm.Skip.{skip_reserved_total}

-- What a state and the answer of the front have in common.
pub record FromFront (s : Pmm) (a : Alloc) : Type 0 where
  pub same_queue : a.1.last_free_q ≡ s.last_free_q
  pub same_reserved : a.1.reserved ≡ s.reserved
  pub same_top : a.1.pmm_top_addr ≡ s.pmm_top_addr
  pub grows : s.next_addr ≤ a.1.next_addr
  pub page :
      (a.0 ≡ 0)
      ⊎ ((s.next_addr ≤ a.0)
          × (a.1.next_addr ≡ a.0 + page_size)
          × (a.0 < s.pmm_top_addr)
          × All (λ r. inside (a.0) r ≡ false) s.reserved)

cross_32-grows : (s : Pmm) → s.next_addr ≤ cross_32 s
unfolding cross_32
cross_32-grows s = ground arith

take_front-FromFront :
    (s : Pmm) (n : ℕ)
    → s.next_addr ≤ n
    → All (λ r. inside n r ≡ false) s.reserved
    → FromFront s (take_front s n)
unfolding take_front
take_front-FromFront s n le out = elim (Bool-cases (leb s.pmm_top_addr n)) [
  | inl full ↦ record {
    same_queue = ground arith;
    same_reserved = ground arith;
    same_top = ground arith;
    grows = ground arith;
    page = inl (ground arith);
  }
  | inr room ↦ record {
    same_queue = ground arith;
    same_reserved = ground arith;
    same_top = ground arith;
    grows = ground arith;
    page = inr (ground arith, ground arith, ground arith, rw room out);
  }
]

-- With more fuel than there are reserved ranges the front answers: with 0, or with a page at or
-- above the front, below the top and in no reserved range, and the front moves behind that page.
-- The queue, the reserved ranges and the top stay as they are.
pub alloc_front-FromFront :
    (fuel : ℕ) (s : Pmm)
    → length s.reserved < fuel
    → (a : Alloc) × (alloc_front fuel s ≡ some a) × FromFront s a
unfolding alloc_front
alloc_front-FromFront fuel s enough =
    let (n, e, le, out) = skip_reserved_total fuel s.reserved (cross_32 s) enough in
    let up = cross_32-grows s in
    elim (Bool-cases (leb s.pmm_top_addr s.next_addr)) [
      | inl full ↦ (
        (0, s),
        rw full,
        record {
          same_queue = refl;
          same_reserved = refl;
          same_top = refl;
          grows = omega arith;
          page = inl refl;
        },
      )
      | inr room ↦ elim (Bool-cases (leb s.pmm_top_addr (cross_32 s))) [
        | inl full ↦ (
          (0, record s { next_addr = cross_32 s }),
          rw (room, full),
          record {
            same_queue = refl;
            same_reserved = refl;
            same_top = refl;
            grows = up;
            page = inl refl;
          },
        )
        | inr open_ ↦
            (take_front s n, rw (room, open_, e), take_front-FromFront s n (omega arith) out)
      ]
    ]
