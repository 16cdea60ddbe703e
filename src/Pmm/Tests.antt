-- ===== src/Pmm/Tests.antt =====
-- Runs of the page allocator on a machine of 1 MiB with one reserved page.
use balrog_os.Prelude.{◌≡◌, refl, true, some, [], ◌∷◌, arith}
use balrog_os.Pmm.{Pmm, Alloc, cross_32, pmm_alloc, pmm_free}
use balrog_os.Pmm.Owners.{
  Inv, Handed, Reach, begin, got, count, pmm_free-Inv, pmm_alloc-Handed, never_twice,
}
use balrog_os.Pmm.Twice.{front_page_twice}

abbrev small : Pmm
small = record {
  next_addr = 0x10000;
  top_32_addr = 0xC0000000;
  pmm_top_addr = 0x100000;
  last_free_q = [];
  reserved = (0x11000, 0x12000) ∷ [];
  total_memory_used = 0;
  refused = 0;
}

-- The state behind the first allocation, and behind the second.
abbrev one_page : Pmm
one_page = record small { next_addr = 0x11000; total_memory_used = 0x1000 }

abbrev two_pages : Pmm
two_pages = record small { next_addr = 0x13000; total_memory_used = 0x2000 }

first_page : pmm_alloc 9 small ≡ some (0x10000, one_page)
unfolding pmm_alloc
first_page = refl

-- The reserved page is stepped over.
second_page : pmm_alloc 9 one_page ≡ some (0x12000, two_pages)
unfolding pmm_alloc
second_page = refl

small-Inv : Inv small []
small-Inv = record {
  apart = λ x. omega arith;
  below = λ x h. absurd (omega arith);
  front = omega arith;
  top = omega arith;
}

one_page-Inv : Inv one_page (0x10000 ∷ [])
one_page-Inv = record {
  apart = λ x. ground arith;
  below = λ x h. ground arith;
  front = omega arith;
  top = omega arith;
}

pmm_free-Inv_example : Inv (pmm_free true 0x10000 one_page) []
pmm_free-Inv_example = pmm_free-Inv true 0x10000 one_page (0x10000 ∷ []) one_page-Inv (omega arith)

pmm_alloc-Handed_example : (a : Alloc) × (pmm_alloc 9 one_page ≡ some a) × Handed (0x10000 ∷ []) a
pmm_alloc-Handed_example = pmm_alloc-Handed 9 one_page (0x10000 ∷ []) one_page-Inv (omega arith)

reached : Reach small one_page (0x10000 ∷ [])
reached = got 9 0x10000 begin (omega arith) first_page (omega arith)

never_twice_example : count 0x12000 (0x10000 ∷ []) ≡ 0
never_twice_example =
    never_twice 9 0x12000 small-Inv reached (omega arith) second_page (omega arith)

front_page_twice_example :
    (t u : Pmm) × (pmm_alloc 9 (pmm_free true 0x10000 small) ≡ some (0x10000, t))
    × (pmm_alloc 9 t ≡ some (0x10000, u))
front_page_twice_example =
    front_page_twice 8 small refl (omega arith) (omega arith) (unfold cross_32 in refl) (refl, tt)
