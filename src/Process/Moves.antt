-- ===== src/Process/Moves.antt =====
-- A process leaves the ready list.
use mathlib.Core.Path.{subst}
use balrog_os.Prelude.{
  All-append, All-back, All-front, All-imp, append_nil, ℕ, ◌+◌, ◌%◌, ◌≡◌, refl, ◌≢◌, ap, sym, ◌∙◌,
  true, List, [], ◌∷◌, ◌++◌, arith, length-append, pos,
}
use balrog_os.Process.{Sched, set_next, set_prev, in_ring, unlink, transfert_to_wait}
use balrog_os.Process.Chain.{
  Chain-last, Ring, Ring-rotate, last, last-append, NotIn-last, Distinct, Distinct-drop,
  Distinct-rotate,
}
use balrog_os.Process.Ring.{Next, Prev, Ends, IsRing, Joins, Ring-cut}

-- The stores of `__proc_transfert_to_wait`, which join the two neighbours of the process.
unlink-Joins :
    (p t q : ℕ) (s : Sched)
    → (s.procs p).next ≡ q
    → (s.procs p).prev ≡ t
    → s.size ≢ 1
    → (p ≡ s.head → s.tail ≡ t)
    → (p ≢ s.head → p ≡ s.tail → s.head ≡ q)
    → Joins t q s.procs ((unlink p s).procs)
unfolding unlink set_next set_prev
unlink-Joins p t q s next prev more at_head at_tail = record {
  next_set = ground arith;
  prev_set = ground arith;
  next_same = λ a ot. ground arith;
  prev_same = λ a oq. ground arith;
}

pub unlink-state : (p a : ℕ) (s : Sched) → (((unlink p s).procs a).state) ≡ (s.procs a).state
unfolding unlink set_next set_prev
unlink-state p a s = ground arith

-- The links behind the removal of `p` from a ring that starts with it.
unlink-Ring :
    (p q : ℕ) (r : List ℕ) (s : Sched)
    → Ring (Next s.procs) (p ∷ q ∷ r)
    → Ring (Prev s.procs) (p ∷ q ∷ r)
    → Distinct (q ∷ r)
    → s.size ≢ 1
    → (p ≡ s.head → s.tail ≡ last q r)
    → (p ≢ s.head → p ≡ s.tail → s.head ≡ q)
    → Ring (Next ((unlink p s).procs)) (q ∷ r) × Ring (Prev ((unlink p s).procs)) (q ∷ r)
unlink-Ring p q r s nexts prevs distinct more at_head at_tail =
    let before = Chain-last (Prev s.procs) p (q ∷ r) p prevs in
    Ring-cut p q r s.procs ((unlink p s).procs) distinct
      (unlink-Joins p (last q r) q s (nexts.0) before more at_head at_tail) nexts prevs

-- What is left to show once the links of a ring without `p` are known.
removed :
    (xs : List ℕ) (p : ℕ) (ys : List ℕ) (s : Sched)
    → IsRing s (xs ++ (p ∷ ys))
    → Ends ((unlink p s).head) ((unlink p s).tail) (xs ++ ys)
    → Ring (Next ((unlink p s).procs)) (xs ++ ys)
    → Ring (Prev ((unlink p s).procs)) (xs ++ ys)
    → ((transfert_to_wait p s).0 ≡ pos 0) × IsRing ((transfert_to_wait p s).1) (xs ++ ys)
unfolding transfert_to_wait
removed xs p ys s ring ends nexts prevs =
    let p_state : in_ring ((s.procs p).state) ≡ true = (All-back _ xs (p ∷ ys) ring.states).0 in
    let ring' : IsRing (record (unlink p s) { size = (s.size + 4294967295) % 4294967296 })
        (xs ++ ys) =
      record {
        size_is =
            omega (arith, ring.size_is, ring.fits, length-append xs ys, length-append xs (p ∷ ys));
        fits = omega (arith, ring.fits, length-append xs ys, length-append xs (p ∷ ys));
        ends = ends;
        real =
            All-append _ xs ys (All-front _ xs (p ∷ ys) ring.real)
              ((All-back _ xs (p ∷ ys) ring.real).1);
        distinct = (Distinct-drop xs p ys ring.distinct).0;
        nexts = nexts;
        prevs = prevs;
        states =
            All-imp _ _ (xs ++ ys) (λ a e. rw (unlink-state p a s) e)
              (All-append _ xs ys (All-front _ xs (p ∷ ys) ring.states)
                ((All-back _ xs (p ∷ ys) ring.states).1));
      } in
    rw p_state (refl, ring')

-- Where head and tail are behind the removal of the only, the first, the last and another process.
pub unlink-only :
    (p : ℕ) (s : Sched) → s.size ≡ 1 → ((unlink p s).head ≡ 0) × ((unlink p s).tail ≡ 0)
unfolding unlink
unlink-only p s e = (ground arith, ground arith)

unlink-first :
    (p : ℕ) (s : Sched)
    → s.size ≢ 1
    → p ≡ s.head
    → ((unlink p s).head ≡ (s.procs p).next) × ((unlink p s).tail ≡ s.tail)
unfolding unlink
unlink-first p s more e = (ground arith, ground arith)

unlink-last :
    (p : ℕ) (s : Sched)
    → s.size ≢ 1
    → p ≢ s.head
    → p ≡ s.tail
    → ((unlink p s).head ≡ s.head) × ((unlink p s).tail ≡ (s.procs p).prev)
unfolding unlink
unlink-last p s more other e = (ground arith, ground arith)

unlink-middle :
    (p : ℕ) (s : Sched)
    → s.size ≢ 1
    → p ≢ s.head
    → p ≢ s.tail
    → ((unlink p s).head ≡ s.head) × ((unlink p s).tail ≡ s.tail)
unfolding unlink
unlink-middle p s more other e = (ground arith, ground arith)

-- A process of the ready list is taken out of it, wherever it stands; the others stay in their order.
pub transfert_to_wait-IsRing :
    (xs : List ℕ) (p : ℕ) (ys : List ℕ) (s : Sched)
    → IsRing s (xs ++ (p ∷ ys))
    → ((transfert_to_wait p s).0 ≡ pos 0) × IsRing ((transfert_to_wait p s).1) (xs ++ ys)
transfert_to_wait-IsRing [] p [] s ring =
    removed [] p [] s ring (unlink-only p s ring.size_is) tt tt
transfert_to_wait-IsRing [] p (y ∷ ys) s ring =
    let more : s.size ≢ 1 = omega arith in
    let (nexts, prevs) =
      unlink-Ring p y ys s ring.nexts ring.prevs (ring.distinct.1) more (λ e. ring.ends.1)
        (λ e. absurd (e (sym (ring.ends.0)))) in
    let (head, tail) = unlink-first p s more (sym (ring.ends.0)) in
    removed [] p (y ∷ ys) s ring (head ∙ ring.nexts.0, tail ∙ ring.ends.1) nexts prevs
transfert_to_wait-IsRing (x ∷ xs) p [] s ring =
    let more : s.size ≢ 1 = omega (arith, ring.size_is, length-append xs (p ∷ [])) in
    let not_head : p ≢ s.head =
      λ e. (Distinct-drop (x ∷ xs) p [] ring.distinct).1.0 (sym (e ∙ ring.ends.0)) in
    let at_tail : p ≡ s.tail = sym (ring.ends.1 ∙ last-append x xs p []) in
    let turned = Ring-rotate (Prev s.procs) (x ∷ xs) (p ∷ []) ring.prevs in
    let (nexts, prevs) =
      unlink-Ring p x xs s (Ring-rotate (Next s.procs) (x ∷ xs) (p ∷ []) ring.nexts) turned
        (subst Distinct (append_nil (x ∷ xs)) ((Distinct-drop (x ∷ xs) p [] ring.distinct).0)) more
        (λ e. absurd (not_head e)) (λ e e'. ring.ends.0) in
    let (head, tail) = unlink-last p s more not_head at_tail in
    let before : (s.procs p).prev ≡ last x (xs ++ []) =
      Chain-last (Prev s.procs) p (x ∷ xs) p turned ∙ ap (last x) (sym (append_nil xs)) in
    removed (x ∷ xs) p [] s ring (head ∙ ring.ends.0, tail ∙ before)
      (Ring-rotate (Next ((unlink p s).procs)) [] (x ∷ xs) nexts)
      (Ring-rotate (Prev ((unlink p s).procs)) [] (x ∷ xs) prevs)
transfert_to_wait-IsRing (x ∷ xs) p (y ∷ ys) s ring =
    let more : s.size ≢ 1 = omega (arith, ring.size_is, length-append xs (p ∷ y ∷ ys)) in
    let not_head : p ≢ s.head =
      λ e. (Distinct-drop (x ∷ xs) p (y ∷ ys) ring.distinct).1.0 (sym (e ∙ ring.ends.0)) in
    let not_tail : p ≢ s.tail = λ e.
      NotIn-last y ys p
        (All-back _ (x ∷ xs) (y ∷ ys) ((Distinct-drop (x ∷ xs) p (y ∷ ys) ring.distinct).1))
        (sym (e ∙ (ring.ends.1 ∙ last-append x xs p (y ∷ ys)))) in
    let (nexts, prevs) =
      unlink-Ring p y (ys ++ (x ∷ xs)) s
        (Ring-rotate (Next s.procs) (x ∷ xs) (p ∷ y ∷ ys) ring.nexts)
        (Ring-rotate (Prev s.procs) (x ∷ xs) (p ∷ y ∷ ys) ring.prevs)
        (Distinct-rotate (x ∷ xs) (y ∷ ys) ((Distinct-drop (x ∷ xs) p (y ∷ ys) ring.distinct).0))
        more (λ e. absurd (not_head e)) (λ e e'. absurd (not_tail e')) in
    let (head, tail) = unlink-middle p s more not_head not_tail in
    let end : last x (xs ++ (p ∷ y ∷ ys)) ≡ last x (xs ++ (y ∷ ys)) =
      last-append x xs p (y ∷ ys) ∙ sym (last-append x xs y ys) in
    removed (x ∷ xs) p (y ∷ ys) s ring (head ∙ ring.ends.0, tail ∙ (ring.ends.1 ∙ end))
      (Ring-rotate (Next ((unlink p s).procs)) (y ∷ ys) (x ∷ xs) nexts)
      (Ring-rotate (Prev ((unlink p s).procs)) (y ∷ ys) (x ∷ xs) prevs)
