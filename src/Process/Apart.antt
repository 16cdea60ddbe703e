-- ===== src/Process/Apart.antt =====
-- What the move out of the ready list leaves of the process itself.
use mathlib.Core.Path.{subst}
use balrog_os.Prelude.{
  All-append, All-back, All-front, ℕ, ◌≡◌, refl, ◌≢◌, ap, sym, ◌∙◌, ◌⊎◌, inl, inr, true, List, [],
  ◌∷◌, ◌++◌, All, arith,
}
use balrog_os.Process.{
  Processes, Sched, state_ready, state_running, state_waiting, state_sleeping, in_ring, bits, and,
  or, complement, set_next, set_prev, set_state, unlink,
}
use balrog_os.Process.Chain.{Ring, Ring-rotate, Chain-last, NotIn, NotIn-last, Distinct-drop}
use balrog_os.Process.Ring.{Next, Prev, IsRing}
use balrog_os.Process.Robin.{Ring-imp}

in_ring-cases : (state : ℕ) → in_ring state ≡ true → (state ≡ 0) ⊎ (state ≡ 1)
in_ring-cases state h = ground arith

abbrev SleepBits : ℕ → ℕ → Type 0
SleepBits bits state =
    or (and state (and (complement state_ready) (complement state_running))) bits ≡ bits

abbrev SleepBitsOf : ℕ → ℕ → Type 0
SleepBitsOf state bits = SleepBits bits state

-- The state that proc_to_sleep leaves, for a process that is ready or running.
pub sleep_bits :
    (state bits : ℕ)
    → in_ring state ≡ true
    → (bits ≡ state_waiting) ⊎ (bits ≡ state_sleeping)
    → SleepBits bits state
unfolding and or complement
sleep_bits state bits h (inl waits) = elim (in_ring-cases state h) [
  | inl ready ↦ subst (SleepBits bits) (sym ready) (subst (SleepBitsOf 0) (sym waits) refl)
  | inr running ↦ subst (SleepBits bits) (sym running) (subst (SleepBitsOf 1) (sym waits) refl)
]
sleep_bits state bits h (inr sleeps) = elim (in_ring-cases state h) [
  | inl ready ↦ subst (SleepBits bits) (sym ready) (subst (SleepBitsOf 0) (sym sleeps) refl)
  | inr running ↦ subst (SleepBits bits) (sym running) (subst (SleepBitsOf 1) (sym sleeps) refl)
]

pub set_state-links :
    (p v a : ℕ) (procs : Processes)
    → ((set_state p v procs a).next ≡ (procs a).next)
      × ((set_state p v procs a).prev ≡ (procs a).prev)
unfolding set_state
set_state-links p v a procs = (ground arith, ground arith)

set_state-other :
    (p v a : ℕ) (procs : Processes) → a ≢ p → (set_state p v procs a).state ≡ (procs a).state
unfolding set_state
set_state-other p v a procs h = ground arith

pub set_state_self : (p v : ℕ) (procs : Processes) → (set_state p v procs p).state ≡ v
unfolding set_state
set_state_self p v procs = ground arith

-- The state of a process outside the ready list is free.
All-both :
    (P Q S : ℕ → Type 0) (xs : List ℕ)
    → ((x : ℕ) → P x → Q x → S x)
    → All P xs
    → All Q xs
    → All S xs
All-both P Q S [] f h k = tt
All-both P Q S (x ∷ xs) f h k = (f x (h.0) (k.0), All-both P Q S xs f (h.1) (k.1))

pub set_state-IsRing :
    (p v : ℕ) (s : Sched) (ps : List ℕ)
    → IsRing s ps
    → NotIn p ps
    → IsRing (record s { procs = set_state p v s.procs }) ps
set_state-IsRing p v s ps ring apart = record {
  size_is = ring.size_is;
  fits = ring.fits;
  ends = ring.ends;
  real = ring.real;
  distinct = ring.distinct;
  nexts = Ring-imp _ _ ps (λ x y e. (set_state-links p v x s.procs).0 ∙ e) ring.nexts;
  prevs = Ring-imp _ _ ps (λ x y e. (set_state-links p v y s.procs).1 ∙ e) ring.prevs;
  states = All-both _ _ _ ps (λ a e n. rw (set_state-other p v a s.procs n) e) ring.states apart;
}

-- The two neighbours of a process that is not alone in its ring.
neighbours :
    (p q : ℕ) (r : List ℕ) (procs : Processes)
    → Ring (Next procs) (p ∷ q ∷ r)
    → Ring (Prev procs) (p ∷ q ∷ r)
    → NotIn p (q ∷ r)
    → ((procs p).next ≢ p) × ((procs p).prev ≢ p)
neighbours p q r procs nexts prevs apart = (
  (λ e. apart.0 (sym (nexts.0) ∙ e)),
  λ e. NotIn-last q r p apart (sym (Chain-last (Prev procs) p (q ∷ r) p prevs) ∙ e),
)

head-prev : (s : Sched) (ps : List ℕ) → IsRing s ps → ps ≢ [] → (s.procs s.head).prev ≡ s.tail
head-prev s [] ring some_ready = absurd (some_ready refl)
head-prev s (h ∷ r) ring some_ready =
    ap (λ x. (s.procs x).prev) (ring.ends.0)
    ∙ (Chain-last (Prev s.procs) h r h ring.prevs ∙ sym (ring.ends.1))

unlink-next :
    (p : ℕ) (s : Sched)
    → (s.procs p).prev ≢ p
    → (p ≡ s.head → s.tail ≢ p)
    → ((unlink p s).procs p).next ≡ (s.procs p).next
unfolding unlink set_next set_prev
unlink-next p s before ends = ground arith

unlink-next_alone :
    (p : ℕ) (s : Sched) → s.size ≡ 1 → ((unlink p s).procs p).next ≡ (s.procs p).next
unfolding unlink
unlink-next_alone p s alone = ground arith

middle-some : (xs : List ℕ) (p : ℕ) (ys : List ℕ) → xs ++ (p ∷ ys) ≢ []
middle-some [] p ys e = ground arith
middle-some (x ∷ xs) p ys e = ground arith

next_apart :
    (xs : List ℕ) (p : ℕ) (ys : List ℕ) (s : Sched) (q : ℕ) (r : List ℕ)
    → IsRing s (xs ++ (p ∷ ys))
    → Ring (Next s.procs) (p ∷ q ∷ r)
    → Ring (Prev s.procs) (p ∷ q ∷ r)
    → NotIn p (q ∷ r)
    → ((unlink p s).procs p).next ≢ p
next_apart xs p ys s q r ring nexts prevs apart e =
    let (next, prev) = neighbours p q r s.procs nexts prevs apart in
    let some_ready : xs ++ (p ∷ ys) ≢ [] = middle-some xs p ys in
    let ends = λ (at_head : p ≡ s.head) (at_tail : s.tail ≡ p). prev (
      ap (λ x. (s.procs x).prev) at_head
      ∙ (head-prev s (xs ++ (p ∷ ys)) ring some_ready ∙ at_tail)) in
    next (sym (unlink-next p s prev ends) ∙ e)

-- Behind its removal the process names itself as the next one exactly if the list is empty.
pub unlinked :
    (xs : List ℕ) (p : ℕ) (ys : List ℕ) (s : Sched)
    → IsRing s (xs ++ (p ∷ ys))
    → ((xs ++ ys ≡ []) × (((unlink p s).procs p).next ≡ p))
      ⊎ ((xs ++ ys ≢ []) × (((unlink p s).procs p).next ≢ p))
unlinked [] p [] s ring = inl (refl, unlink-next_alone p s ring.size_is ∙ ring.nexts.0)
unlinked [] p (y ∷ ys) s ring = inr (
  (λ e. ground arith),
  next_apart [] p (y ∷ ys) s y ys ring ring.nexts ring.prevs (ring.distinct.0),
)
unlinked (x ∷ xs) p [] s ring =
    let apart = (Distinct-drop (x ∷ xs) p [] ring.distinct).1 in
    inr (
      (λ e. ground arith),
      next_apart (x ∷ xs) p [] s x xs ring (Ring-rotate (Next s.procs) (x ∷ xs) (p ∷ []) ring.nexts)
          (Ring-rotate (Prev s.procs) (x ∷ xs) (p ∷ []) ring.prevs) (All-front _ (x ∷ xs) [] apart),
    )
unlinked (x ∷ xs) p (y ∷ ys) s ring =
    let apart = (Distinct-drop (x ∷ xs) p (y ∷ ys) ring.distinct).1 in
    inr (
      (λ e. ground arith),
      next_apart (x ∷ xs) p (y ∷ ys) s y (ys ++ (x ∷ xs)) ring
          (Ring-rotate (Next s.procs) (x ∷ xs) (p ∷ y ∷ ys) ring.nexts)
          (Ring-rotate (Prev s.procs) (x ∷ xs) (p ∷ y ∷ ys) ring.prevs)
          (All-append _ (y ∷ ys) (x ∷ xs) (All-back _ (x ∷ xs) (y ∷ ys) apart)
            (All-front _ (x ∷ xs) (y ∷ ys) apart)),
    )
