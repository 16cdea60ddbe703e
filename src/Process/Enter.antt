-- ===== src/Process/Enter.antt =====
-- A process enters the ready list.
use balrog_os.Prelude.{
  All-append, All-imp, ℕ, ◌+◌, ◌<◌, ◌≡◌, refl, ◌≢◌, sym, true, List, [], ◌∷◌, ◌++◌, arith, length,
  length-append,
}
use balrog_os.Process.{
  Sched, set_next, set_prev, set_state, set_tree, state_ready, in_ring, insert_links,
  proc_insert_to_ready_queue,
}
use balrog_os.Process.Chain.{last, last-snoc, NotIn, NotIn-last, Distinct-snoc}
use balrog_os.Process.Ring.{IsRing, Inserts, Ring-insert}

-- The stores of proc_insert_to_ready_queue, behind a list that is not empty.
insert-Inserts :
    (n h t : ℕ) (s : Sched)
    → s.head ≡ h
    → h ≢ 0
    → s.tail ≡ t
    → n ≢ h
    → n ≢ t
    → Inserts h t n s.procs ((proc_insert_to_ready_queue n s).procs)
unfolding proc_insert_to_ready_queue insert_links set_next set_prev set_state
insert-Inserts n h t s eh real et new_h new_t = record {
  next_last = ground arith;
  next_new = ground arith;
  prev_new = ground arith;
  prev_first = ground arith;
  next_same = λ a ot on. ground arith;
  prev_same = λ a oh on. ground arith;
}

insert-states :
    (n a : ℕ) (s : Sched)
    → in_ring ((s.procs a).state) ≡ true
    → in_ring (((proc_insert_to_ready_queue n s).procs a).state) ≡ true
unfolding proc_insert_to_ready_queue insert_links set_next set_prev set_state
insert-states n a s h = ground arith

pub insert-state :
    (n : ℕ) (s : Sched) → ((proc_insert_to_ready_queue n s).procs n).state ≡ state_ready
unfolding proc_insert_to_ready_queue insert_links set_next set_prev set_state
insert-state n s = ground arith

insert-first :
    (n : ℕ) (s : Sched)
    → s.head ≡ 0
    → (((proc_insert_to_ready_queue n s).procs n).next ≡ n)
      × (((proc_insert_to_ready_queue n s).procs n).prev ≡ n)
unfolding proc_insert_to_ready_queue insert_links set_next set_prev set_state
insert-first n s e = (ground arith, ground arith)

-- A process that is not in the ready list is put behind all others, ready, and its pid leads to it.
pub proc_insert_to_ready_queue-IsRing :
    (n : ℕ) (s : Sched) (ps : List ℕ)
    → IsRing s ps
    → n ≢ 0
    → NotIn n ps
    → length ps + 1 < 4294967296
    → IsRing (proc_insert_to_ready_queue n s) (ps ++ (n ∷ []))
      × ((proc_insert_to_ready_queue n s).tree ((s.procs n).pid) ≡ n)
      × (((proc_insert_to_ready_queue n s).procs n).state ≡ state_ready)
unfolding proc_insert_to_ready_queue set_tree
proc_insert_to_ready_queue-IsRing n s [] ring real new room =
    let (next, prev) = insert-first n s (ring.ends.0) in
    let ring' : IsRing (proc_insert_to_ready_queue n s) (n ∷ []) = record {
      size_is = omega arith;
      fits = omega arith;
      ends = (ground arith, refl);
      real = (real, tt);
      distinct = (tt, tt);
      nexts = (next, tt);
      prevs = (prev, tt);
      states = (rw (insert-state n s) refl, tt);
    } in
    (ring', ground arith, insert-state n s)
proc_insert_to_ready_queue-IsRing n s (h ∷ r) ring real new room =
    let links =
      insert-Inserts n h (last h r) s (ring.ends.0) (ring.real.0) (ring.ends.1) (λ e. new.0 (sym e))
        (λ e. NotIn-last h r n new (sym e)) in
    let (nexts, prevs) =
      Ring-insert h r n s.procs ((proc_insert_to_ready_queue n s).procs) ring.distinct new links
        ring.nexts ring.prevs in
    let ring' : IsRing (proc_insert_to_ready_queue n s) ((h ∷ r) ++ (n ∷ [])) = record {
      size_is = omega (arith, length-append r (n ∷ []));
      fits = omega (arith, length-append r (n ∷ []));
      ends = (ground arith, sym (last-snoc h r n));
      real = All-append _ (h ∷ r) (n ∷ []) ring.real (real, tt);
      distinct = Distinct-snoc (h ∷ r) n ring.distinct new;
      nexts = nexts;
      prevs = prevs;
      states =
          All-append _ (h ∷ r) (n ∷ []) (All-imp _ _ (h ∷ r) (λ a. insert-states n a s) ring.states)
            (rw (insert-state n s) refl, tt);
    } in
    (ring', ground arith, insert-state n s)
