-- ===== src/Process/Sleep.antt =====
-- A process goes to sleep.
use balrog_os.Prelude.{
  All-back, ℕ, ◌+◌, ◌%◌, ◌≡◌, refl, ◌≢◌, sym, ◌∙◌, ◌⊎◌, inl, inr, true, false, Bool-cases, List, [],
  ◌∷◌, ◌++◌, arith, ◌==◌,
}
use balrog_os.Process.{
  Sched, state_waiting, state_sleeping, in_ring, bits, set_state, unlink, transfert_to_wait,
  proc_get_process, switch_to, gothmog_schedule, leave, mark_asleep, proc_to_sleep,
}
use balrog_os.Process.Chain.{Distinct-drop}
use balrog_os.Process.Ring.{IsRing}
use balrog_os.Process.Moves.{unlink-state, transfert_to_wait-IsRing}
use balrog_os.Process.Robin.{schedule-IsRing, schedule-links}
use balrog_os.Process.Apart.{
  sleep_bits, set_state-links, set_state_self, set_state-IsRing, unlinked,
}

-- The end of proc_to_sleep keeps the list, and takes the processor from the process.
leave-IsRing : (p : ℕ) (s : Sched) (ps : List ℕ) → IsRing s ps → IsRing (leave p s) ps
unfolding leave
leave-IsRing p s ps ring = elim (Bool-cases (p == s.current)) [
  | inl runs ↦ elim (Bool-cases (p == (s.procs s.current).next)) [
    | inl alone ↦
        let none_runs : IsRing (record s { current = 0 }) ps = record {
          size_is = ring.size_is;
          fits = ring.fits;
          ends = ring.ends;
          real = ring.real;
          distinct = ring.distinct;
          nexts = ring.nexts;
          prevs = ring.prevs;
          states = ring.states;
        } in
        rw (runs, alone) (schedule-IsRing (record s { current = 0 }) ps none_runs)
    | inr more ↦ rw (runs, more) (schedule-IsRing s ps ring)
  ]
  | inr rests ↦ rw rests ring
]

schedule-state : (s : Sched) (p : ℕ) → ((gothmog_schedule s).procs p).state ≡ (s.procs p).state
schedule-state s p = (schedule-links s p).2

leave-state : (p : ℕ) (s : Sched) → ((leave p s).procs p).state ≡ (s.procs p).state
unfolding leave
leave-state p s = elim (Bool-cases (p == s.current)) [
  | inl runs ↦ elim (Bool-cases (p == (s.procs s.current).next)) [
    | inl alone ↦ rw (runs, alone) (schedule-state (record s { current = 0 }) p)
    | inr more ↦ rw (runs, more) (schedule-state s p)
  ]
  | inr rests ↦ rw rests refl
]

leave-current :
    (p : ℕ) (s : Sched)
    → p ≢ 0
    → ((s.head ≡ 0) × ((s.procs p).next ≡ p)) ⊎ ((s.head ≢ 0) × ((s.procs p).next ≢ p))
    → (leave p s).current ≢ p
unfolding leave gothmog_schedule switch_to
leave-current p s real (inl (none_left, alone)) = λ e. ground arith
leave-current p s real (inr (some_left, more)) = λ e. ground arith

pub transfert_to_wait-out :
    (p : ℕ) (s : Sched)
    → in_ring ((s.procs p).state) ≡ true
    → (transfert_to_wait p s).1 ≡ record (unlink p s) { size = (s.size + 4294967295) % 4294967296 }
unfolding transfert_to_wait
transfert_to_wait-out p s runs = rw runs refl

mark_asleep-set_state :
    (p bits : ℕ) (s : Sched)
    → in_ring ((s.procs p).state) ≡ true
    → (bits ≡ state_waiting) ⊎ (bits ≡ state_sleeping)
    → mark_asleep p bits s ≡ record s { procs = set_state p bits s.procs }
unfolding mark_asleep
mark_asleep-set_state p bits s runs e = rw (sleep_bits ((s.procs p).state) bits runs e) refl

-- What proc_to_sleep does with a process of the ready list.
pub proc_to_sleep-leave :
    (p pid bits : ℕ) (s : Sched)
    → p ≢ 0
    → s.tree pid ≡ p
    → in_ring ((s.procs p).state) ≡ true
    → proc_to_sleep pid bits s ≡ leave p (mark_asleep p bits ((transfert_to_wait p s).1))
unfolding proc_to_sleep proc_get_process
proc_to_sleep-leave p pid bits s real known runs =
    let not_null : (p == 0) ≡ false = ground arith in rw (known, not_null, runs) refl

head-none : (s : Sched) (ps : List ℕ) → IsRing s ps → ps ≡ [] → s.head ≡ 0
head-none s [] ring e = ring.ends.0
head-none s (h ∷ r) ring e = absurd (ground arith)

head-some : (s : Sched) (ps : List ℕ) → IsRing s ps → ps ≢ [] → s.head ≢ 0
head-some s [] ring some_ready = absurd (some_ready refl)
head-some s (h ∷ r) ring some_ready = λ e. ring.real.0 (sym (ring.ends.0) ∙ e)

-- A ready process that is put to sleep leaves the ready list, the others stay in their order, it has
-- the state asked for, and it is not the running process any more.
pub proc_to_sleep-IsRing :
    (xs : List ℕ) (p : ℕ) (ys : List ℕ) (pid bits : ℕ) (s : Sched)
    → IsRing s (xs ++ (p ∷ ys))
    → s.tree pid ≡ p
    → (bits ≡ state_waiting) ⊎ (bits ≡ state_sleeping)
    → IsRing (proc_to_sleep pid bits s) (xs ++ ys)
      × (((proc_to_sleep pid bits s).procs p).state ≡ bits)
      × ((proc_to_sleep pid bits s).current ≢ p)
proc_to_sleep-IsRing xs p ys pid bits s ring known e =
    let real : p ≢ 0 = (All-back _ xs (p ∷ ys) ring.real).0 in
    let runs : in_ring ((s.procs p).state) ≡ true = (All-back _ xs (p ∷ ys) ring.states).0 in
    let (done, ring') = transfert_to_wait-IsRing xs p ys s ring in
    let out = (transfert_to_wait p s).1 in
    let shape = transfert_to_wait-out p s runs in
    let still : in_ring ((out.procs p).state) ≡ true = rw (shape, unlink-state p p s) runs in
    let apart = (Distinct-drop xs p ys ring.distinct).1 in
    let asleep = set_state-IsRing p bits out (xs ++ ys) ring' apart in
    let s' : Sched = record out { procs = set_state p bits out.procs } in
    let next : (s'.procs p).next ≡ ((unlink p s).procs p).next =
      (set_state-links p bits p out.procs).0 ∙ rw shape refl in
    let alone : ((s'.head ≡ 0) × ((s'.procs p).next ≡ p))
        ⊎ ((s'.head ≢ 0) × ((s'.procs p).next ≢ p)) =
      elim (unlinked xs p ys s ring) [
        | inl (none_left, own) ↦ inl (head-none s' (xs ++ ys) asleep none_left, next ∙ own)
        | inr (some_left, other) ↦
            inr (head-some s' (xs ++ ys) asleep some_left, λ same. other (sym next ∙ same))
      ] in
    rw (proc_to_sleep-leave p pid bits s real known runs, mark_asleep-set_state p bits out still e)
      (
        leave-IsRing p s' (xs ++ ys) asleep,
        leave-state p s' ∙ set_state_self p bits out.procs,
        leave-current p s' real alone,
      )
