-- ===== src/Process/Wake.antt =====
-- A process is woken.
use mathlib.Core.Path.{subst}
use balrog_os.Prelude.{
  All-back, ℕ, ◌+◌, ◌<◌, ◌≡◌, refl, ◌≢◌, ap, sym, ◌∙◌, ◌⊎◌, inl, inr, true, false, List, [], ◌∷◌,
  ◌++◌, arith, length, length-append, ◌==◌, ==_refl,
}
use balrog_os.Process.{
  Sched, state_ready, state_running, state_waiting, state_dead, state_sleeping, in_ring, and, or,
  xor, set_state, proc_insert_to_ready_queue, unlink, transfert_to_wait, proc_get_process,
  switch_to, gothmog_schedule, leave, mark_asleep, mark_waiting, proc_to_sleep, clear_state,
  proc_transfert_to_waiting, proc_transfert_to_ready,
}
use balrog_os.Process.Chain.{NotIn, Distinct-drop}
use balrog_os.Process.Ring.{IsRing}
use balrog_os.Process.Enter.{insert-state, proc_insert_to_ready_queue-IsRing}
use balrog_os.Process.Moves.{unlink-state, transfert_to_wait-IsRing}
use balrog_os.Process.Apart.{set_state-IsRing, set_state_self}
use balrog_os.Process.Sleep.{proc_to_sleep-leave, proc_to_sleep-IsRing, transfert_to_wait-out}

-- A ready process has no flag.
and-ready : (bits : ℕ) → (bits ≡ state_waiting) ⊎ (bits ≡ state_sleeping) → and state_ready bits ≡ 0
unfolding and
and-ready bits (inl e) = subst (λ b. and state_ready b ≡ 0) (sym e) refl
and-ready bits (inr e) = subst (λ b. and state_ready b ≡ 0) (sym e) refl

pub clear_state-ready :
    (p bits : ℕ) (s : Sched)
    → (s.procs p).state ≡ state_ready
    → (bits ≡ state_waiting) ⊎ (bits ≡ state_sleeping)
    → clear_state p bits s ≡ s
unfolding clear_state
clear_state-ready p bits s ready e = rw (ready, and-ready bits e) refl

-- A process that waits or sleeps, and is woken from that state, is ready and behind all others.
pub proc_transfert_to_ready-IsRing :
    (p pid bits : ℕ) (s : Sched) (ps : List ℕ)
    → IsRing s ps
    → p ≢ 0
    → NotIn p ps
    → length ps + 1 < 4294967296
    → s.tree pid ≡ p
    → (s.procs p).state ≡ bits
    → (bits ≡ state_waiting) ⊎ (bits ≡ state_sleeping)
    → IsRing (proc_transfert_to_ready pid bits s) (ps ++ (p ∷ []))
      × (((proc_transfert_to_ready pid bits s).procs p).state ≡ state_ready)
unfolding proc_transfert_to_ready proc_get_process
proc_transfert_to_ready-IsRing p pid bits s ps ring real apart room known waits e =
    let not_null : (p == 0) ≡ false = ground arith in
    let state = insert-state p s in
    let (ring', leads, ready) = proc_insert_to_ready_queue-IsRing p s ps ring real apart room in
    let clear = clear_state-ready p bits (proc_insert_to_ready_queue p s) state e in
    rw (known, waits, not_null, ==_refl bits, clear) (ring', ready)

unlink-tree : (p : ℕ) (s : Sched) → (unlink p s).tree ≡ s.tree
unfolding unlink
unlink-tree p s = ground arith

leave-tree : (p : ℕ) (s : Sched) → (leave p s).tree ≡ s.tree
unfolding leave gothmog_schedule switch_to
leave-tree p s = ground arith

mark_asleep-tree : (p bits : ℕ) (s : Sched) → (mark_asleep p bits s).tree ≡ s.tree
unfolding mark_asleep
mark_asleep-tree p bits s = refl

-- A process of the ready list that is put to sleep, and then woken from the state that it was put
-- into, is behind all others, which stay in their order, and ready.
pub sleep-wake-IsRing :
    (xs : List ℕ) (p : ℕ) (ys : List ℕ) (pid bits : ℕ) (s : Sched)
    → IsRing s (xs ++ (p ∷ ys))
    → s.tree pid ≡ p
    → (bits ≡ state_waiting) ⊎ (bits ≡ state_sleeping)
    → IsRing (proc_transfert_to_ready pid bits (proc_to_sleep pid bits s)) ((xs ++ ys) ++ (p ∷ []))
      × (((proc_transfert_to_ready pid bits (proc_to_sleep pid bits s)).procs p).state
          ≡ state_ready)
sleep-wake-IsRing xs p ys pid bits s ring known e =
    let real : p ≢ 0 = (All-back _ xs (p ∷ ys) ring.real).0 in
    let runs : in_ring ((s.procs p).state) ≡ true = (All-back _ xs (p ∷ ys) ring.states).0 in
    let (asleep, state, off) = proc_to_sleep-IsRing xs p ys pid bits s ring known e in
    let tree : (proc_to_sleep pid bits s).tree ≡ s.tree =
      rw (proc_to_sleep-leave p pid bits s real known runs) (
        leave-tree p (mark_asleep p bits ((transfert_to_wait p s).1))
        ∙ (mark_asleep-tree p bits ((transfert_to_wait p s).1)
            ∙ rw (transfert_to_wait-out p s runs) (unlink-tree p s))) in
    let room : length (xs ++ ys) + 1 < 4294967296 =
      omega (arith, ring.fits, length-append xs ys, length-append xs (p ∷ ys)) in
    proc_transfert_to_ready-IsRing p pid bits (proc_to_sleep pid bits s) (xs ++ ys) asleep real
      ((Distinct-drop xs p ys ring.distinct).1) room (ap (λ t. t pid) tree ∙ known) state e

waiting_bits : or (xor state_ready (or state_ready state_running)) state_waiting ≡ state_dead
unfolding or xor
waiting_bits = refl

mark_waiting-dead :
    (p : ℕ) (s : Sched)
    → (s.procs p).state ≡ state_ready
    → mark_waiting p s ≡ record s { procs = set_state p state_dead s.procs }
unfolding mark_waiting
mark_waiting-dead p s ready = rw (ready, waiting_bits) refl

proc_transfert_to_waiting-mark :
    (p pid : ℕ) (s : Sched)
    → p ≢ 0
    → s.tree pid ≡ p
    → (s.procs p).state ≡ state_ready
    → proc_transfert_to_waiting pid s ≡ mark_waiting p ((transfert_to_wait p s).1)
unfolding proc_transfert_to_waiting proc_get_process
proc_transfert_to_waiting-mark p pid s real known ready =
    let not_null : (p == 0) ≡ false = ground arith in rw (known, not_null, ready) refl

clear_state-dead :
    (p : ℕ) (s : Sched)
    → (s.procs p).state ≡ state_dead
    → clear_state p state_waiting s ≡ record s { procs = set_state p state_running s.procs }
unfolding clear_state
clear_state-dead p s dead = rw dead refl

-- proc_transfert_to_ready of a process in another state than the one that it expects.
not_woken :
    (p pid : ℕ) (s : Sched)
    → p ≢ 0
    → s.tree pid ≡ p
    → (s.procs p).state ≡ state_dead
    → proc_transfert_to_ready pid state_waiting s
      ≡ record s { procs = set_state p state_running s.procs }
unfolding proc_transfert_to_ready proc_get_process
not_woken p pid s real known dead =
    let not_null : (p == 0) ≡ false = ground arith in
    rw (known, dead, not_null) (clear_state-dead p s dead)

-- A ready process that proc_transfert_to_waiting takes out of the ready list is left in the state of
-- a dead one; proc_transfert_to_ready, called to wake it from waiting, then does not put it back into
-- the list, but makes its state that of a running process.
pub proc_transfert_to_waiting-lost :
    (xs : List ℕ) (p : ℕ) (ys : List ℕ) (pid : ℕ) (s : Sched)
    → IsRing s (xs ++ (p ∷ ys))
    → s.tree pid ≡ p
    → (s.procs p).state ≡ state_ready
    → (((proc_transfert_to_waiting pid s).procs p).state ≡ state_dead)
      × IsRing
          (proc_transfert_to_ready pid state_waiting (proc_transfert_to_waiting pid s))
          (xs ++ ys)
      × (((proc_transfert_to_ready pid state_waiting (proc_transfert_to_waiting pid s)).procs
            p).state
          ≡ state_running)
proc_transfert_to_waiting-lost xs p ys pid s ring known ready =
    let real : p ≢ 0 = (All-back _ xs (p ∷ ys) ring.real).0 in
    let runs : in_ring ((s.procs p).state) ≡ true = (All-back _ xs (p ∷ ys) ring.states).0 in
    let (done, ring') = transfert_to_wait-IsRing xs p ys s ring in
    let out = (transfert_to_wait p s).1 in
    let shape = transfert_to_wait-out p s runs in
    let still : (out.procs p).state ≡ state_ready = rw (shape, unlink-state p p s) ready in
    let apart = (Distinct-drop xs p ys ring.distinct).1 in
    let s' : Sched = record out { procs = set_state p state_dead out.procs } in
    let dead : (s'.procs p).state ≡ state_dead = set_state_self p state_dead out.procs in
    let tree : s'.tree pid ≡ p =
      ap (λ (x : Sched). x.tree pid) shape ∙ (ap (λ t. t pid) (unlink-tree p s) ∙ known) in
    let ring_dead = set_state-IsRing p state_dead out (xs ++ ys) ring' apart in
    rw
      (
        proc_transfert_to_waiting-mark p pid s real known ready,
        mark_waiting-dead p out still,
        not_woken p pid s' real tree dead,
      )
      (
        dead,
        set_state-IsRing p state_running s' (xs ++ ys) ring_dead apart,
        set_state_self p state_running s'.procs,
      )
