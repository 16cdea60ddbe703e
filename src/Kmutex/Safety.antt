-- ===== src/Kmutex/Safety.antt =====
-- What a kmutex guarantees, and what it does not.
use balrog_os.Prelude.{
  ℕ, ◌≡◌, refl, ◌≢◌, true, false, List, [], ◌∷◌, arith, ==_refl, ◌==◌, if◌then◌else◌,
}
use balrog_os.Kmutex.{idle, critical, step, System, start, move, run}
use balrog_os.Kmutex.Invariant.{guarded, waiting, run-start-Inv}

-- Under every schedule at most one thread is between the spin loop and the closing xchg of
-- kmutex_lock or kmutex_unlock.
pub guard_exclusive :
    (schedule : List ℕ) (i j : ℕ)
    → guarded ((run schedule start).pc i) ≡ true
    → guarded ((run schedule start).pc j) ≡ true
    → i ≡ j
guard_exclusive schedule i j gi gj = (run-start-Inv schedule).unique i j gi gj

-- Under every schedule no thread is ever on the waiting branch of kmutex_lock, and the wait queue
-- stays empty: kmutex_lock never parks its caller.
pub kmutex_never_waits :
    (schedule : List ℕ) (i : ℕ)
    → (waiting ((run schedule start).pc i) ≡ false)
      × ((run schedule start).shared.mutex.wait_queue ≡ [])
kmutex_never_waits schedule i =
    ((run-start-Inv schedule).no_waiter i, (run-start-Inv schedule).empty)

-- The schedule in which `i` alone takes the five steps of kmutex_lock.
abbrev pub lock_alone : ℕ → List ℕ
lock_alone i = i ∷ i ∷ i ∷ i ∷ i ∷ []

-- A thread that calls kmutex_lock while the guard is free holds the mutex after its five steps,
-- whoever holds it already, and leaves the guard free.
pub lock_always_enters :
    (s : System) (i : ℕ)
    → s.pc i ≡ idle
    → s.shared.mutex.word ≡ 0
    → ((run (lock_alone i) s).shared.mutex.word ≡ 0)
      × ((j : ℕ) → (run (lock_alone i) s).pc j ≡ (if j == i then critical else s.pc j))
unfolding run move step
lock_always_enters s i e free = (ground (arith, ==_refl i), λ j. ground (arith, ==_refl i))

-- Two different threads that call kmutex_lock on a fresh mutex, one after the other and without an
-- unlock, both hold it.
pub kmutex_not_exclusive :
    (i j : ℕ)
    → i ≢ j
    → ((run (lock_alone j) (run (lock_alone i) start)).pc i ≡ critical)
      × ((run (lock_alone j) (run (lock_alone i) start)).pc j ≡ critical)
kmutex_not_exclusive i j ne =
    let (free, first) = lock_always_enters start i (unfold start in refl) (unfold start in refl) in
    let out : (run (lock_alone i) start).pc j ≡ idle =
      rw (first j) (unfold start in ground arith) in
    let (_, second) = lock_always_enters (run (lock_alone i) start) j out free in
    (rw (second i, first i) (ground (arith, ==_refl i)), rw (second j) (ground (arith, ==_refl j)))
