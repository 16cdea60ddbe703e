-- ===== src/Kmutex/Invariant.antt =====
-- What every schedule keeps true of a kmutex.
use balrog_os.Prelude.{ℕ, ◌%◌, ◌^◌, ◌<◌, ◌≡◌, refl, Bool, true, false, List, [], ◌∷◌, arith}
use balrog_os.Kmutex.{
  Pc, idle, testing, taking, leaving, queueing, setting_park, leaving_waiter, parking, asleep,
  unlocking, unlock_leaving, Shared, step, System, start, move, run, update,
}

-- The thread is past the `while` of kmutex_lock or kmutex_unlock, and before its closing xchg.
abbrev pub guarded : Pc → Bool
guarded testing = true
guarded taking = true
guarded leaving = true
guarded queueing = true
guarded setting_park = true
guarded leaving_waiter = true
guarded unlocking = true
guarded unlock_leaving = true
guarded _ = false

-- The thread is on the branch of kmutex_lock that waits.
abbrev pub waiting : Pc → Bool
waiting queueing = true
waiting setting_park = true
waiting leaving_waiter = true
waiting parking = true
waiting asleep = true
waiting _ = false

abbrev pub IsTesting : Shared → Pc → Type 0
IsTesting s testing = s.mutex.word ≡ 1
IsTesting s _ = Unit

pub record Inv (s : Shared) (pc : ℕ → Pc) : Type 0 where
  pub unique : (i j : ℕ) → guarded (pc i) ≡ true → guarded (pc j) ≡ true → i ≡ j
  pub held : (i : ℕ) → guarded (pc i) ≡ true → 0 < s.mutex.word % 2 ^ 32
  pub tested : (i : ℕ) → IsTesting s (pc i)
  pub empty : s.mutex.wait_queue ≡ []
  pub no_waiter : (i : ℕ) → waiting (pc i) ≡ false

start-Inv : Inv (start.shared) (start.pc)
unfolding start
start-Inv = record {
  unique = λ i j. cc;
  held = λ i. cc;
  tested = λ i. tt;
  empty = refl;
  no_waiter = λ i. refl;
}

module _ {s : Shared} {pc : ℕ → Pc} (inv : Inv s pc) (pid : ℕ) where
  open inv use {unique, held, tested, empty, no_waiter}

  step_unique :
      (p : Pc)
      → pc pid ≡ p
      → (i j : ℕ) → guarded (update pc pid ((step pid s p).1) i) ≡ true
      → guarded (update pc pid ((step pid s p).1) j) ≡ true
      → i ≡ j
  unfolding step
  step_unique idle e i j gi gj = ground (arith, unique i j)
  step_unique p e i j gi gj = ground (arith, unique i j, held i, held j, tested pid, no_waiter pid)

  step-held :
      (p : Pc)
      → pc pid ≡ p
      → (i : ℕ) → guarded (update pc pid ((step pid s p).1) i) ≡ true
      → 0 < (step pid s p).0.mutex.word % 2 ^ 32
  unfolding step
  step-held idle e i g = ground (arith, held i)
  step-held p e i g = ground (arith, held i, unique i pid, tested pid, no_waiter pid, empty)

  step-tested :
      (p : Pc)
      → pc pid ≡ p
      → (i : ℕ) → IsTesting ((step pid s p).0) (update pc pid ((step pid s p).1) i)
  unfolding step
  step-tested idle e i = ground (arith, tested i)
  step-tested p e i = ground (arith, held i, unique i pid, tested i, no_waiter pid)

  step-empty : (p : Pc) → pc pid ≡ p → (step pid s p).0.mutex.wait_queue ≡ []
  unfolding step
  step-empty idle e = empty
  step-empty p e = ground (arith, empty, no_waiter pid)

  step-no_waiter :
      (p : Pc) → pc pid ≡ p → (i : ℕ) → waiting (update pc pid ((step pid s p).1) i) ≡ false
  unfolding step
  step-no_waiter idle e i = ground (arith, no_waiter i)
  step-no_waiter p e i = ground (arith, no_waiter i, no_waiter pid, tested pid)

  pub step-Inv : Inv ((step pid s (pc pid)).0) (update pc pid ((step pid s (pc pid)).1))
  step-Inv = record {
    unique = step_unique (pc pid) refl;
    held = step-held (pc pid) refl;
    tested = step-tested (pc pid) refl;
    empty = step-empty (pc pid) refl;
    no_waiter = step-no_waiter (pc pid) refl;
  }

run-Inv :
    (schedule : List ℕ) (s : System)
    → Inv s.shared s.pc
    → Inv ((run schedule s).shared) ((run schedule s).pc)
unfolding run move
run-Inv [] s inv = inv
run-Inv (pid ∷ schedule) s inv = run-Inv schedule (move pid s) (step-Inv inv pid)

-- Every schedule from a fresh mutex keeps the invariant.
pub run-start-Inv :
    (schedule : List ℕ) → Inv ((run schedule start).shared) ((run schedule start).pc)
run-start-Inv schedule = run-Inv schedule start start-Inv
