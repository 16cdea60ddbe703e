-- ===== src/Kmutex/Tests.antt =====
-- Runs of two threads on a fresh mutex.
use balrog_os.Prelude.{ℕ, ◌≡◌, refl, [], ◌∷◌, arith}
use balrog_os.Kmutex.{critical, testing, start, run, move, step}
use balrog_os.Kmutex.Safety.{guard_exclusive, lock_alone, kmutex_not_exclusive}

testing_now : (run (1 ∷ 1 ∷ 2 ∷ 2 ∷ []) start).pc 1 ≡ testing
unfolding run move step start
testing_now = refl

guard_exclusive_example : ◌≡◌ {A = ℕ} 1 1
guard_exclusive_example =
    guard_exclusive (1 ∷ 1 ∷ 2 ∷ 2 ∷ []) 1 1 (rw testing_now refl) (rw testing_now refl)

kmutex_not_exclusive_example :
    ((run (lock_alone 2) (run (lock_alone 1) start)).pc 1 ≡ critical)
    × ((run (lock_alone 2) (run (lock_alone 1) start)).pc 2 ≡ critical)
kmutex_not_exclusive_example = kmutex_not_exclusive 1 2 (omega arith)
