-- ===== src/Kmutex.antt =====
-- src/klib/threading/kmutex.c with the park calls of src/kernel/syscall/process_management/sys_park.c,
-- run by any number of threads in any order. A thread is a process, named by its pid; each step is one
-- access to shared memory or one system call.
--
-- `xchg` (include/balrog/arch/x86_64/x86.h) exchanges 64 bits at `&lock->lock`, and kmutex_t is an
-- `int lock` at offset 0 and a `uint8_t flag` at offset 4. So the model keeps those 8 bytes as one
-- word: the lock is its low half, and the flag its byte 4.
pub mod Invariant
pub mod Safety
mod Tests
use balrog_os.Prelude.{
  ℕ, ◌+◌, ◌*◌, ◌/◌, ◌%◌, ◌^◌, Bool, true, false, List, [], ◌∷◌, ◌++◌, ◌==◌, if◌then◌else◌,
}

-- The bytes of a `kmutex_t` that the code uses; `count` stays 0. The wait queue is a mtx_queue_t of
-- pids, first to wake at the head.
pub record Mutex : Type 0 where
  pub word : ℕ
  pub wait_queue : List ℕ

unfoldable pub kmutex_init : Mutex
kmutex_init = record { word = 0; wait_queue = [] }

-- `lock->flag`
abbrev pub flag : ℕ → ℕ
flag word = word / 2 ^ 32 % 256

-- `lock->flag = v`
abbrev pub set_flag : ℕ → ℕ → ℕ
set_flag word v = word % 2 ^ 32 + 2 ^ 32 * v + 2 ^ 40 * (word / 2 ^ 40)

-- Where a thread is: outside; in kmutex_lock, at `while(xchg(&lock->lock, 1))`, at the test of the
-- flag, at `flag = 1` and at the closing xchg, or on the waiting branch at each of its calls;
-- between lock and unlock; in kmutex_unlock, at its while, behind it, and at its closing xchg.
pub data Pc : Type 0 where
  idle spinning testing taking leaving : Pc
  queueing setting_park leaving_waiter parking asleep : Pc
  critical : Pc
  unlock_spinning unlocking unlock_leaving : Pc

-- What the threads share: the mutex, `about_to_park` of sys_park.c, and which processes sleep.
pub record Shared : Type 0 where
  pub mutex : Mutex
  pub about_to_park : ℕ
  pub sleeping : ℕ → Bool

abbrev pub with_word : Shared → ℕ → Shared
with_word s w = record s { mutex = record (s.mutex) { word = w } }

abbrev pub update {ℓ} : {A : Type ℓ} → (ℕ → A) → ℕ → A → ℕ → A
update f i a j = if j == i then a else f j

-- sys_setpark
unfoldable pub sys_setpark : ℕ → Shared → Shared
sys_setpark pid s = record s { about_to_park = pid }

-- sys_park with rdi = 0: the caller sleeps if it was the last to call sys_setpark.
unfoldable pub sys_park : ℕ → Shared → Shared
sys_park pid s =
    if s.about_to_park == pid then record s { sleeping = update s.sleeping pid true } else s

-- sys_park with rdi = the process to wake
unfoldable pub sys_unpark : ℕ → Shared → Shared
sys_unpark pid s = record s { about_to_park = 0; sleeping = update s.sleeping pid false }

-- `while(xchg(&lock->lock, 1))`: one exchange, and on to `next` if the old value was 0.
abbrev pub spin : Shared → (stay next : Pc) → Shared × Pc
spin s stay next = (with_word s 1, if s.mutex.word == 0 then next else stay)

-- The then- and else-branch of kmutex_unlock, by its wait queue.
unfoldable pub wake : List ℕ → Shared → Shared
unfolding sys_unpark
wake [] s = with_word s (set_flag s.mutex.word 0)
wake (pid ∷ rest) s = sys_unpark pid (record s { mutex = record (s.mutex) { wait_queue = rest } })

-- One step of thread `pid`.
unfoldable pub step : (pid : ℕ) → Shared → Pc → Shared × Pc
unfolding sys_setpark sys_park wake
step pid s idle = (s, spinning)
step pid s spinning = spin s spinning testing
step pid s testing = (s, if flag s.mutex.word == 0 then taking else queueing)
step pid s taking = (with_word s (set_flag s.mutex.word 1), leaving)
step pid s leaving = (with_word s 0, critical)
step pid s queueing = (
  record s { mutex = record (s.mutex) { wait_queue = s.mutex.wait_queue ++ (pid ∷ []) } },
  setting_park,
)
step pid s setting_park = (sys_setpark pid s, leaving_waiter)
step pid s leaving_waiter = (with_word s 0, parking)
step pid s parking = (sys_park pid s, asleep)
step pid s asleep = (s, if s.sleeping pid then asleep else critical)
step pid s critical = (s, unlock_spinning)
step pid s unlock_spinning = spin s unlock_spinning unlocking
step pid s unlocking = (wake s.mutex.wait_queue s, unlock_leaving)
step pid s unlock_leaving = (with_word s 0, idle)

pub record System : Type 0 where
  pub shared : Shared
  pub pc : ℕ → Pc

-- All threads outside a fresh mutex.
unfoldable pub start : System
unfolding kmutex_init
start = record {
  shared = record { mutex = kmutex_init; about_to_park = 0; sleeping = λ _. false };
  pc = λ _. idle;
}

unfoldable pub move : ℕ → System → System
unfolding step
move pid s =
    let (shared', p) = step pid s.shared (s.pc pid) in
    record { shared = shared'; pc = update s.pc pid p }

-- The threads of the list take a step each, in its order.
unfoldable pub run : List ℕ → System → System
run [] s = s
run (pid ∷ schedule) s = run schedule (move pid s)
