-- ===== src/Process.antt =====
-- src/kernel/tasking/process.c and gothmog_schedule of src/kernel/cpu/scheduler/scheduler.c: the
-- ready list, a ring of processes in two directions, and what moves a process out of it and back.
-- The processes are a function of their address, and 0 is NULL. process_tree is a map from pids to
-- addresses: rbt_insert of a key that is there gives its node. Messages are left out, also the fatal
-- one for a list with a tail and no head, which no ring is, and so are the saving of registers and
-- the kernel stacks that gothmog_schedule gives back. One call runs at a time.
pub mod Chain
pub mod Ring
pub mod Enter
pub mod Moves
pub mod Robin
pub mod Apart
pub mod Sleep
pub mod Wake
mod Tests
use balrog_os.Prelude.{
  ℕ, zero, suc, ◌+◌, ◌-◌, ◌*◌, ◌/◌, ◌%◌, Bool, true, false, ◌&&◌, ◌||◌, not, List, [], ◌∷◌, ltb,
  ◌==◌, if◌then◌else◌, set, ℤ, pos, minus_one,
}

-- The `PROCESS_STATE_` constants
abbrev pub state_ready : ℕ
state_ready = 0

abbrev pub state_running : ℕ
state_running = 1

abbrev pub state_waiting : ℕ
state_waiting = 2

abbrev pub state_dead : ℕ
state_dead = 3

abbrev pub state_zombie : ℕ
state_zombie = 4

abbrev pub state_sleeping : ℕ
state_sleeping = 5

-- What process.c reads and writes of a `process`; `waiting` has five slots.
pub record Process : Type 0 where
  pub pid : ℕ
  pub state : ℕ
  pub next : ℕ
  pub prev : ℕ
  pub exec : ℕ
  pub wait_size : ℕ
  pub waiting : List ℕ

abbrev pub Processes : Type 0
Processes = ℕ → Process

-- rdy_proc_list, the running process, process_tree, and the processes
pub record Sched : Type 0 where
  pub head : ℕ
  pub tail : ℕ
  pub size : ℕ
  pub current : ℕ
  pub tree : ℕ → ℕ
  pub procs : Processes

-- `&`, `|` and `^` of two bytes, a bit for each unit of fuel
unfoldable pub bits : (ℕ → ℕ → ℕ) → ℕ → ℕ → ℕ → ℕ
bits op zero a b = 0
bits op (suc n) a b = op (a % 2) (b % 2) + 2 * bits op n (a / 2) (b / 2)

unfoldable pub and : ℕ → ℕ → ℕ
unfolding bits
and a b = bits (λ x y. x * y) 8 a b

unfoldable pub or : ℕ → ℕ → ℕ
unfolding bits
or a b = bits (λ x y. if x + y == 0 then 0 else 1) 8 a b

unfoldable pub xor : ℕ → ℕ → ℕ
unfolding bits
xor a b = bits (λ x y. (x + y) % 2) 8 a b

-- `~a` of a byte
unfoldable pub complement : ℕ → ℕ
complement a = 255 - a

-- The stores to one field of a process.
unfoldable pub set_next : (a v : ℕ) → Processes → Processes
set_next a v procs x = if x == a then record (procs x) { next = v } else procs x

unfoldable pub set_prev : (a v : ℕ) → Processes → Processes
set_prev a v procs x = if x == a then record (procs x) { prev = v } else procs x

unfoldable pub set_state : (a v : ℕ) → Processes → Processes
set_state a v procs x = if x == a then record (procs x) { state = v } else procs x

unfoldable pub set_exec : (a v : ℕ) → Processes → Processes
set_exec a v procs x = if x == a then record (procs x) { exec = v } else procs x

unfoldable pub set_tree : (pid a : ℕ) → (ℕ → ℕ) → ℕ → ℕ
set_tree pid a tree x = if x == pid then a else tree x

-- The links that proc_insert_to_ready_queue sets: to an empty list, and behind the tail.
unfoldable pub insert_links : (proc : ℕ) → Sched → Processes
unfolding set_next set_prev
insert_links proc s =
    if s.head == 0
    then set_prev proc proc (set_prev proc 0 (set_next proc proc s.procs))
    else set_prev s.head proc
        (set_next s.tail proc (set_prev proc s.tail (set_next proc s.head s.procs)))

-- `proc_insert_to_ready_queue`
unfoldable pub proc_insert_to_ready_queue : (proc : ℕ) → Sched → Sched
unfolding insert_links set_tree set_state
proc_insert_to_ready_queue proc s = record s {
  head = if s.head == 0 then proc else s.head;
  tail = proc;
  size = (s.size + 1) % 4294967296;
  tree = set_tree ((s.procs proc).pid) proc s.tree;
  procs = set_state proc state_ready (insert_links proc s);
}

-- The pointers of `__proc_transfert_to_wait`, in its four cases.
unfoldable pub unlink : (proc : ℕ) → Sched → Sched
unfolding set_next set_prev
unlink proc s =
    let next : ℕ = (s.procs proc).next in
    let prev : ℕ = (s.procs proc).prev in
    if s.size == 1
    then record s { head = 0; tail = 0 }
    else if proc == s.head
    then record s { head = next; procs = set_next s.tail next (set_prev next s.tail s.procs) }
    else if proc == s.tail
    then record s { tail = prev; procs = set_prev s.head prev (set_next prev s.head s.procs) }
    else record s { procs = set_prev next prev (set_next prev next s.procs) }

abbrev pub in_ring : ℕ → Bool
in_ring state = (state == state_ready) || (state == state_running)

-- `__proc_transfert_to_wait`
unfoldable pub transfert_to_wait : (proc : ℕ) → Sched → ℤ × Sched
unfolding unlink
transfert_to_wait proc s =
    if in_ring ((s.procs proc).state)
    then (pos 0, record (unlink proc s) { size = (s.size + 4294967295) % 4294967296 })
    else (minus_one, s)

-- `proc_get_process`
unfoldable pub proc_get_process : (pid : ℕ) → Sched → ℕ
proc_get_process pid s = s.tree pid

-- `__round_robin` and `__exec`: the running process is the next one, which has run from now on.
unfoldable pub switch_to : (proc : ℕ) → Sched → Sched
unfolding set_exec
switch_to proc s = record s {
  current = proc;
  procs = if (s.procs proc).exec == 0 then set_exec proc 1 s.procs else s.procs;
}

-- `gothmog_schedule`
unfoldable pub gothmog_schedule : Sched → Sched
unfolding switch_to
gothmog_schedule s =
    if s.head == 0
    then s
    else if not (s.current == 0)
    then switch_to ((s.procs s.current).next) s
    else switch_to s.head s

-- `proc->state ^= PROCESS_STATE_READY | PROCESS_STATE_RUNNING; proc->state |= PROCESS_STATE_WAITING;`
unfoldable pub mark_waiting : (proc : ℕ) → Sched → Sched
unfolding or xor set_state
mark_waiting proc s = record s {
  procs =
      set_state proc (or (xor ((s.procs proc).state) (or state_ready state_running)) state_waiting)
        s.procs;
}

-- `proc_transfert_to_waiting`
unfoldable pub proc_transfert_to_waiting : (pid : ℕ) → Sched → Sched
unfolding transfert_to_wait proc_get_process mark_waiting
proc_transfert_to_waiting pid s =
    let proc = proc_get_process pid s in
    if not (proc == 0) && in_ring ((s.procs proc).state)
    then mark_waiting proc ((transfert_to_wait proc s).1)
    else s

-- The end of proc_to_sleep, once the process is out of the list.
unfoldable pub leave : (proc : ℕ) → Sched → Sched
unfolding gothmog_schedule
leave proc s =
    if proc == s.current
    then gothmog_schedule (if proc == (s.procs s.current).next then record s { current = 0 } else s)
    else s

-- `proc->state &= ~(PROCESS_STATE_READY) & ~(PROCESS_STATE_RUNNING); proc->state |= set_state;`
unfoldable pub mark_asleep : (proc set_state_bits : ℕ) → Sched → Sched
unfolding and or complement set_state
mark_asleep proc set_state_bits s = record s {
  procs =
      set_state proc
        (or (and ((s.procs proc).state) (and (complement state_ready) (complement state_running)))
          set_state_bits)
        s.procs;
}

-- `proc_to_sleep`
unfoldable pub proc_to_sleep : (pid set_state_bits : ℕ) → Sched → Sched
unfolding transfert_to_wait proc_get_process mark_asleep leave
proc_to_sleep pid set_state_bits s =
    let proc = proc_get_process pid s in
    if not (proc == 0) && in_ring ((s.procs proc).state)
    then leave proc (mark_asleep proc set_state_bits ((transfert_to_wait proc s).1))
    else s

-- `if(proc->state & expected_state) { proc->state ^= expected_state; }`
unfoldable pub clear_state : (proc expected_state : ℕ) → Sched → Sched
unfolding and xor set_state
clear_state proc expected_state s =
    if not (and ((s.procs proc).state) expected_state == 0)
    then record s { procs = set_state proc (xor ((s.procs proc).state) expected_state) s.procs }
    else s

-- `proc_transfert_to_ready`
unfoldable pub proc_transfert_to_ready : (pid expected_state : ℕ) → Sched → Sched
unfolding proc_get_process proc_insert_to_ready_queue clear_state
proc_transfert_to_ready pid expected_state s =
    let proc = proc_get_process pid s in
    if proc == 0
    then s
    else clear_state proc expected_state
        (if (s.procs proc).state == expected_state then proc_insert_to_ready_queue proc s else s)

-- `proc_wake_process`, over the first `wait_size` slots
unfoldable pub proc_wake_process : List ℕ → Sched → Sched
unfolding proc_transfert_to_ready
proc_wake_process [] s = s
proc_wake_process (pid ∷ pids) s =
    proc_wake_process pids (if pid == 0 then s else proc_transfert_to_ready pid state_waiting s)

unfoldable pub add_waiter : (proc pid : ℕ) → Processes → Processes
add_waiter proc pid procs x =
    if x == proc
    then record (procs x) {
      waiting = set ((procs x).waiting) ((procs x).wait_size) pid;
      wait_size = (procs x).wait_size + 1;
    }
    else procs x

-- `proc_add_to_waiting`
unfoldable pub proc_add_to_waiting : (pid to_wait_pid : ℕ) → Sched → ℤ × Sched
unfolding proc_get_process add_waiter
proc_add_to_waiting pid to_wait_pid s =
    let proc = proc_get_process to_wait_pid s in
    if not (proc == 0) && ltb ((s.procs proc).wait_size) 5
    then (pos 0, record s { procs = add_waiter proc pid s.procs })
    else (minus_one, s)
