-- ===== src/Process/Tests.antt =====
-- Runs of the ready list on three processes.
use balrog_os.Prelude.{
  ℕ, ◌*◌, ◌≡◌, ◌≢◌, refl, ◌≤◌, ◌<◌, inl, [], ◌∷◌, ◌++◌, arith, length, if◌then◌else◌, ◌==◌, pos,
}
use balrog_os.Process.{
  Process, Processes, Sched, state_ready, state_running, state_waiting, state_dead,
  transfert_to_wait, proc_to_sleep, proc_transfert_to_waiting, proc_transfert_to_ready,
}
use balrog_os.Process.Ring.{IsRing}
use balrog_os.Process.Moves.{transfert_to_wait-IsRing}
use balrog_os.Process.Robin.{ticks, gothmog_schedule-visits}
use balrog_os.Process.Sleep.{proc_to_sleep-IsRing}
use balrog_os.Process.Wake.{sleep-wake-IsRing, proc_transfert_to_waiting-lost}

abbrev process : (pid state next prev : ℕ) → Process
process pid state next prev = record {
  pid = pid;
  state = state;
  next = next;
  prev = prev;
  exec = 1;
  wait_size = 0;
  waiting = 0 ∷ 0 ∷ 0 ∷ 0 ∷ 0 ∷ [];
}

-- The processes 16, 32 and 48 with the pids 1, 2 and 3, and 64 with the pid 4, which waits.
abbrev three_processes : Processes
three_processes a =
    if a == 16
    then process 1 0 32 48
    else (if a == 32
        then process 2 0 48 16
        else (if a == 48 then process 3 0 16 32 else process 4 2 0 0))

abbrev three_ready : Sched
three_ready = record {
  head = 16;
  tail = 48;
  size = 3;
  current = 32;
  tree = λ pid. pid * 16;
  procs = three_processes;
}

three_ready-IsRing : IsRing three_ready (16 ∷ 32 ∷ 48 ∷ [])
three_ready-IsRing = record {
  size_is = refl;
  fits = omega arith;
  ends = (refl, refl);
  real = (omega arith, (omega arith, (omega arith, tt)));
  distinct = ((omega arith, (omega arith, tt)), ((omega arith, tt), (tt, tt)));
  nexts = (refl, (refl, (refl, tt)));
  prevs = (refl, (refl, (refl, tt)));
  states = (refl, (refl, (refl, tt)));
}

transfert_to_wait-IsRing_example :
    ((transfert_to_wait 48 three_ready).0 ≡ pos 0)
    × IsRing ((transfert_to_wait 48 three_ready).1) ((16 ∷ 32 ∷ []) ++ [])
transfert_to_wait-IsRing_example =
    transfert_to_wait-IsRing (16 ∷ 32 ∷ []) 48 [] three_ready three_ready-IsRing

gothmog_schedule-visits_example :
    (k : ℕ) × (0 < k)
    × (k ≤ length {A = ℕ} (16 ∷ 32 ∷ 48 ∷ []))
    × ((ticks k three_ready).current ≡ 16)
gothmog_schedule-visits_example =
    gothmog_schedule-visits three_ready (16 ∷ 32 ∷ 48 ∷ []) 1 0 16 three_ready-IsRing refl refl

proc_to_sleep-IsRing_example :
    IsRing (proc_to_sleep 2 state_waiting three_ready) ((16 ∷ []) ++ (48 ∷ []))
    × (((proc_to_sleep 2 state_waiting three_ready).procs 32).state ≡ state_waiting)
    × ((proc_to_sleep 2 state_waiting three_ready).current ≢ 32)
proc_to_sleep-IsRing_example =
    proc_to_sleep-IsRing (16 ∷ []) 32 (48 ∷ []) 2 state_waiting three_ready three_ready-IsRing refl
      (inl refl)

sleep-wake-IsRing_example :
    IsRing
      (proc_transfert_to_ready 1 state_waiting (proc_to_sleep 1 state_waiting three_ready))
      (([] ++ (32 ∷ 48 ∷ [])) ++ (16 ∷ []))
    × (((proc_transfert_to_ready 1 state_waiting (proc_to_sleep 1 state_waiting three_ready)).procs
          16).state
        ≡ state_ready)
sleep-wake-IsRing_example =
    sleep-wake-IsRing [] 16 (32 ∷ 48 ∷ []) 1 state_waiting three_ready three_ready-IsRing refl
      (inl refl)

proc_transfert_to_waiting-lost_example :
    (((proc_transfert_to_waiting 2 three_ready).procs 32).state ≡ state_dead)
    × IsRing
        (proc_transfert_to_ready 2 state_waiting (proc_transfert_to_waiting 2 three_ready))
        ((16 ∷ []) ++ (48 ∷ []))
    × (((proc_transfert_to_ready 2 state_waiting (proc_transfert_to_waiting 2 three_ready)).procs
          32).state
        ≡ state_running)
proc_transfert_to_waiting-lost_example =
    proc_transfert_to_waiting-lost (16 ∷ []) 32 (48 ∷ []) 2 three_ready three_ready-IsRing refl refl
