-- ===== src/ProcSleep/Tests.antt =====
-- Three sleepers, on ticks 10, 20 and 30.
use balrog_os.Prelude.{◌*◌, ◌-◌, refl, [], arith, if◌then◌else◌, ◌==◌}
use balrog_os.Process.{state_sleeping}
use balrog_os.Rbt.Sample.{three, three_entries, three-IsRbt}
use balrog_os.ProcSleep.{State, get_tree_key, wake_up}
use balrog_os.ProcSleep.Awake.{Known}
use balrog_os.ProcSleep.Wake.{Woken, wake_up-Woken}
use balrog_os.ProcSleep.Lost.{Shares, sleep-Shares}

-- The processes 1, 2 and 3 sleep, and 4 is ready, alone.
abbrev three_asleep : State
three_asleep = record {
  tree = three;
  sleepers = λ a. record { process = a - 100; sec = 0; msec = (a - 100) * 10 };
  node_of = λ a. a;
  sched = record {
    head = 4;
    tail = 4;
    size = 1;
    current = 4;
    tree = λ pid. pid;
    procs = λ a. record {
      pid = a;
      state = if a == 4 then 0 else state_sleeping;
      next = 4;
      prev = 4;
      exec = 1;
      wait_size = 0;
      waiting = [];
    };
  };
}

sleep-Shares_example : Shares 5 9 200 0 20 4 2 three_asleep three_entries
unfolding get_tree_key
sleep-Shares_example =
    sleep-Shares 5 9 200 0 20 4 2 three_asleep three_entries three-IsRbt (omega arith) refl
      (omega arith) ((λ n. omega arith), ((λ n. absurd (n refl)), ((λ n. omega arith), tt)))

three_asleep-Known : Known three_asleep
three_asleep-Known p real asleep = refl

wake_up-Woken_example : Woken 0 15 three_entries three_asleep (wake_up 4 7 0 15 three_asleep)
wake_up-Woken_example =
    wake_up-Woken three_entries 4 7 0 15 three_asleep three-IsRbt three_asleep-Known (omega arith)
      (omega arith)
