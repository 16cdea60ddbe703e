-- ===== src/ProcSleep.antt =====
-- src/kernel/tasking/proc_sleep.c: processes that sleep until a time, in a red-black tree by tick, and
-- pit_compare of src/kernel/cpu/pit/pit.c. The memory of a sleeper_data and of a tree node is an
-- argument of sleep; vmfree is left out, a node and its sleeper keep what is stored in them.
pub mod Least
pub mod Awake
pub mod Wake
pub mod Lost
mod Tests
use balrog_os.Prelude.{
  ℕ, zero, suc, ◌+◌, ◌*◌, ◌%◌, Bool, true, false, ◌&&◌, ◌||◌, not, Option, none, some, ltb, ◌==◌,
  if◌then◌else◌,
}
use balrog_os.Rbt.{Rbt, Node, Nodes, put, rbt_insert, rbt_minimum}
use balrog_os.Rbt.Remove.{rbt_delete}
use balrog_os.Process.{
  Sched, Processes, state_sleeping, and, xor, set_state, proc_to_sleep, proc_transfert_to_ready,
}

-- A `sleeper_data`: the process and its timespec
pub record Sleeper : Type 0 where
  pub process : ℕ
  pub sec : ℕ
  pub msec : ℕ

-- The sleeper tree, the sleepers by address, `sleeper_node` of each process, and the processes.
pub record State : Type 0 where
  pub tree : Rbt
  pub sleepers : ℕ → Sleeper
  pub node_of : ℕ → ℕ
  pub sched : Sched

-- `pit_compare` at a tick: the time is in the past.
unfoldable pub pit_compare : (ticks ms : ℕ) → Sleeper → Bool
pit_compare ticks ms time = ltb time.sec ticks || ((ticks == time.sec) && ltb time.msec ms)

-- `get_tree_key`
unfoldable pub get_tree_key : (sec msec : ℕ) → ℕ
get_tree_key sec msec = (sec * 1000 + msec) % 18446744073709551616

abbrev pub set_at {ℓ} : {A : Type ℓ} → ℕ → A → (ℕ → A) → ℕ → A
set_at a v f x = if x == a then v else f x

abbrev pub set_value : (a v : ℕ) → Rbt → Rbt
set_value a v t = record t { nodes = put a (record (t.nodes a) { value = v }) t.nodes }

-- What sleep stores, at the node that rbt_insert has answered
unfoldable pub slept : (slpr sec msec proc node : ℕ) → Rbt → State → State
slept slpr sec msec proc node tree s = record {
  tree = set_value node slpr tree;
  sleepers = set_at slpr record { process = proc; sec = sec; msec = msec } s.sleepers;
  node_of = set_at proc node s.node_of;
  sched = proc_to_sleep ((s.sched.procs proc).pid) state_sleeping s.sched;
}

-- `sleep`, at a tree that the insertion walks with fuel `n`
unfoldable pub sleep : (n fresh slpr sec msec proc : ℕ) → State → Option State
sleep n fresh slpr sec msec proc s = elim (rbt_insert n s.tree (get_tree_key sec msec) fresh) [
  | none ↦ none
  | some (tree, node) ↦ some (slept slpr sec msec proc node tree s)
]

-- A due sleeper's process, where it is still asleep.
unfoldable pub awake : (process : ℕ) → State → State
awake process s =
    if not (process == 0) && not (and ((s.sched.procs process).state) state_sleeping == 0)
    then record s {
      sched =
          if (s.sched.procs process).state == state_sleeping
          then proc_transfert_to_ready ((s.sched.procs process).pid) state_sleeping s.sched
          else record (s.sched) {
            procs =
                set_state process (xor ((s.sched.procs process).state) state_sleeping)
                  s.sched.procs;
          };
      node_of = set_at process 0 s.node_of;
    }
    else s

-- The node leaves the tree; `none` where the walk runs out of fuel.
unfoldable pub drop_node : (n node : ℕ) → State → Option State
drop_node n node s = elim (rbt_delete n s.tree node) [
  | none ↦ none
  | some tree ↦ some (record s { tree = tree })
]

-- The loop of `wake_up` from a node, for so many rounds at most
unfoldable pub wake_from : (rounds n ticks ms : ℕ) → State → (node : ℕ) → Option State
wake_from zero n ticks ms s node = none
wake_from (suc rounds) n ticks ms s node =
    let slpr : ℕ = (s.tree.nodes node).value in
    let woken = if slpr == 0 then s else awake (s.sleepers slpr).process s in
    if node == 0
    then some s
    else if not (slpr == 0) && not (pit_compare ticks ms (s.sleepers slpr))
    then some s
    else elim (drop_node n node woken) [
      | none ↦ none
      | some next ↦ elim (rbt_minimum n next.tree) [
        | none ↦ none
        | some least ↦ wake_from rounds n ticks ms next least
      ]
    ]

-- `wake_up`
unfoldable pub wake_up : (rounds n ticks ms : ℕ) → State → Option State
wake_up rounds n ticks ms s = elim (rbt_minimum n s.tree) [
  | none ↦ none
  | some node ↦ wake_from rounds n ticks ms s node
]

-- `remove_sleeper`
unfoldable pub remove_sleeper : (n proc : ℕ) → State → Option State
remove_sleeper n proc s =
    if s.node_of proc == 0 then some s else elim (drop_node n (s.node_of proc) s) [
      | none ↦ none
      | some next ↦ some (record next { node_of = set_at proc 0 next.node_of })
    ]
