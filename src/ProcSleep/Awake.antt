-- ===== src/ProcSleep/Awake.antt =====
-- What waking a due sleeper's process does to the processes.
use balrog_os.Prelude.{
  ℕ, ap, Bool, sym, ==_refl, ◌≡◌, refl, ◌≢◌, ◌∙◌, ◌⊎◌, inl, inr, Bool-cases, true, false, not, ◌&&◌,
  ◌==◌, arith, if◌then◌else◌,
}
use mathlib.Core.Path.{subst}
use balrog_os.Process.{
  Sched, state_ready, state_sleeping, and, xor, set_state, set_next, set_prev, set_tree,
  insert_links, proc_insert_to_ready_queue, proc_get_process, proc_transfert_to_ready,
}
use balrog_os.Process.Wake.{clear_state-ready}
use balrog_os.ProcSleep.{State, awake, set_at}

-- The state and the pid of a process
abbrev pub state_of : State → ℕ → ℕ
state_of s p = (s.sched.procs p).state

abbrev pub pid_of : State → ℕ → ℕ
pid_of s p = (s.sched.procs p).pid

-- process_tree finds every process that sleeps.
abbrev pub Known : State → Type 0
Known s = (p : ℕ) → p ≢ 0 → state_of s p ≡ state_sleeping → s.sched.tree (pid_of s p) ≡ p

-- A process is as it was.
abbrev pub Untouched : (s s' : State) → ℕ → Type 0
Untouched s s' q = (state_of s' q ≡ state_of s q) × (s'.node_of q ≡ s.node_of q)

-- A process that slept is ready, and has no tree node any more.
abbrev pub Roused : (s s' : State) → ℕ → Type 0
Roused s s' p =
    (state_of s p ≢ state_sleeping) ⊎ ((state_of s' p ≡ state_ready) × (s'.node_of p ≡ 0))

-- From `s` to `s'` the process `p` is woken, and no other.
pub record Wakes (p : ℕ) (s s' : State) : Type 0 where
  pub others : (q : ℕ) → q ≢ p → Untouched s s' q
  pub ready_stays : (q : ℕ) → state_of s q ≡ state_ready → Untouched s s' q
  pub roused : p ≢ 0 → Roused s s' p
  pub known : Known s'

insert-state :
    (p q : ℕ) (s : Sched)
    → ((proc_insert_to_ready_queue p s).procs q).state
      ≡ (if q == p then state_ready else (s.procs q).state)
unfolding proc_insert_to_ready_queue insert_links set_next set_prev set_state
insert-state p q s = ground arith

insert-pid :
    (p q : ℕ) (s : Sched) → ((proc_insert_to_ready_queue p s).procs q).pid ≡ (s.procs q).pid
unfolding proc_insert_to_ready_queue insert_links set_next set_prev set_state
insert-pid p q s = ground arith

insert-tree :
    (p : ℕ) (s : Sched)
    → s.tree (s.procs p).pid ≡ p
    → (x : ℕ) → (proc_insert_to_ready_queue p s).tree x ≡ s.tree x
unfolding proc_insert_to_ready_queue set_tree
insert-tree p s found x = ground (arith, found)

-- A process that only sleeps enters the ready list.
transfert_sleeping :
    (p pid bits : ℕ) (s : Sched)
    → p ≢ 0
    → (s.procs p).state ≡ bits
    → bits ≡ state_sleeping
    → s.tree pid ≡ p
    → proc_transfert_to_ready pid bits s ≡ proc_insert_to_ready_queue p s
unfolding proc_transfert_to_ready proc_get_process
transfert_sleeping p pid bits s real asleep e found =
    let not_null : (p == 0) ≡ false = ground arith in
    let is_ready : ((proc_insert_to_ready_queue p s).procs p).state ≡ state_ready =
      ground (arith, insert-state p p s) in
    let clear = clear_state-ready p bits (proc_insert_to_ready_queue p s) is_ready (inr e) in
    rw (found, asleep, not_null, ==_refl bits, clear) refl

and-sleeping : (and state_sleeping state_sleeping == 0) ≡ false
unfolding and
and-sleeping = refl

and-ready : (and state_ready state_sleeping == 0) ≡ true
unfolding and
and-ready = refl

-- A state with some bit of that of a sleeping process does not turn into it.
xor-asleep : (st : ℕ) → xor st state_sleeping ≡ state_sleeping → and st state_sleeping ≡ 0
unfolding xor and
xor-asleep st e = omega (arith, e)

-- The three ways of awake: nothing, the ready list, and another state.
module _ (p : ℕ) (s : State) where
  passes : Bool
  passes = not (p == 0) && not (and (state_of s p) state_sleeping == 0)

  cleared : State
  cleared = record s { node_of = set_at p 0 s.node_of }

  other_bits : State
  other_bits = record cleared {
    sched = record (s.sched) {
      procs = set_state p (xor (state_of s p) state_sleeping) s.sched.procs;
    };
  }

  awake_none : passes ≡ false → awake p s ≡ s
  unfolding awake passes
  awake_none e = rw e refl

  awake_ready :
      p ≢ 0
      → state_of s p ≡ state_sleeping
      → s.sched.tree (pid_of s p) ≡ p
      → awake p s ≡ record cleared { sched = proc_insert_to_ready_queue p s.sched }
  unfolding awake cleared
  awake_ready real asleep found =
      let not_null : (p == 0) ≡ false = ground arith in
      rw
        (
          asleep,
          not_null,
          and-sleeping,
          transfert_sleeping p (pid_of s p) state_sleeping s.sched real asleep refl found,
        )
        refl

  awake_other : passes ≡ true → (state_of s p == state_sleeping) ≡ false → awake p s ≡ other_bits
  unfolding awake passes cleared other_bits
  awake_other e other = rw (e, other) refl

  none-Wakes : passes ≡ false → Known s → Wakes p s s
  unfolding passes
  none-Wakes e known = record {
    others = λ q ne. (refl, refl);
    ready_stays = λ q r. (refl, refl);
    roused = λ real. inl (λ asleep.
        let not_null : (p == 0) ≡ false = ground arith in
        let closed : (not (p == 0) && not (and state_sleeping state_sleeping == 0)) ≡ false =
          rw asleep at e in
        ground (arith, and-sleeping));
    known = known;
  }

  ready-Wakes :
      p ≢ 0
      → state_of s p ≡ state_sleeping
      → Known s
      → Wakes p s (record cleared { sched = proc_insert_to_ready_queue p s.sched })
  unfolding cleared
  ready-Wakes real asleep known = record {
    others = λ q ne. (ground (arith, insert-state p q s.sched), ground arith);
    ready_stays = λ q r.
        let ne : (q == p) ≡ false = not_same q r in
        (ground (arith, insert-state p q s.sched), ground arith);
    roused = λ _. inr (ground (arith, insert-state p p s.sched), ground arith);
    known = λ q nz sleeps.
        rw (insert-pid p q s.sched, insert-tree p s.sched (known p real asleep) (pid_of s q))
          (known q nz (still q sleeps));
  }
    where
      not_same : (q : ℕ) → state_of s q ≡ state_ready → (q == p) ≡ false
      not_same q r = ground arith

      still :
          (q : ℕ)
          → ((proc_insert_to_ready_queue p s.sched).procs q).state ≡ state_sleeping
          → state_of s q ≡ state_sleeping
      still q e = ground (arith, insert-state p q s.sched)

  other_bits-state :
      (q : ℕ)
      → state_of other_bits q ≡ (if q == p then xor (state_of s p) state_sleeping else state_of s q)
  unfolding other_bits cleared set_state
  other_bits-state q = ground arith

  other_bits-pid : (q : ℕ) → pid_of other_bits q ≡ pid_of s q
  unfolding other_bits cleared set_state
  other_bits-pid q = ground arith

  other_bits-node : (q : ℕ) → (q == p) ≡ false → other_bits.node_of q ≡ s.node_of q
  unfolding other_bits cleared
  other_bits-node q ne = ground arith

  other_bits-tree : (x : ℕ) → other_bits.sched.tree x ≡ s.sched.tree x
  unfolding other_bits cleared
  other_bits-tree x = refl

  other_bits-Known : passes ≡ true → Known s → Known other_bits
  unfolding passes
  other_bits-Known e known q nz sleeps = elim (Bool-cases (q == p)) [
    | inl here ↦
        let turned : xor (state_of s p) state_sleeping ≡ state_sleeping =
          ground (arith, other_bits-state q) in
        let no_bits = xor-asleep (state_of s p) turned in absurd (ground arith)
    | inr apart ↦
        let same : state_of s q ≡ state_sleeping = ground (arith, other_bits-state q) in
        other_bits-tree (pid_of other_bits q)
        ∙ (ap s.sched.tree (other_bits-pid q) ∙ known q nz same)
  ]

  other-Wakes :
      passes ≡ true → (state_of s p == state_sleeping) ≡ false → Known s → Wakes p s other_bits
  unfolding passes
  other-Wakes e other known = record {
    others = λ q ne.
        let apart : (q == p) ≡ false = ground arith in
        (ground (arith, other_bits-state q), other_bits-node q apart);
    ready_stays = λ q r.
        let apart : (q == p) ≡ false = not_same q r in
        (ground (arith, other_bits-state q), other_bits-node q apart);
    roused = λ _. inl (ground arith);
    known = other_bits-Known e known;
  }
    where
      not_same : (q : ℕ) → state_of s q ≡ state_ready → (q == p) ≡ false
      not_same q r = elim (Bool-cases (q == p)) [
        | inl here ↦
            let self : p ≡ q = ground arith in
            let closed : (not (q == 0) && not (and state_ready state_sleeping == 0)) ≡ true =
              rw (self, r) at e in
            absurd (ground (arith, and-ready))
        | inr apart ↦ apart
      ]

-- awake wakes its process, and changes no other.
pub awake-Wakes : (p : ℕ) (s : State) → Known s → Wakes p s (awake p s)
awake-Wakes p s known = elim (Bool-cases (passes p s)) [
  | inr closed ↦ subst (Wakes p s) (sym (awake_none p s closed)) (none-Wakes p s closed known)
  | inl open_ ↦ elim (Bool-cases (state_of s p == state_sleeping)) [
    | inl asleep ↦
        let real : p ≢ 0 = unfold passes in ground arith in
        let is : state_of s p ≡ state_sleeping = ground arith in
        subst (Wakes p s) (sym (awake_ready p s real is (known p real is)))
          (ready-Wakes p s real is known)
    | inr other ↦
        subst (Wakes p s) (sym (awake_other p s open_ other)) (other-Wakes p s open_ other known)
  ]
]

pub awake-sleepers : (p : ℕ) (s : State) → (awake p s).sleepers ≡ s.sleepers
unfolding awake
awake-sleepers p s = ground arith

-- The sleeper that a node leads to, and its process
abbrev pub value_of : State → ℕ → ℕ
value_of s x = (s.tree.nodes x).value

abbrev pub process_of : State → ℕ → ℕ
process_of s x = (s.sleepers (value_of s x)).process

-- What the loop does with a node before it leaves the tree.
unfoldable pub woken : State → ℕ → State
woken s x = if value_of s x == 0 then s else awake (process_of s x) s

-- A node leads to no sleeper, or to one without a process, or its process is woken.
abbrev pub RousedAt : (s s' : State) → ℕ → Type 0
RousedAt s s' x = (value_of s x ≡ 0) ⊎ ((process_of s x ≡ 0) ⊎ Roused s s' (process_of s x))

-- A node does not lead to a process.
abbrev pub OtherAt : State → (q x : ℕ) → Type 0
OtherAt s q x = (value_of s x ≡ 0) ⊎ (process_of s x ≢ q)

pub record Step (x : ℕ) (s s' : State) : Type 0 where
  pub others : (q : ℕ) → OtherAt s q x → Untouched s s' q
  pub ready_stays : (q : ℕ) → state_of s q ≡ state_ready → Untouched s s' q
  pub roused : RousedAt s s' x
  pub known : Known s'

pub woken-Step : (x : ℕ) (s : State) → Known s → Step x s (woken s x)
unfolding woken
woken-Step x s known = elim (Bool-cases (value_of s x == 0)) [
  | inl null ↦ rw null record {
    others = λ q o. (refl, refl);
    ready_stays = λ q r. (refl, refl);
    roused = inl (ground arith);
    known = known;
  }
  | inr real ↦
      let w = awake-Wakes (process_of s x) s known in
      rw real record {
        others = λ q o. elim o [
          | inl null ↦ absurd (ground arith)
          | inr ne ↦ w.others q (λ e. ne (sym e))
        ];
        ready_stays = w.ready_stays;
        roused = elim (Bool-cases (process_of s x == 0)) [
          | inl none_there ↦ inr (inl (ground arith))
          | inr there ↦ inr (inr (w.roused (ground arith)))
        ];
        known = w.known;
      }
]

pub woken-sleepers : (x : ℕ) (s : State) → (woken s x).sleepers ≡ s.sleepers
unfolding woken
woken-sleepers x s = elim (Bool-cases (value_of s x == 0)) [
  | inl null ↦ rw null refl
  | inr real ↦ rw real (awake-sleepers (process_of s x) s)
]
