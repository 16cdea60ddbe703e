-- ===== src/ProcSleep/Wake.antt =====
-- wake_up ends: it takes the sleepers that are due off the front of the tree.
use balrog_os.Prelude.{
  ℕ, zero, suc, ◌+◌, ◌<◌, ◌≡◌, refl, ◌≢◌, ◌⊎◌, sym, Bool, true, false, ap, ◌∙◌, arith, ◌++◌, ◌∷◌,
  [], List, length, Option, some, ◌==◌, if◌then◌else◌, not, ◌&&◌, All, inl, inr, Bool-cases,
}
use mathlib.Core.Path.{subst}
use native.Mathlib.Decide.{ℕ_discrete}
use balrog_os.Rbt.{Rbt, rbt_minimum}
use balrog_os.Rbt.Fixup.{IsRbt}
use balrog_os.Rbt.Search.{first, rbt_minimum-first}
use balrog_os.Rbt.Remove.{rbt_delete}
use balrog_os.ProcSleep.Least.{entries-real, delete_least}
use balrog_os.Process.{state_ready}
use balrog_os.ProcSleep.Awake.{
  state_of, value_of, process_of, woken, woken-Step, woken-sleepers, Known, Untouched, Roused,
  RousedAt, OtherAt, Step,
}
use balrog_os.ProcSleep.{Sleeper, State, pit_compare, awake, drop_node, wake_from, wake_up}

if_tree : (b : Bool) (u s : State) → u.tree ≡ s.tree → (if b then u else s).tree ≡ s.tree
if_tree true u s e = e
if_tree false u s e = refl

awake-tree : (p : ℕ) (s : State) → (awake p s).tree ≡ s.tree
unfolding awake
awake-tree p s = if_tree _ _ s refl

-- Why the loop has ended: the tree is empty, or its first sleeper is not due.
abbrev pub Stops : (ticks ms : ℕ) → State → List (ℕ × ℕ) → Type 0
Stops ticks ms s [] = Unit
Stops ticks ms s (x ∷ es) =
    ((s.tree.nodes (x.0)).value ≢ 0)
    × (pit_compare ticks ms (s.sleepers (s.tree.nodes (x.0)).value) ≡ false)

-- A sleeper that is gone was due, or there was none.
abbrev pub DueAt : (ticks ms : ℕ) → State → ℕ → Type 0
DueAt ticks ms s x = (value_of s x ≡ 0) ⊎ (pit_compare ticks ms (s.sleepers (value_of s x)) ≡ true)

-- How wake_up ends: with the sleepers gone that were due, their processes woken and no other one
-- touched, and the first sleeper that is left not due.
pub record Woken (ticks ms : ℕ) (es : List (ℕ × ℕ)) (s : State) (result : Option State)
    : Type 0 where
  pub done : State
  pub gone : List (ℕ × ℕ)
  pub left_over : List (ℕ × ℕ)
  pub runs : result ≡ some done
  pub split : es ≡ gone ++ left_over
  pub holds : IsRbt done.tree left_over
  pub stops : Stops ticks ms done left_over
  pub due : All (λ (e : ℕ × ℕ). DueAt ticks ms s (e.0)) gone
  pub roused : All (λ (e : ℕ × ℕ). RousedAt s done (e.0)) gone
  pub others : (q : ℕ) → All (λ (e : ℕ × ℕ). OtherAt s q (e.0)) gone → Untouched s done q
  pub ready_stays : (q : ℕ) → state_of s q ≡ state_ready → Untouched s done q

woken-tree : (s : State) (at : ℕ) → (woken s at).tree ≡ s.tree
unfolding woken
woken-tree s at = elim (Bool-cases ((s.tree.nodes at).value == 0)) [
  | inl e ↦ rw e refl
  | inr e ↦ rw e (awake-tree (process_of s at) s)
]

waits : (ticks ms : ℕ) → State → ℕ → Bool
waits ticks ms s at =
    not ((s.tree.nodes at).value == 0)
    && not (pit_compare ticks ms (s.sleepers (s.tree.nodes at).value))

module _ (rounds n ticks ms : ℕ) (s : State) where
  wake_empty : wake_from (suc rounds) n ticks ms s 0 ≡ some s
  unfolding wake_from
  wake_empty = refl

  wake_stop :
      (at : ℕ)
      → at ≢ 0
      → waits ticks ms s at ≡ true
      → wake_from (suc rounds) n ticks ms s at ≡ some s
  unfolding wake_from waits
  wake_stop at real e = let nz : (at == 0) ≡ false = ground arith in rw (nz, e) refl

  wake_on :
      (at least : ℕ) (next : State)
      → at ≢ 0
      → waits ticks ms s at ≡ false
      → drop_node n at (woken s at) ≡ some next
      → rbt_minimum n next.tree ≡ some least
      → wake_from (suc rounds) n ticks ms s at ≡ wake_from rounds n ticks ms next least
  unfolding wake_from waits woken
  wake_on at least next real e dropped is =
      let nz : (at == 0) ≡ false = ground arith in rw (nz, e, dropped, is, wake_from) refl

drop-some :
    (n at : ℕ) (s : State) (t done : Rbt)
    → s.tree ≡ t
    → rbt_delete n t at ≡ some done
    → drop_node n at s ≡ some (record s { tree = done })
unfolding drop_node
drop-some n at s t done e runs = rw (e, runs, drop_node) refl

Stops-here :
    (ticks ms : ℕ) (s : State) (x k : ℕ) (es : List (ℕ × ℕ))
    → waits ticks ms s x ≡ true
    → Stops ticks ms s ((x, k) ∷ es)
unfolding waits
Stops-here ticks ms s x k es e = ground arith

due_here : (ticks ms : ℕ) (s : State) (x : ℕ) → waits ticks ms s x ≡ false → DueAt ticks ms s x
unfolding waits
due_here ticks ms s x e = elim (Bool-cases (value_of s x == 0)) [
  | inl null ↦ inl (ground arith)
  | inr real ↦ inr (ground arith)
]

-- A round leads from `s` to `next`: the sleepers are the same, and so is the node of each.
module _ (s next : State) (values : (y : ℕ) → value_of next y ≡ value_of s y)
    (sleepers : next.sleepers ≡ s.sleepers) where
  process-same : (x : ℕ) → process_of next x ≡ process_of s x
  process-same x =
      ap (λ (f : ℕ → Sleeper). (f (value_of next x)).process) sleepers
      ∙ ap (λ (v : ℕ). (s.sleepers v).process) (values x)

  due_before : (ticks ms x : ℕ) → DueAt ticks ms next x → DueAt ticks ms s x
  due_before ticks ms x (inl null) = inl (sym (values x) ∙ null)
  due_before ticks ms x (inr due) = inr (
      ap (λ (f : ℕ → Sleeper). pit_compare ticks ms (f (value_of s x))) (sym sleepers)
      ∙ ap (λ (v : ℕ). pit_compare ticks ms (next.sleepers v)) (sym (values x))
      ∙ due)

  other_after : (q x : ℕ) → OtherAt s q x → OtherAt next q x
  other_after q x (inl null) = inl (values x ∙ null)
  other_after q x (inr ne) = inr (λ e. ne (sym (process-same x) ∙ e))

  module _ (done : State) (at : ℕ) (step : Step at s next)
      (stays : (q : ℕ) → state_of next q ≡ state_ready → Untouched next done q) where
    -- The process that the round has woken stays so.
    stays-Roused : (p : ℕ) → Roused s next p → Roused s done p
    stays-Roused p (inl awake_before) = inl awake_before
    stays-Roused p (inr (ready, off)) =
        let (same, node) = stays p ready in inr (same ∙ ready, node ∙ off)

    roused_first : RousedAt s done at
    roused_first = elim step.roused [
      | inl null ↦ inl null
      | inr (inl none_there) ↦ inr (inl none_there)
      | inr (inr woken_now) ↦ inr (inr (stays-Roused (process_of s at) woken_now))
    ]

    -- A process of a later round was asleep before it too, or has been woken already.
    later-Roused : (p : ℕ) → p ≢ 0 → Roused next done p → Roused s done p
    later-Roused p real (inr woken_now) = inr woken_now
    later-Roused p real (inl awake_before) = elim (ℕ_discrete (process_of s at) p) [
      | no other ↦ inl (λ e. awake_before ((step.others p (inr other)).0 ∙ e))
      | yes here ↦ elim step.roused [
        | inl null ↦ inl (λ e. awake_before ((step.others p (inl null)).0 ∙ e))
        | inr (inl none_there) ↦ absurd (real (sym here ∙ none_there))
        | inr (inr woken_now) ↦ stays-Roused p (subst (Roused s next) here woken_now)
      ]
    ]

    roused_later : (x : ℕ) → RousedAt next done x → RousedAt s done x
    roused_later x (inl null) = inl (sym (values x) ∙ null)
    roused_later x (inr (inl none_there)) = inr (inl (sym (process-same x) ∙ none_there))
    roused_later x (inr (inr woken_now)) = elim (ℕ_discrete (process_of s x) 0) [
      | yes none_there ↦ inr (inl none_there)
      | no real ↦ inr (
          inr (
            later-Roused (process_of s x) real
              (subst (Roused next done) (process-same x) woken_now)))
    ]

    stays_from : (q : ℕ) → state_of s q ≡ state_ready → Untouched s done q
    stays_from q ready =
        let (same, node) = step.ready_stays q ready in
        let (same', node') = stays q (same ∙ ready) in (same' ∙ same, node' ∙ node)

All-map :
    {P Q : ℕ × ℕ → Type 0} (es : List (ℕ × ℕ)) → ((e : ℕ × ℕ) → P e → Q e) → All P es → All Q es
All-map [] f a = tt
All-map (e ∷ es) f (p, a) = (f e p, All-map es f a)

wake_from-Woken :
    (es : List (ℕ × ℕ)) (rounds n ticks ms : ℕ) (s : State)
    → IsRbt s.tree es
    → Known s
    → length es < rounds
    → length es + 3 < n
    → Woken ticks ms es s (wake_from rounds n ticks ms s (first es))
wake_from-Woken [] zero n ticks ms s rbt known many fuel = absurd (omega arith)
wake_from-Woken (x ∷ es) zero n ticks ms s rbt known many fuel = absurd (omega arith)
wake_from-Woken [] (suc rounds) n ticks ms s rbt known many fuel = record {
  done = s;
  gone = [];
  left_over = [];
  runs = wake_empty rounds n ticks ms s;
  split = refl;
  holds = rbt;
  stops = tt;
  due = tt;
  roused = tt;
  others = λ q a. (refl, refl);
  ready_stays = λ q r. (refl, refl);
}
wake_from-Woken ((x, k) ∷ es) (suc rounds) n ticks ms s rbt known many fuel =
    let real =
      (subst (All (λ (e : ℕ × ℕ). e.0 ≢ 0)) rbt.same
        (entries-real s.tree.nodes 0 18446744073709551616 0 rbt.tree rbt.holds.here)).0 in
    elim (Bool-cases (waits ticks ms s x)) [
      | inl e ↦ record {
        done = s;
        gone = [];
        left_over = (x, k) ∷ es;
        runs = wake_stop rounds n ticks ms s x real e;
        split = refl;
        holds = rbt;
        stops = Stops-here ticks ms s x k es e;
        due = tt;
        roused = tt;
        others = λ q a. (refl, refl);
        ready_stays = λ q r. (refl, refl);
      }
      | inr e ↦
          let (tree, runs, good, values) = delete_least n s.tree x k es rbt (omega arith) in
          let next = record (woken s x) { tree = tree } in
          let least = rbt_minimum-first n tree es good (omega arith) in
          let now = woken-Step x s known in
          let step : Step x s next = record {
            others = now.others;
            ready_stays = now.ready_stays;
            roused = now.roused;
            known = now.known;
          } in
          let rest =
            wake_from-Woken es rounds n ticks ms next good now.known (omega arith) (omega arith) in
          let same = woken-sleepers x s in
          record {
            done = rest.done;
            gone = (x, k) ∷ rest.gone;
            left_over = rest.left_over;
            runs =
                wake_on rounds n ticks ms s x (first es) next real e
                  (drop-some n x (woken s x) s.tree tree (woken-tree s x) runs) least
                ∙ rest.runs;
            split = ap (λ (z : List (ℕ × ℕ)). (x, k) ∷ z) rest.split;
            holds = rest.holds;
            stops = rest.stops;
            due = (
              due_here ticks ms s x e,
              All-map rest.gone (λ y. due_before s next values same ticks ms (y.0)) rest.due,
            );
            roused = (
              roused_first s next values same rest.done x step rest.ready_stays,
              All-map rest.gone
                  (λ y. roused_later s next values same rest.done x step rest.ready_stays (y.0))
                  rest.roused,
            );
            others = λ q a.
                let (first_same, first_node) = step.others q (a.0) in
                let (then_same, then_node) =
                  rest.others q
                    (All-map rest.gone (λ y. other_after s next values same q (y.0)) (a.1)) in
                (then_same ∙ first_same, then_node ∙ first_node);
            ready_stays = stays_from s next values same rest.done x step rest.ready_stays;
          }
    ]

-- If the sleepers are in a red-black tree and process_tree finds every process that sleeps, with
-- more rounds than sleepers and fuel for four more, wake_up returns. A front part of the entries
-- has left the tree, which is still a red-black tree with a black root, and the first entry that
-- is left, if any, has a sleeper that is not due. Each entry that is gone had no sleeper, or one
-- that was due; the sleeper's process, if it was asleep, is ready and has no tree node any more.
-- The state of every process that no such entry leads to, and its tree node, are as before, and so
-- are those of a ready process.
pub wake_up-Woken :
    (es : List (ℕ × ℕ)) (rounds n ticks ms : ℕ) (s : State)
    → IsRbt s.tree es
    → Known s
    → length es < rounds
    → length es + 3 < n
    → Woken ticks ms es s (wake_up rounds n ticks ms s)
unfolding wake_up
wake_up-Woken es rounds n ticks ms s rbt known many fuel =
    rw (rbt_minimum-first n s.tree es rbt (omega arith), wake_up)
      (wake_from-Woken es rounds n ticks ms s rbt known many fuel)
