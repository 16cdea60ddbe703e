-- ===== src/ProcSleep/Lost.antt =====
-- Two processes that sleep until the same tick.
use balrog_os.Prelude.{
  ℕ, ◌<◌, ◌≡◌, refl, ◌≢◌, ◌∙◌, arith, ◌∷◌, [], List, length, some, inl, inr, Bool-cases, ==_iff,
  suc, ◌==◌, All,
}
use balrog_os.Rbt.{Rbt, Nodes, put}
use balrog_os.Rbt.Shape.{Tree, leaf, node, IsTree}
use balrog_os.Rbt.Locate.{rbt_insert-found}
use balrog_os.Rbt.Fixup.{IsRbt}
use balrog_os.Rbt.Order.{lookup}
use balrog_os.ProcSleep.{State, sleep, slept, get_tree_key, set_value}

-- The nodes of the tree none of which has this sleeper.
abbrev pub NoNodeOf : ℕ → Rbt → List (ℕ × ℕ) → Type 0
NoNodeOf slpr t es = All (λ (e : ℕ × ℕ). (t.nodes (e.0)).value ≢ slpr) es

fields :
    (x v : ℕ) (h : Nodes) (a : ℕ)
    → let now = put x (record (h x) { value = v }) h a in
      (now.key ≡ (h a).key)
      × (now.red ≡ (h a).red)
      × (now.parent ≡ (h a).parent)
      × (now.low ≡ (h a).low)
      × (now.high ≡ (h a).high)
unfolding put
fields x v h a = ground arith

newest_value : (x v : ℕ) (t : Rbt) → ((set_value x v t).nodes x).value ≡ v
unfolding put
newest_value x v t = ground arith

other_value :
    (x v old : ℕ) (t : Rbt) (a : ℕ)
    → v ≢ old
    → (a ≢ x → (t.nodes a).value ≢ old)
    → ((set_value x v t).nodes a).value ≢ old
unfolding put
other_value x v old t a ne only = elim (Bool-cases (a == x)) [
  | inl e ↦ rw e ne
  | inr e ↦ rw e (only (λ same. absurd (let is = (==_iff a x).1 same in cc)))
]

key_fits : (sec msec : ℕ) → get_tree_key sec msec < 18446744073709551616
unfolding get_tree_key
key_fits sec msec = omega arith

-- A store of a value leaves the tree as it is.
tree_value :
    (x v : ℕ) (h : Nodes) (lo hi up : ℕ) (s : Tree)
    → IsTree h lo hi up s
    → IsTree (put x (record (h x) { value = v }) h) lo hi up s
tree_value x v h lo hi up leaf f = tt
tree_value x v h lo hi up (node l a k c r) (held, from, to, fl, fr) =
    let at = fields x v h a in
    (
      record {
        real = held.real;
        key_is = at.0 ∙ held.key_is;
        red_is = at.1 ∙ held.red_is;
        parent_is = at.2 ∙ held.parent_is;
        low_is = at.3 ∙ held.low_is;
        high_is = at.4 ∙ held.high_is;
      },
      from,
      to,
      tree_value x v h lo k a l fl,
      tree_value x v h (suc k) hi a r fr,
    )

IsRbt-value : (x v : ℕ) (t : Rbt) (es : List (ℕ × ℕ)) → IsRbt t es → IsRbt (set_value x v t) es
IsRbt-value x v t es rbt = record {
  tree = rbt.tree;
  holds = record {
    around = rbt.holds.around;
    here = tree_value x v t.nodes 0 18446744073709551616 0 rbt.tree rbt.holds.here;
  };
  blacks = rbt.blacks;
  colors = rbt.colors;
  same = rbt.same;
}

-- What sleep leaves where another process sleeps until the same tick.
pub record Shares (n fresh slpr sec msec proc x : ℕ) (s : State) (es : List (ℕ × ℕ)) : Type 0 where
  pub done : State
  pub runs : sleep n fresh slpr sec msec proc s ≡ some done
  pub holds : IsRbt done.tree es
  pub newest : (done.tree.nodes x).value ≡ slpr
  pub lost : NoNodeOf ((s.tree.nodes x).value) done.tree es

others :
    (x slpr old : ℕ) (t : Rbt) (es : List (ℕ × ℕ))
    → slpr ≢ old
    → All (λ (e : ℕ × ℕ). e.0 ≢ x → (t.nodes (e.0)).value ≢ old) es
    → NoNodeOf old (set_value x slpr t) es
others x slpr old t [] ne only = tt
others x slpr old t (e ∷ es) ne only =
    (other_value x slpr old t (e.0) ne (only.0), others x slpr old t es ne (only.1))

-- If the sleepers are in a red-black tree, with more fuel than it has nodes, and the tick that a
-- process sleeps until is the key of a node, sleep with a new sleeper adds no entry, and that node
-- leads to the new sleeper; if no other node led to the sleeper it led to, no node of the tree
-- leads to that one any more.
pub sleep-Shares :
    (n fresh slpr sec msec proc x : ℕ) (s : State) (es : List (ℕ × ℕ))
    → IsRbt s.tree es
    → length es < n
    → lookup (get_tree_key sec msec) es ≡ some x
    → slpr ≢ (s.tree.nodes x).value
    → All (λ (e : ℕ × ℕ). e.0 ≢ x → (s.tree.nodes (e.0)).value ≢ (s.tree.nodes x).value) es
    → Shares n fresh slpr sec msec proc x s es
unfolding sleep slept
sleep-Shares n fresh slpr sec msec proc x s es rbt fuel is ne only =
    let inserted =
      rbt_insert-found n s.tree (get_tree_key sec msec) fresh x es rbt fuel (key_fits sec msec)
        is in
    record {
      done = slept slpr sec msec proc x s.tree s;
      runs = rw (inserted, sleep) refl;
      holds = IsRbt-value x slpr s.tree es rbt;
      newest = newest_value x slpr s.tree;
      lost = others x slpr ((s.tree.nodes x).value) s.tree es ne only;
    }
