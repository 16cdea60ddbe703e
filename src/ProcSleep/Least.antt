-- ===== src/ProcSleep/Least.antt =====
-- rbt_delete of the node with the least key.
use balrog_os.Prelude.{
  ℕ, suc, ◌+◌, ◌<◌, ◌≡◌, refl, ◌≢◌, Bool, false, arith, ◌++◌, ◌∷◌, [], List, length, some, All,
  All-append,
}
use mathlib.Core.Path.{subst}
use balrog_os.Rbt.{Rbt, Nodes}
use balrog_os.Rbt.Shape.{Tree, leaf, node, IsTree, entries}
use balrog_os.Rbt.Fixup.{IsRbt}
use balrog_os.Rbt.Order.{lookup, Below, tree-Below}
use balrog_os.Rbt.Search.{first, first-append}
use balrog_os.Rbt.Delete.{two_children, hand_on, rbt_delete-Deletes}
use balrog_os.Rbt.Remove.{rbt_delete}
use balrog_os.Rbt.Values.{SameValues, rbt_delete-values}

-- Every entry's node is real.
pub entries-real :
    (h : Nodes) (lo hi up : ℕ) (s : Tree)
    → IsTree h lo hi up s
    → All (λ (x : ℕ × ℕ). x.0 ≢ 0) (entries s)
entries-real h lo hi up leaf f = tt
entries-real h lo hi up (node l a k c r) (held, _, _, fl, fr) =
    All-append _ (entries l) ((a, k) ∷ entries r) (entries-real h lo k a l fl)
      (held.real, entries-real h (suc k) hi a r fr)

-- The node of the least key has no left child.
first_low :
    (h : Nodes) (lo hi up : ℕ) (l : Tree) (a k : ℕ) (red : Bool) (r : Tree)
    → IsTree h lo hi up (node l a k red r)
    → (h (first (entries (node l a k red r)))).low ≡ 0
first_low h lo hi up leaf a k red r (held, _, _, _, _) = held.low_is
first_low h lo hi up (node l b j red' s) a k red r (_, _, _, fl, _) =
    rw (first-append (entries l) (b, j) (entries s) ((a, k) ∷ entries r))
      (first_low h lo k a l b j red' s fl)

least_single :
    (s : Tree) (h : Nodes) (lo hi up x k : ℕ) (es : List (ℕ × ℕ))
    → IsTree h lo hi up s
    → entries s ≡ (x, k) ∷ es
    → two_children h x ≡ false
least_single leaf h lo hi up x k es f e = absurd (cc)
least_single (node l a j red r) h lo hi up x k es f e =
    let low =
      subst (λ (z : List (ℕ × ℕ)). (h (first z)).low ≡ 0) e (first_low h lo hi up l a j red r f) in
    rw low refl

-- A least entry is the front of the list.
least_front :
    (x k : ℕ) (es front back : List (ℕ × ℕ))
    → (x, k) ∷ es ≡ front ++ ((x, k) ∷ back)
    → Below k front
    → (front ≡ []) × (back ≡ es)
least_front x k es [] back e low = (refl, cc)
least_front x k es (y ∷ front) back e low =
    let lt : y.1 < k = low.0 in let same : k ≡ y.1 = cc in absurd (omega arith)

lookup_least : (x k : ℕ) (es : List (ℕ × ℕ)) → lookup k ((x, k) ∷ es) ≡ some x
lookup_least x k es = ground arith

-- The node of the least key leaves the tree, and no value moves.
pub delete_least :
    (n : ℕ) (t : Rbt) (x k : ℕ) (es : List (ℕ × ℕ))
    → IsRbt t ((x, k) ∷ es)
    → length es + 4 < n
    → (done : Rbt) × (rbt_delete n t x ≡ some done) × IsRbt done es × SameValues done.nodes t.nodes
delete_least n t x k es rbt fuel =
    let all =
      subst (Below 18446744073709551616) rbt.same
        (tree-Below t.nodes 0 18446744073709551616 0 rbt.tree rbt.holds.here) in
    let d =
      rbt_delete-Deletes n t k x ((x, k) ∷ es) rbt (omega arith) (all.0) (lookup_least x k es) in
    let (front, back) = least_front x k es d.front d.back d.split d.smaller in
    let single =
      least_single rbt.tree t.nodes 0 18446744073709551616 0 x k es rbt.holds.here rbt.same in
    (
      d.done,
      d.runs,
      subst (λ (z : List (ℕ × ℕ)). IsRbt d.done z) back
          (subst (λ (z : List (ℕ × ℕ)). IsRbt d.done (z ++ d.back)) front
            (subst (λ (z : Bool). IsRbt d.done (d.front ++ hand_on z x d.back)) single d.holds)),
      rbt_delete-values n t d.done x single d.runs,
    )
