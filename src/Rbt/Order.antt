-- ===== src/Rbt/Order.antt =====
-- The entries of a tree are in the order of their keys: a sorted list is what rbt_insert and
-- rbt_search work on.
use balrog_os.Prelude.{
  ℕ, suc, ◌≤◌, ◌<◌, ◌≡◌, refl, false, ap, arith, Option, none, some, List, [], ◌∷◌, ◌++◌, All,
  All-append, All-imp, ltb, ◌==◌, if◌then◌else◌,
}
use balrog_os.Rbt.{left, right, Nodes}
use balrog_os.Rbt.Shape.{Tree, leaf, node, Ctx, top, under, entries, IsTree, IsCtx, lo_of, hi_of}
use balrog_os.Rbt.Place.{before, after}

-- The node of a key in a list of entries.
abbrev pub lookup : ℕ → List (ℕ × ℕ) → Option ℕ
lookup key [] = none
lookup key (x ∷ xs) = if x.1 == key then some (x.0) else lookup key xs

-- A new entry at its place in a sorted list, unless the key is there.
abbrev pub insert_entry : (a key : ℕ) → List (ℕ × ℕ) → List (ℕ × ℕ)
insert_entry a key [] = (a, key) ∷ []
insert_entry a key (x ∷ xs) =
    if x.1 == key
    then x ∷ xs
    else if ltb key (x.1)
    then (a, key) ∷ (x ∷ xs)
    else x ∷ insert_entry a key xs

abbrev pub Below : ℕ → List (ℕ × ℕ) → Type 0
Below key xs = All (λ (x : ℕ × ℕ). x.1 < key) xs

abbrev pub Above : ℕ → List (ℕ × ℕ) → Type 0
Above key xs = All (λ (x : ℕ × ℕ). key ≤ x.1) xs

pub tree-Below : (h : Nodes) (lo hi up : ℕ) (s : Tree) → IsTree h lo hi up s → Below hi (entries s)
tree-Below h lo hi up leaf f = tt
tree-Below h lo hi up (node l a k c r) (held, from, to, fl, fr) =
    All-append _ (entries l) ((a, k) ∷ entries r)
      (All-imp _ _ (entries l) (λ x p. let lt : x.1 < k = p in omega arith)
        (tree-Below h lo k a l fl))
      (to, tree-Below h (suc k) hi a r fr)

pub tree-Above : (h : Nodes) (lo hi up : ℕ) (s : Tree) → IsTree h lo hi up s → Above lo (entries s)
tree-Above h lo hi up leaf f = tt
tree-Above h lo hi up (node l a k c r) (held, from, to, fl, fr) =
    All-append _ (entries l) ((a, k) ∷ entries r) (tree-Above h lo k a l fl) (
      from,
      All-imp _ _ (entries r) (λ x p. let le : suc k ≤ x.1 = p in omega arith)
          (tree-Above h (suc k) hi a r fr),
    )

pub before-Below :
    (h : Nodes) (root p : ℕ) (c : Ctx) → IsCtx h root p c → Below (lo_of c) (before c)
before-Below h root p top f = tt
before-Below h root p (under left a k c sib rest) (_, _, _, _, f) = before-Below h root a rest f
before-Below h root p (under right a k c sib rest) (_, from, _, fs, f) =
    All-append _ (before rest) (entries sib ++ ((a, k) ∷ []))
      (All-imp _ _ (before rest) (λ x q. let lt : x.1 < lo_of rest = q in omega arith)
        (before-Below h root a rest f))
      (All-append _ (entries sib) ((a, k) ∷ [])
        (All-imp _ _ (entries sib) (λ x q. let lt : x.1 < k = q in omega arith)
          (tree-Below h (lo_of rest) k a sib fs))
        (omega arith, tt))

pub after-Above : (h : Nodes) (root p : ℕ) (c : Ctx) → IsCtx h root p c → Above (hi_of c) (after c)
after-Above h root p top f = tt
after-Above h root p (under left a k c sib rest) (_, _, to, fs, f) = (
  omega arith,
  All-append _ (entries sib) (after rest)
      (All-imp _ _ (entries sib) (λ x q. let le : suc k ≤ x.1 = q in omega arith)
        (tree-Above h (suc k) (hi_of rest) a sib fs))
      (All-imp _ _ (after rest) (λ x q. let le : hi_of rest ≤ x.1 = q in omega arith)
        (after-Above h root a rest f)),
)
after-Above h root p (under right a k c sib rest) (_, _, _, _, f) = after-Above h root a rest f

pub insert_entry-new :
    (a key : ℕ) (xs ys : List (ℕ × ℕ))
    → Below key xs
    → Above (suc key) ys
    → insert_entry a key (xs ++ ys) ≡ xs ++ ((a, key) ∷ ys)
insert_entry-new a key [] [] low high = refl
insert_entry-new a key [] (y ∷ ys) low high = let lt : suc key ≤ y.1 = high.0 in ground arith
insert_entry-new a key (x ∷ xs) ys low high =
    let lt : x.1 < key = low.0 in
    let ne : (x.1 == key) ≡ false = ground arith in
    let no : ltb key (x.1) ≡ false = ground arith in
    rw (ne, no) (ap (λ (z : List (ℕ × ℕ)). x ∷ z) (insert_entry-new a key xs ys (low.1) high))

pub insert_entry-old :
    (a b key : ℕ) (xs ys : List (ℕ × ℕ))
    → Below key xs
    → insert_entry a key (xs ++ ((b, key) ∷ ys)) ≡ xs ++ ((b, key) ∷ ys)
insert_entry-old a b key [] ys low = ground arith
insert_entry-old a b key (x ∷ xs) ys low =
    let lt : x.1 < key = low.0 in
    let ne : (x.1 == key) ≡ false = ground arith in
    let no : ltb key (x.1) ≡ false = ground arith in
    rw (ne, no) (ap (λ (z : List (ℕ × ℕ)). x ∷ z) (insert_entry-old a b key xs ys (low.1)))

pub lookup-found :
    (b key : ℕ) (xs ys : List (ℕ × ℕ)) → Below key xs → lookup key (xs ++ ((b, key) ∷ ys)) ≡ some b
lookup-found b key [] ys low = ground arith
lookup-found b key (x ∷ xs) ys low =
    let lt : x.1 < key = low.0 in
    let ne : (x.1 == key) ≡ false = ground arith in rw ne (lookup-found b key xs ys (low.1))

pub lookup-Above : (key : ℕ) (ys : List (ℕ × ℕ)) → Above (suc key) ys → lookup key ys ≡ none
lookup-Above key [] high = refl
lookup-Above key (y ∷ ys) high =
    let lt : suc key ≤ y.1 = high.0 in
    let ne : (y.1 == key) ≡ false = ground arith in rw ne (lookup-Above key ys (high.1))

pub lookup-none :
    (key : ℕ) (xs ys : List (ℕ × ℕ))
    → Below key xs
    → Above (suc key) ys
    → lookup key (xs ++ ys) ≡ none
lookup-none key [] ys low high = lookup-Above key ys high
lookup-none key (x ∷ xs) ys low high =
    let lt : x.1 < key = low.0 in
    let ne : (x.1 == key) ≡ false = ground arith in rw ne (lookup-none key xs ys (low.1) high)
