-- ===== src/Process/Ring.antt =====
-- The ready list is a ring of processes in two directions.
use mathlib.Core.Path.{subst}
use balrog_os.Prelude.{
  All-front, All-imp, ℕ, ◌<◌, ◌≡◌, ◌≢◌, sym, ◌∙◌, true, List, [], ◌∷◌, ◌++◌, All, length,
}
use balrog_os.Process.{Processes, Sched, in_ring}
use balrog_os.Process.Chain.{
  Rel, Chain, Chain-trim, Chain-snoc, last-snoc, Ring, last, init, init-last, NotIn, NotIn-init,
  Distinct,
}

abbrev pub Next : Processes → Rel
Next procs x y = (procs x).next ≡ y

abbrev pub Prev : Processes → Rel
Prev procs x y = (procs y).prev ≡ x

abbrev pub Ends : (head tail : ℕ) → List ℕ → Type 0
Ends head tail [] = (head ≡ 0) × (tail ≡ 0)
Ends head tail (p ∷ ps) = (head ≡ p) × (tail ≡ last p ps)

-- The ready list holds these processes in this order, all of them ready or running.
pub record IsRing (s : Sched) (ps : List ℕ) : Type 0 where
  pub size_is : s.size ≡ length ps
  pub fits : length ps < 4294967296
  pub ends : Ends s.head s.tail ps
  pub real : NotIn 0 ps
  pub distinct : Distinct ps
  pub nexts : Ring (Next s.procs) ps
  pub prevs : Ring (Prev s.procs) ps
  pub states : All (λ a. in_ring ((s.procs a).state) ≡ true) ps

Next-frame :
    (procs procs' : Processes) (xs : List ℕ) (t : ℕ)
    → All (λ a. (procs' a).next ≡ (procs a).next) xs
    → Chain (Next procs) (xs ++ (t ∷ []))
    → Chain (Next procs') (xs ++ (t ∷ []))
Next-frame procs procs' [] t same h = tt
Next-frame procs procs' (x ∷ []) t same h = (same.0 ∙ h.0, tt)
Next-frame procs procs' (x ∷ y ∷ xs) t same h =
    (same.0 ∙ h.0, Next-frame procs procs' (y ∷ xs) t (same.1) (h.1))

Prev-frame :
    (procs procs' : Processes) (x : ℕ) (xs : List ℕ)
    → All (λ a. (procs' a).prev ≡ (procs a).prev) xs
    → Chain (Prev procs) (x ∷ xs)
    → Chain (Prev procs') (x ∷ xs)
Prev-frame procs procs' x [] same h = tt
Prev-frame procs procs' x (y ∷ xs) same h =
    (same.0 ∙ h.0, Prev-frame procs procs' y xs (same.1) (h.1))

All-both : (P Q : ℕ → Type 0) (xs : List ℕ) → All P xs → All Q xs → All (λ x. P x × Q x) xs
All-both P Q [] h k = tt
All-both P Q (x ∷ xs) h k = ((h.0, k.0), All-both P Q xs (h.1) (k.1))

-- `t` and `q` become neighbours, and nothing else changes.
pub record Joins (t q : ℕ) (procs procs' : Processes) : Type 0 where
  pub next_set : (procs' t).next ≡ q
  pub prev_set : (procs' q).prev ≡ t
  pub next_same : (a : ℕ) → a ≢ t → (procs' a).next ≡ (procs a).next
  pub prev_same : (a : ℕ) → a ≢ q → (procs' a).prev ≡ (procs a).prev

-- Without its first process, the rest of a ring is one.
pub Ring-cut :
    (p q : ℕ) (r : List ℕ) (procs procs' : Processes)
    → Distinct (q ∷ r)
    → Joins (last q r) q procs procs'
    → Ring (Next procs) (p ∷ q ∷ r)
    → Ring (Prev procs) (p ∷ q ∷ r)
    → Ring (Next procs') (q ∷ r) × Ring (Prev procs') (q ∷ r)
Ring-cut p q r procs procs' distinct joins nexts prevs =
    let t = last q r in
    let split = init-last q r in
    let open_nexts : Chain (Next procs) (init q r ++ (t ∷ [])) =
      subst (Chain (Next procs)) split (Chain-trim (Next procs) q r p (nexts.1)) in
    let open_prevs : Chain (Prev procs) (q ∷ r) = Chain-trim (Prev procs) q r p (prevs.1) in
    let nexts' =
      Next-frame procs procs' (init q r) t
        (All-imp _ _ (init q r) joins.next_same (NotIn-init q r distinct)) open_nexts in
    let prevs' =
      Prev-frame procs procs' q r (All-imp _ _ r joins.prev_same (distinct.0)) open_prevs in
    (
      Chain-snoc (Next procs') q r q (subst (Chain (Next procs')) (sym split) nexts')
          joins.next_set,
      Chain-snoc (Prev procs') q r q prevs' joins.prev_set,
    )

-- A new process `n` between the last process of a ring and the first.
pub record Inserts (h t n : ℕ) (procs procs' : Processes) : Type 0 where
  pub next_last : (procs' t).next ≡ n
  pub next_new : (procs' n).next ≡ h
  pub prev_new : (procs' n).prev ≡ t
  pub prev_first : (procs' h).prev ≡ n
  pub next_same : (a : ℕ) → a ≢ t → a ≢ n → (procs' a).next ≡ (procs a).next
  pub prev_same : (a : ℕ) → a ≢ h → a ≢ n → (procs' a).prev ≡ (procs a).prev

pub Ring-insert :
    (h : ℕ) (r : List ℕ) (n : ℕ) (procs procs' : Processes)
    → Distinct (h ∷ r)
    → NotIn n (h ∷ r)
    → Inserts h (last h r) n procs procs'
    → Ring (Next procs) (h ∷ r)
    → Ring (Prev procs) (h ∷ r)
    → Ring (Next procs') ((h ∷ r) ++ (n ∷ [])) × Ring (Prev procs') ((h ∷ r) ++ (n ∷ []))
Ring-insert h r n procs procs' distinct new inserts nexts prevs =
    let t = last h r in
    let split = init-last h r in
    let new_init : NotIn n (init h r) =
      All-front _ (init h r) (t ∷ []) (subst (NotIn n) split new) in
    let nexts' : Chain (Next procs') (init h r ++ (t ∷ [])) =
      Next-frame procs procs' (init h r) t
        (All-imp _ _ (init h r) (λ a e. inserts.next_same a (e.0) (e.1))
          (All-both _ _ (init h r) (NotIn-init h r distinct) new_init))
        (subst (Chain (Next procs)) split (Chain-trim (Next procs) h r h nexts)) in
    let prevs' =
      Prev-frame procs procs' h r
        (All-imp _ _ r (λ a e. inserts.prev_same a (e.0) (e.1))
          (All-both _ _ r (distinct.0) (new.1)))
        (Chain-trim (Prev procs) h r h prevs) in
    let close = λ (R : Rel) (c : Chain R (h ∷ r)) (e : R t n) (e' : R n h).
      Chain-snoc R h (r ++ (n ∷ [])) h (Chain-snoc R h r n c e)
        (subst (λ x. R x h) (sym (last-snoc h r n)) e') in
    (
      close (Next procs') (subst (Chain (Next procs')) (sym split) nexts') inserts.next_last
          inserts.next_new,
      close (Prev procs') prevs' inserts.prev_new inserts.prev_first,
    )
