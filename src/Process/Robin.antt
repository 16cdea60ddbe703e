-- ===== src/Process/Robin.antt =====
-- The timer's calls of gothmog_schedule go round the ready list.
use mathlib.Core.Path.{subst}
use balrog_os.Prelude.{
  All-imp, some-inj, ℕ, zero, suc, ◌+◌, ◌-◌, ◌≤◌, ◌<◌, ◌≡◌, refl, ◌≢◌, ap, sym, ◌∙◌, inl, inr,
  Bool-cases, some, List, [], ◌∷◌, ◌++◌, All, arith, length, get_elem?, ltb,
}
use balrog_os.Process.{Sched, set_exec, switch_to, gothmog_schedule}
use balrog_os.Process.Chain.{Rel, Chain, Ring}
use balrog_os.Process.Ring.{Next, IsRing}

-- That many ticks.
unfoldable pub ticks : ℕ → Sched → Sched
unfolding gothmog_schedule
ticks zero s = s
ticks (suc k) s = ticks k (gothmog_schedule s)

Chain-imp : (R S : Rel) (l : List ℕ) → ((x y : ℕ) → R x y → S x y) → Chain R l → Chain S l
Chain-imp R S [] f h = tt
Chain-imp R S (x ∷ []) f h = tt
Chain-imp R S (x ∷ y ∷ l) f h = (f x y (h.0), Chain-imp R S (y ∷ l) f (h.1))

pub Ring-imp : (R S : Rel) (l : List ℕ) → ((x y : ℕ) → R x y → S x y) → Ring R l → Ring S l
Ring-imp R S [] f h = tt
Ring-imp R S (x ∷ xs) f h = Chain-imp R S (x ∷ (xs ++ (x ∷ []))) f h

-- A tick changes which process runs, and what has been run, and nothing else.
pub schedule-links :
    (s : Sched) (a : ℕ)
    → (((gothmog_schedule s).procs a).next ≡ (s.procs a).next)
      × (((gothmog_schedule s).procs a).prev ≡ (s.procs a).prev)
      × (((gothmog_schedule s).procs a).state ≡ (s.procs a).state)
unfolding gothmog_schedule switch_to set_exec
schedule-links s a = (ground arith, ground arith, ground arith)

schedule-ends :
    (s : Sched)
    → ((gothmog_schedule s).head ≡ s.head)
      × ((gothmog_schedule s).tail ≡ s.tail)
      × ((gothmog_schedule s).size ≡ s.size)
unfolding gothmog_schedule switch_to
schedule-ends s = (ground arith, ground arith, ground arith)

pub schedule-IsRing : (s : Sched) (ps : List ℕ) → IsRing s ps → IsRing (gothmog_schedule s) ps
schedule-IsRing s ps ring =
    let (head, tail, size) = schedule-ends s in
    record {
      size_is = size ∙ ring.size_is;
      fits = ring.fits;
      ends = rw (head, tail) ring.ends;
      real = ring.real;
      distinct = ring.distinct;
      nexts = Ring-imp _ _ ps (λ x y e. (schedule-links s x).0 ∙ e) ring.nexts;
      prevs = Ring-imp _ _ ps (λ x y e. (schedule-links s y).1 ∙ e) ring.prevs;
      states = All-imp _ _ ps (λ a e. rw ((schedule-links s a).2) e) ring.states;
    }

pub schedule-current :
    (s : Sched)
    → s.head ≢ 0
    → s.current ≢ 0
    → (gothmog_schedule s).current ≡ (s.procs s.current).next
unfolding gothmog_schedule switch_to
schedule-current s some_ready running = ground arith

Chain-get :
    (R : Rel) (l : List ℕ) (i a b : ℕ)
    → Chain R l
    → get_elem? l i ≡ some a
    → get_elem? l (suc i) ≡ some b
    → R a b
Chain-get R [] i a b h ea eb = absurd (ground arith)
Chain-get R (x ∷ []) i a b h ea eb = absurd (ground arith)
Chain-get R (x ∷ y ∷ l) zero a b h ea eb =
    subst (λ u. R u b) (some-inj ea) (subst (R x) (some-inj eb) (h.0))
Chain-get R (x ∷ y ∷ l) (suc i) a b h ea eb = Chain-get R (y ∷ l) i a b (h.1) ea eb

get-front : (xs ys : List ℕ) (i a : ℕ) → get_elem? xs i ≡ some a → get_elem? (xs ++ ys) i ≡ some a
get-front [] ys i a h = absurd (ground arith)
get-front (x ∷ xs) ys zero a h = h
get-front (x ∷ xs) ys (suc i) a h = get-front xs ys i a h

get-end : (xs : List ℕ) (a : ℕ) → get_elem? (xs ++ (a ∷ [])) (length xs) ≡ some a
get-end [] a = refl
get-end (x ∷ xs) a = get-end xs a

get-All : (P : ℕ → Type 0) (xs : List ℕ) (i a : ℕ) → All P xs → get_elem? xs i ≡ some a → P a
get-All P [] i a h e = absurd (ground arith)
get-All P (x ∷ xs) zero a h e = subst P (some-inj e) (h.0)
get-All P (x ∷ xs) (suc i) a h e = get-All P xs i a (h.1) e

-- One tick: from the process at a place to the one behind it, and from the last one to the first.
tick-next :
    (s : Sched) (h : ℕ) (r : List ℕ) (j b : ℕ)
    → IsRing s (h ∷ r)
    → get_elem? (h ∷ r) j ≡ some s.current
    → get_elem? (h ∷ (r ++ (h ∷ []))) (suc j) ≡ some b
    → (gothmog_schedule s).current ≡ b
tick-next s h r j b ring at_j at_next =
    let some_ready : s.head ≢ 0 = λ e. ring.real.0 (sym (ring.ends.0) ∙ e) in
    let running : s.current ≢ 0 = get-All _ (h ∷ r) j s.current ring.real at_j in
    let here = get-front (h ∷ r) (h ∷ []) j s.current at_j in
    schedule-current s some_ready running
    ∙ Chain-get (Next s.procs) (h ∷ (r ++ (h ∷ []))) j s.current b ring.nexts here at_next

get-some : (xs : List ℕ) (i : ℕ) → i < length xs → (a : ℕ) × (get_elem? xs i ≡ some a)
get-some [] i h = absurd (omega arith)
get-some (x ∷ xs) zero h = (x, refl)
get-some (x ∷ xs) (suc i) h = get-some xs i (omega arith)

get-length : (xs : List ℕ) (i a : ℕ) → get_elem? xs i ≡ some a → i < length xs
get-length [] i a h = absurd (ground arith)
get-length (x ∷ xs) zero a h = omega arith
get-length (x ∷ xs) (suc i) a h = omega (arith, get-length xs i a h)

-- `k` ticks reach the process that is `k` places behind, up to the end of the list.
ticks-forward :
    (k : ℕ) (s : Sched) (h : ℕ) (r : List ℕ) (j i p : ℕ)
    → IsRing s (h ∷ r)
    → j + k ≡ i
    → get_elem? (h ∷ r) j ≡ some s.current
    → get_elem? (h ∷ r) i ≡ some p
    → (ticks k s).current ≡ p
unfolding ticks
ticks-forward zero s h r j i p ring e at_j at_i =
    let same : j ≡ i = omega arith in some-inj (sym at_j ∙ (ap (get_elem? (h ∷ r)) same ∙ at_i))
ticks-forward (suc k) s h r j i p ring e at_j at_i =
    let (b, at_next) = get-some (h ∷ r) (suc j) (omega (arith, get-length (h ∷ r) i p at_i)) in
    let now = tick-next s h r j b ring at_j (get-front (h ∷ r) (h ∷ []) (suc j) b at_next) in
    ticks-forward k (gothmog_schedule s) h r (suc j) i p (schedule-IsRing s (h ∷ r) ring)
      (omega arith) (at_next ∙ ap some (sym now)) at_i

-- As many ticks as lead over the end of the list.
ticks-around :
    (d : ℕ) (s : Sched) (h : ℕ) (r : List ℕ) (j i p : ℕ)
    → IsRing s (h ∷ r)
    → j + d ≡ length r
    → get_elem? (h ∷ r) j ≡ some s.current
    → get_elem? (h ∷ r) i ≡ some p
    → (k : ℕ) × (k ≡ d + 1 + i) × ((ticks k s).current ≡ p)
unfolding ticks
ticks-around zero s h r j i p ring e at_j at_i =
    let j_last : suc j ≡ length (h ∷ r) = omega arith in
    let now =
      tick-next s h r j h ring at_j
        (ap (get_elem? (h ∷ (r ++ (h ∷ [])))) j_last ∙ get-end (h ∷ r) h) in
    (
      suc i,
      omega arith,
      ticks-forward i (gothmog_schedule s) h r 0 i p (schedule-IsRing s (h ∷ r) ring) (omega arith)
          (ap some (sym now)) at_i,
    )
ticks-around (suc d) s h r j i p ring e at_j at_i =
    let (b, at_next) = get-some (h ∷ r) (suc j) (omega arith) in
    let now = tick-next s h r j b ring at_j (get-front (h ∷ r) (h ∷ []) (suc j) b at_next) in
    let (k, count, there) =
      ticks-around d (gothmog_schedule s) h r (suc j) i p (schedule-IsRing s (h ∷ r) ring)
        (omega arith) (at_next ∙ ap some (sym now)) at_i in
    (suc k, omega arith, there)

-- While the process that runs is in the ready list and no process moves, every process of the list
-- runs behind at least one and at most as many ticks as the list has processes.
pub gothmog_schedule-visits :
    (s : Sched) (ps : List ℕ) (j i p : ℕ)
    → IsRing s ps
    → get_elem? ps j ≡ some s.current
    → get_elem? ps i ≡ some p
    → (k : ℕ) × (0 < k) × (k ≤ length ps) × ((ticks k s).current ≡ p)
gothmog_schedule-visits s [] j i p ring at_j at_i = absurd (ground arith)
gothmog_schedule-visits s (h ∷ r) j i p ring at_j at_i =
    let j_in = get-length (h ∷ r) j s.current at_j in
    elim (Bool-cases (ltb j i)) [
      | inl ahead ↦
          let less : j < i = ground arith in
          let i_in = get-length (h ∷ r) i p at_i in
          (
            i - j,
            omega arith,
            omega arith,
            ticks-forward (i - j) s h r j i p ring (omega arith) at_j at_i,
          )
      | inr behind ↦
          let not_less : i ≤ j = ground arith in
          let (k, count, there) =
            ticks-around (length r - j) s h r j i p ring (omega arith) at_j at_i in
          (k, omega arith, omega arith, there)
    ]
