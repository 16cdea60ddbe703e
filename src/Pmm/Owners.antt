-- ===== src/Pmm/Owners.antt =====
-- No page has two owners: what pmm_alloc hands out is not in use.
use mathlib.Core.Path.{subst}
use balrog_os.Prelude.{
  ℕ, ◌+◌, ◌≤◌, ◌<◌, ◌≡◌, refl, ◌≢◌, inl, inr, Bool, true, some, List, [], ◌∷◌, ◌++◌, arith, ◌==◌,
  if◌then◌else◌, length, ==_refl,
}
use balrog_os.Pmm.{p2v, v2p, Pmm, pmm_free, Alloc, alloc_from, pmm_alloc}
use balrog_os.Pmm.Front.{FromFront, alloc_front-FromFront}

-- How often a page is among the owned ones.
abbrev pub count : ℕ → List ℕ → ℕ
count x [] = 0
count x (y ∷ ys) = (if y == x then 1 else 0) + count x ys

-- How often a page is in the queue, which holds virtual addresses.
abbrev pub queued : ℕ → List ℕ → ℕ
queued x [] = 0
queued x (y ∷ ys) = (if v2p y == x then 1 else 0) + queued x ys

-- The owned pages without one copy of `a`.
abbrev pub remove : ℕ → List ℕ → List ℕ
remove a [] = []
remove a (y ∷ ys) = if y == a then ys else y ∷ remove a ys

-- Above this address V2P takes a linear address for one of the kernel's text.
abbrev pub window : ℕ
window = 0x7F80000000

-- Every page has one place, owned or queued; all of those lie below the front and above 0.
pub record Inv (s : Pmm) (owned : List ℕ) : Type 0 where
  pub apart : (x : ℕ) → count x owned + queued x s.last_free_q ≤ 1
  pub below :
      (x : ℕ)
      → 0 < count x owned + queued x s.last_free_q
      → (0 < x) × (x < s.next_addr) × (x < window)
  pub front : 0 < s.next_addr
  pub top : s.pmm_top_addr ≤ window

pub v2p-p2v : (p : ℕ) → p < window → v2p (p2v p) ≡ p
unfolding v2p p2v
v2p-p2v p h = ground arith

queued-append : (x a : ℕ) (q : List ℕ) → queued x (q ++ (a ∷ [])) ≡ queued x q + queued x (a ∷ [])
queued-append x a [] = omega arith
queued-append x a (y ∷ ys) = ground (arith, queued-append x a ys)

count-remove :
    (x a : ℕ) (owned : List ℕ)
    → 0 < count a owned
    → count x (remove a owned) + (if a == x then 1 else 0) ≡ count x owned
count-remove x a [] h = absurd (omega arith)
count-remove x a (y ∷ ys) h = ground (arith, count-remove x a ys)

-- An owner gives a page back: the queue has it, or nobody if queue_enqueue got no node.
pub pmm_free-Inv :
    (node : Bool) (addr : ℕ) (s : Pmm) (owned : List ℕ)
    → Inv s owned
    → 0 < count addr owned
    → Inv (pmm_free node addr s) (remove addr owned)
unfolding pmm_free
pmm_free-Inv node addr s owned inv mine =
    let here = inv.below addr (omega arith) in
    let back = v2p-p2v addr (here.2) in
    record {
      apart = λ x. ground (
        arith,
        back,
        inv.apart x,
        count-remove x addr owned mine,
        queued-append x (p2v addr) s.last_free_q,
      );
      below = λ x h. ground (
        arith,
        back,
        inv.below x,
        count-remove x addr owned mine,
        queued-append x (p2v addr) s.last_free_q,
      );
      front = ground (arith, inv.front);
      top = ground (arith, inv.top);
    }

-- The answer of pmm_alloc: 0 with nothing handed out, or a page that nobody owns.
pub data Handed (owned : List ℕ) (a : Alloc) : Type 0 where
  nothing : a.0 ≡ 0 → Inv (a.1) owned → Handed owned a
  page : a.0 ≢ 0 → count (a.0) owned ≡ 0 → Inv (a.1) ((a.0) ∷ owned) → Handed owned a

front-Handed : (s : Pmm) (owned : List ℕ) (a : Alloc) → Inv s owned → FromFront s a → Handed owned a
front-Handed s owned a inv f = elim (f.page) [
  | inl failed ↦ nothing failed (record {
    apart = λ x. rw (f.same_queue) (inv.apart x);
    below = λ x. rw (f.same_queue) (λ h. ground (arith, inv.below x h, f.grows));
    front = omega (arith, inv.front, f.grows);
    top = omega (arith, inv.top, f.same_top);
  })
  | inr (low, next, top, out) ↦
      let fresh : count (a.0) owned + queued (a.0) s.last_free_q ≡ 0 =
        grind (arith, inv.below (a.0)) in
      page (omega (arith, inv.front)) (omega arith) (record {
        apart = λ x. rw (f.same_queue) (ground (arith, fresh, inv.apart x));
        below = λ x. rw (f.same_queue) (λ h. ground (arith, inv.below x, inv.top, inv.front));
        front = omega (arith, inv.front, f.grows);
        top = omega (arith, inv.top, f.same_top);
      })
]

alloc_from-Handed :
    (fuel : ℕ) (q : List ℕ) (s : Pmm) (owned : List ℕ)
    → s.last_free_q ≡ q
    → Inv s owned
    → length s.reserved < fuel
    → (a : Alloc) × (alloc_from fuel q s ≡ some a) × Handed owned a
unfolding alloc_from
alloc_from-Handed fuel [] s owned e inv enough =
    let (a, done, f) = alloc_front-FromFront fuel s enough in
    (a, done, front-Handed s owned a inv f)
alloc_from-Handed fuel (addr ∷ q) s owned e inv enough =
    let apart : (x : ℕ) → count x owned + queued x (addr ∷ q) ≤ 1 = λ x. rw e at (inv.apart x) in
    let below : (x : ℕ)
        → 0 < count x owned + queued x (addr ∷ q)
        → (0 < x) × (x < s.next_addr) × (x < window) =
      λ x. rw e at (inv.below x) in
    let one : (v2p addr == v2p addr) ≡ true = ==_refl (v2p addr) in
    (
      _,
      refl,
      page (ground (arith, below (v2p addr))) (ground (arith, apart (v2p addr))) (record {
        apart = λ x. ground (arith, apart x);
        below = λ x h. ground (arith, below x);
        front = inv.front;
        top = inv.top;
      }),
    )

-- With more fuel than there are reserved ranges pmm_alloc returns, and what it hands out is 0 or a
-- page that nobody owns; the caller's ownership keeps the invariant.
pub pmm_alloc-Handed :
    (fuel : ℕ) (s : Pmm) (owned : List ℕ)
    → Inv s owned
    → length s.reserved < fuel
    → (a : Alloc) × (pmm_alloc fuel s ≡ some a) × Handed owned a
unfolding pmm_alloc
pmm_alloc-Handed fuel s owned inv enough =
    alloc_from-Handed fuel s.last_free_q s owned refl inv enough

-- The states that clients reach from `start` by allocating, and by freeing pages that they own.
pub data Reach (start : Pmm) : Pmm → List ℕ → Type 0 where
  begin : Reach start start []
  failed :
      {s t : Pmm} {owned : List ℕ} (fuel : ℕ)
      → Reach start s owned
      → length s.reserved < fuel
      → pmm_alloc fuel s ≡ some (0, t)
      → Reach start t owned
  got :
      {s t : Pmm} {owned : List ℕ} (fuel p : ℕ)
      → Reach start s owned
      → length s.reserved < fuel
      → pmm_alloc fuel s ≡ some (p, t)
      → p ≢ 0
      → Reach start t (p ∷ owned)
  freed :
      {s : Pmm} {owned : List ℕ} (node : Bool) (addr : ℕ)
      → Reach start s owned
      → 0 < count addr owned
      → Reach start (pmm_free node addr s) (remove addr owned)

Handed-nothing : {owned : List ℕ} {a : Alloc} → Handed owned a → a.0 ≡ 0 → Inv (a.1) owned
Handed-nothing (nothing e inv) z = inv
Handed-nothing (page ne out inv) z = absurd (ne z)

Handed-page :
    {owned : List ℕ} {a : Alloc}
    → Handed owned a
    → a.0 ≢ 0
    → (count (a.0) owned ≡ 0) × Inv (a.1) ((a.0) ∷ owned)
Handed-page (nothing e inv) ne = absurd (ne e)
Handed-page (page _ out inv) ne = (out, inv)

pub answer-Handed :
    (fuel : ℕ) (s : Pmm) (owned : List ℕ) (a : Alloc)
    → Inv s owned
    → length s.reserved < fuel
    → pmm_alloc fuel s ≡ some a
    → Handed owned a
answer-Handed fuel s owned a inv enough e =
    let (b, done, h) = pmm_alloc-Handed fuel s owned inv enough in
    let same : b ≡ a = cc in subst (λ x. Handed owned x) same h

pub Reach-Inv : {start s : Pmm} {owned : List ℕ} → Inv start [] → Reach start s owned → Inv s owned
Reach-Inv inv begin = inv
Reach-Inv inv (failed {s} {t} {owned} fuel r enough e) =
    Handed-nothing (answer-Handed fuel s owned (0, t) (Reach-Inv inv r) enough e) refl
Reach-Inv inv (got {s} {t} {owned} fuel p r enough e ne) =
    (Handed-page (answer-Handed fuel s owned (p, t) (Reach-Inv inv r) enough e) ne).1
Reach-Inv inv (freed {s} {owned} node addr r mine) =
    pmm_free-Inv node addr s owned (Reach-Inv inv r) mine

-- Over any sequence of allocations, and of frees of pages that the client owns, from a state with
-- an invariant and no owned page, pmm_alloc never hands out a page that is owned.
pub never_twice :
    {start s t : Pmm} {owned : List ℕ} (fuel p : ℕ)
    → Inv start []
    → Reach start s owned
    → length s.reserved < fuel
    → pmm_alloc fuel s ≡ some (p, t)
    → p ≢ 0
    → count p owned ≡ 0
never_twice {s} {t} {owned} fuel p inv r enough e ne =
    (Handed-page (answer-Handed fuel s owned (p, t) (Reach-Inv inv r) enough e) ne).0
