-- ===== src/Process/Chain.antt =====
-- Lists whose neighbours are related, and lists without repetition.
use balrog_os.Prelude.{
  append_assoc, append_nil, All-append, All-front, All-back, ℕ, ◌≡◌, refl, ◌≢◌, ap, sym, List, [],
  ◌∷◌, ◌++◌, All,
}
use mathlib.Core.Path.{subst}

abbrev pub Rel : Type 1
Rel = ℕ → ℕ → Type 0

-- Each element and the one behind it are related.
abbrev pub Chain : Rel → List ℕ → Type 0
Chain R [] = Unit
Chain R (x ∷ []) = Unit
Chain R (x ∷ y ∷ l) = R x y × Chain R (y ∷ l)

module _ (R : Rel) where
  pub Chain-join :
      (xs : List ℕ) (m : ℕ) (ys : List ℕ)
      → Chain R (xs ++ (m ∷ []))
      → Chain R (m ∷ ys)
      → Chain R (xs ++ (m ∷ ys))
  Chain-join [] m ys front back = back
  Chain-join (x ∷ []) m ys front back = (front.0, back)
  Chain-join (x ∷ y ∷ xs) m ys front back = (front.0, Chain-join (y ∷ xs) m ys (front.1) back)

  pub Chain-front :
      (xs : List ℕ) (m : ℕ) (ys : List ℕ) → Chain R (xs ++ (m ∷ ys)) → Chain R (xs ++ (m ∷ []))
  Chain-front [] m ys h = tt
  Chain-front (x ∷ []) m ys h = (h.0, tt)
  Chain-front (x ∷ y ∷ xs) m ys h = (h.0, Chain-front (y ∷ xs) m ys (h.1))

  pub Chain-back : (xs : List ℕ) (m : ℕ) (ys : List ℕ) → Chain R (xs ++ (m ∷ ys)) → Chain R (m ∷ ys)
  Chain-back [] m ys h = h
  Chain-back (x ∷ []) m ys h = h.1
  Chain-back (x ∷ y ∷ xs) m ys h = Chain-back (y ∷ xs) m ys (h.1)

-- A closed chain, from any of its elements.
abbrev pub Ring : Rel → List ℕ → Type 0
Ring R [] = Unit
Ring R (x ∷ xs) = Chain R (x ∷ (xs ++ (x ∷ [])))

pub Ring-rotate : (R : Rel) (xs ys : List ℕ) → Ring R (xs ++ ys) → Ring R (ys ++ xs)
Ring-rotate R [] ys h = subst (Ring R) (sym (append_nil ys)) h
Ring-rotate R (x ∷ xs) [] h = subst (λ l. Ring R (x ∷ l)) (append_nil xs) h
Ring-rotate R (x ∷ xs) (y ∷ ys) h =
    let open_ring : Chain R ((x ∷ xs) ++ (y ∷ (ys ++ (x ∷ [])))) =
      subst (λ l. Chain R (x ∷ l)) (append_assoc xs (y ∷ ys) (x ∷ [])) h in
    let front = Chain-front R (x ∷ xs) y (ys ++ (x ∷ [])) open_ring in
    let back = Chain-back R (x ∷ xs) y (ys ++ (x ∷ [])) open_ring in
    subst (λ l. Chain R (y ∷ l)) (sym (append_assoc ys (x ∷ xs) (y ∷ [])))
      (Chain-join R (y ∷ ys) x (xs ++ (y ∷ [])) back front)

-- The last element, and those in front of it.
abbrev pub last : ℕ → List ℕ → ℕ
last x [] = x
last x (y ∷ ys) = last y ys

abbrev pub init : ℕ → List ℕ → List ℕ
init x [] = []
init x (y ∷ ys) = x ∷ init y ys

pub init-last : (x : ℕ) (xs : List ℕ) → x ∷ xs ≡ init x xs ++ (last x xs ∷ [])
init-last x [] = refl
init-last x (y ∷ ys) = ap (λ l. x ∷ l) (init-last y ys)

module _ (R : Rel) where
  pub Chain-trim : (x : ℕ) (xs : List ℕ) (a : ℕ) → Chain R (x ∷ (xs ++ (a ∷ []))) → Chain R (x ∷ xs)
  Chain-trim x [] a h = tt
  Chain-trim x (y ∷ ys) a h = (h.0, Chain-trim y ys a (h.1))

  pub Chain-snoc :
      (x : ℕ) (xs : List ℕ) (a : ℕ)
      → Chain R (x ∷ xs)
      → R (last x xs) a
      → Chain R (x ∷ (xs ++ (a ∷ [])))
  Chain-snoc x [] a h e = (e, tt)
  Chain-snoc x (y ∷ ys) a h e = (h.0, Chain-snoc y ys a (h.1) e)

  pub Chain-last : (x : ℕ) (xs : List ℕ) (a : ℕ) → Chain R (x ∷ (xs ++ (a ∷ []))) → R (last x xs) a
  Chain-last x [] a h = h.0
  Chain-last x (y ∷ ys) a h = Chain-last y ys a (h.1)

abbrev pub NotIn : ℕ → List ℕ → Type 0
NotIn a xs = All (λ x. x ≢ a) xs

abbrev pub Distinct : List ℕ → Type 0
Distinct [] = Unit
Distinct (x ∷ xs) = NotIn x xs × Distinct xs

pub NotIn-last : (x : ℕ) (xs : List ℕ) (a : ℕ) → NotIn a (x ∷ xs) → last x xs ≢ a
NotIn-last x [] a h = h.0
NotIn-last x (y ∷ ys) a h = NotIn-last y ys a (h.1)

pub NotIn-init : (x : ℕ) (xs : List ℕ) → Distinct (x ∷ xs) → NotIn (last x xs) (init x xs)
NotIn-init x [] h = tt
NotIn-init x (y ∷ ys) h = ((λ e. NotIn-last y ys x (h.0) (sym e)), NotIn-init y ys (h.1))

pub Distinct-snoc : (xs : List ℕ) (a : ℕ) → Distinct xs → NotIn a xs → Distinct (xs ++ (a ∷ []))
Distinct-snoc [] a h k = (tt, tt)
Distinct-snoc (x ∷ xs) a h k =
    (All-append _ xs (a ∷ []) (h.0) ((λ e. k.0 (sym e)), tt), Distinct-snoc xs a (h.1) (k.1))

-- Without the element in the middle, and that element is nowhere else.
pub Distinct-drop :
    (xs : List ℕ) (a : ℕ) (ys : List ℕ)
    → Distinct (xs ++ (a ∷ ys))
    → Distinct (xs ++ ys) × NotIn a (xs ++ ys)
Distinct-drop [] a ys h = (h.1, h.0)
Distinct-drop (x ∷ xs) a ys h =
    let (rest, apart) = Distinct-drop xs a ys (h.1) in
    let behind : All (λ y. y ≢ x) (a ∷ ys) = All-back _ xs (a ∷ ys) (h.0) in
    (
      (All-append _ xs ys (All-front _ xs (a ∷ ys) (h.0)) (behind.1), rest),
      ((λ e. behind.0 (sym e)), apart),
    )

Distinct-insert :
    (xs : List ℕ) (a : ℕ) (ys : List ℕ)
    → Distinct (xs ++ ys)
    → NotIn a xs
    → NotIn a ys
    → Distinct (xs ++ (a ∷ ys))
Distinct-insert [] a ys h front back = (back, h)
Distinct-insert (x ∷ xs) a ys h front back = (
  All-append _ xs (a ∷ ys) (All-front _ xs ys (h.0))
      ((λ e. front.0 (sym e)), All-back _ xs ys (h.0)),
  Distinct-insert xs a ys (h.1) (front.1) back,
)

pub Distinct-rotate : (xs ys : List ℕ) → Distinct (xs ++ ys) → Distinct (ys ++ xs)
Distinct-rotate [] ys h = subst Distinct (sym (append_nil ys)) h
Distinct-rotate (x ∷ xs) ys h =
    Distinct-insert ys x xs (Distinct-rotate xs ys (h.1)) (All-back _ xs ys (h.0))
      (All-front _ xs ys (h.0))

pub last-snoc : (x : ℕ) (xs : List ℕ) (a : ℕ) → last x (xs ++ (a ∷ [])) ≡ a
last-snoc x [] a = refl
last-snoc x (y ∷ ys) a = last-snoc y ys a

pub last-append : (x : ℕ) (xs : List ℕ) (a : ℕ) (ys : List ℕ) → last x (xs ++ (a ∷ ys)) ≡ last a ys
last-append x [] a ys = refl
last-append x (y ∷ xs) a ys = last-append y xs a ys
