-- ===== src/Rbt/Colors.antt =====
-- The colors of a red-black tree: no red node below a red one, and as many black nodes on each path.
use balrog_os.Prelude.{
  ℕ, zero, suc, ◌≡◌, refl, Bool, true, false, List, ◌∷◌, ◌++◌, append_assoc, ap, sym,
}
use mathlib.Core.Path.{subst}
use balrog_os.Rbt.{Dir, left, right}
use balrog_os.Rbt.Shape.{Tree, leaf, node, Ctx, top, under, mk, plug, entries}

-- The tree has `n` black nodes on each path; `above` says whether the node above it is red.
abbrev pub Rb : Tree → (above : Bool) → ℕ → Type 0
Rb leaf above n = n ≡ 0
Rb (node l a k true r) above n = (above ≡ false) × Rb l true n × Rb r true n
Rb (node l a k false r) above zero = ⊥
Rb (node l a k false r) above (suc n) = Rb l false n × Rb r false n

abbrev pub head_red : Ctx → Bool
head_red top = false
head_red (under d a k c sib rest) = c

-- There is a node above the place, and it is black.
abbrev pub BlackAbove : Ctx → Type 0
BlackAbove top = ⊥
BlackAbove (under d a k true sib rest) = ⊥
BlackAbove (under d a k false sib rest) = Unit

-- What is around a place for a tree with `n` black nodes on each path.
abbrev pub RbCtx : Ctx → ℕ → Type 0
RbCtx top n = Unit
RbCtx (under d a k true sib rest) n = Rb sib true n × BlackAbove rest × RbCtx rest n
RbCtx (under d a k false sib rest) n = Rb sib false n × RbCtx rest (suc n)

pub Rb-below_black : (s : Tree) (n : ℕ) → Rb s true n → Rb s false n
Rb-below_black leaf n h = h
Rb-below_black (node l a k true r) n h = (refl, h.1, h.2)
Rb-below_black (node l a k false r) zero h = h
Rb-below_black (node l a k false r) (suc n) h = h

pub Rb-red :
    (d : Dir) (s t : Tree) (a k n : ℕ) → Rb s true n → Rb t true n → Rb (mk d s a k true t) false n
Rb-red left s t a k n h g = (refl, h, g)
Rb-red right s t a k n h g = (refl, g, h)

pub Rb-black :
    (d : Dir) (s t : Tree) (a k : ℕ) (above : Bool) (n : ℕ)
    → Rb s false n
    → Rb t false n
    → Rb (mk d s a k false t) above (suc n)
Rb-black left s t a k above n h g = (h, g)
Rb-black right s t a k above n h g = (g, h)

-- The root of a subtree is red.
abbrev pub root_red : Tree → Bool
root_red leaf = false
root_red (node l a k c r) = c

pub Rb-below_red : (s : Tree) (n : ℕ) → root_red s ≡ false → Rb s false n → Rb s true n
Rb-below_red leaf n e h = h
Rb-below_red (node l a k true r) n e h = absurd (cc)
Rb-below_red (node l a k false r) zero e h = h
Rb-below_red (node l a k false r) (suc n) e h = h

-- A tree whose root may be red, and is a red-black tree once the root is black.
abbrev pub Nearly : Tree → Type 0
Nearly leaf = ⊥
Nearly (node l a k c r) = (m : ℕ) × Rb (node l a k false r) false m

black_head : (c : Ctx) → BlackAbove c → false ≡ head_red c
black_head top h = elim h [ ]
black_head (under d a k true sib rest) h = elim h [ ]
black_head (under d a k false sib rest) h = refl

pub plug-Nearly :
    (c : Ctx) (l : Tree) (a k : ℕ) (red : Bool) (r : Tree) (n : ℕ)
    → RbCtx c n
    → Rb (node l a k red r) (head_red c) n
    → Nearly (plug c (node l a k red r))
plug-Nearly top l a k true r n h g = (suc n, (Rb-below_black l n (g.1), Rb-below_black r n (g.2)))
plug-Nearly top l a k false r n h g = (n, g)
plug-Nearly (under left b j true sib rest) l a k red r n h g =
    plug-Nearly rest (node l a k red r) b j true sib n (h.2) (
      subst (λ z. Rb (node (node l a k red r) b j true sib) z n) (black_head rest (h.1))
        (Rb-red left (node l a k red r) sib b j n g (h.0)))
plug-Nearly (under right b j true sib rest) l a k red r n h g =
    plug-Nearly rest sib b j true (node l a k red r) n (h.2) (
      subst (λ z. Rb (node sib b j true (node l a k red r)) z n) (black_head rest (h.1))
        (Rb-red right (node l a k red r) sib b j n g (h.0)))
plug-Nearly (under left b j false sib rest) l a k red r n h g =
    plug-Nearly rest (node l a k red r) b j false sib (suc n) (h.1) (g, h.0)
plug-Nearly (under right b j false sib rest) l a k red r n h g =
    plug-Nearly rest sib b j false (node l a k red r) (suc n) (h.1) (h.0, g)

-- The entries of a whole tree depend only on those of its parts.
pub entries-mk :
    (d : Dir) (s s' t : Tree) (a k : ℕ) (c c' : Bool)
    → entries s ≡ entries s'
    → entries (mk d s a k c t) ≡ entries (mk d s' a k c' t)
entries-mk left s s' t a k c c' e = ap (λ (z : List (ℕ × ℕ)). z ++ ((a, k) ∷ entries t)) e
entries-mk right s s' t a k c c' e = ap (λ (z : List (ℕ × ℕ)). entries t ++ ((a, k) ∷ z)) e

pub entries-mk_far :
    (d : Dir) (s t t' : Tree) (a k : ℕ) (c c' : Bool)
    → entries t ≡ entries t'
    → entries (mk d s a k c t) ≡ entries (mk d s a k c' t')
entries-mk_far left s t t' a k c c' e = ap (λ (z : List (ℕ × ℕ)). entries s ++ ((a, k) ∷ z)) e
entries-mk_far right s t t' a k c c' e = ap (λ (z : List (ℕ × ℕ)). z ++ ((a, k) ∷ entries s)) e

pub entries-plug :
    (c : Ctx) (s s' : Tree) → entries s ≡ entries s' → entries (plug c s) ≡ entries (plug c s')
entries-plug top s s' e = e
entries-plug (under d a k c sib rest) s s' e =
    entries-plug rest (mk d s a k c sib) (mk d s' a k c sib) (entries-mk d s s' sib a k c c e)

pub entries-rotate :
    (d : Dir) (s t u : Tree) (a k b j : ℕ) (c c' e e' : Bool)
    → entries (mk d (mk d s a k c t) b j e u) ≡ entries (mk d s a k c' (mk d t b j e' u))
entries-rotate left s t u a k b j c c' e e' =
    append_assoc (entries s) ((a, k) ∷ entries t) ((b, j) ∷ entries u)
entries-rotate right s t u a k b j c c' e e' =
    sym (append_assoc (entries u) ((b, j) ∷ entries t) ((a, k) ∷ entries s))

-- Whether a black node has to stand at a place: at the top, or below a red node.
abbrev pub above_red : Ctx → Bool
above_red top = true
above_red (under d a k c sib rest) = c

pub black_above : (c : Ctx) → above_red c ≡ false → BlackAbove c
black_above top e = absurd (cc)
black_above (under d a k true sib rest) e = absurd (cc)
black_above (under d a k false sib rest) e = tt

above_false : (c : Ctx) → BlackAbove c → above_red c ≡ false
above_false top h = elim h [ ]
above_false (under d a k true sib rest) h = elim h [ ]
above_false (under d a k false sib rest) h = refl

-- What is above a node of this color whose subtrees have `n` black nodes on each path.
abbrev pub Upper : Bool → Ctx → ℕ → Type 0
Upper true rest n = (above_red rest ≡ false) × RbCtx rest n
Upper false rest n = RbCtx rest (suc n)

pub RbCtx-Upper :
    (d : Dir) (a k : ℕ) (c : Bool) (sib : Tree) (rest : Ctx) (n : ℕ)
    → RbCtx (under d a k c sib rest) n
    → Rb sib c n × Upper c rest n
RbCtx-Upper d a k true sib rest n h = (h.0, (above_false rest (h.1), h.2))
RbCtx-Upper d a k false sib rest n h = (h.0, h.1)

-- A whole tree from its parts.
pub plug-Rb :
    (c : Ctx) (s : Tree) (n : ℕ) → RbCtx c n → Rb s (above_red c) n → (m : ℕ) × Rb (plug c s) true m
plug-Rb top s n h g = (n, g)
plug-Rb (under d a k true sib rest) s n h g = plug-Rb rest (mk d s a k true sib) n (h.2) (
    subst (λ z. Rb (mk d s a k true sib) z n) (sym (above_false rest (h.1)))
      (Rb-red d s sib a k n g (h.0)))
plug-Rb (under d a k false sib rest) s n h g =
    plug-Rb rest (mk d s a k false sib) (suc n) (h.1)
      (Rb-black d s sib a k (above_red rest) n g (h.0))

-- A node between two black subtrees takes the place of one of its color.
pub plug-mk-Rb :
    (c : Bool) (d : Dir) (rest : Ctx) (s t : Tree) (a k n : ℕ)
    → Upper c rest n
    → Rb s true n
    → Rb t true n
    → (m : ℕ) × Rb (plug rest (mk d s a k c t)) true m
plug-mk-Rb true d rest s t a k n h g g' =
    plug-Rb rest (mk d s a k true t) n (h.1)
      (subst (λ z. Rb (mk d s a k true t) z n) (sym (h.0)) (Rb-red d s t a k n g g'))
plug-mk-Rb false d rest s t a k n h g g' =
    plug-Rb rest (mk d s a k false t) (suc n) h
      (Rb-black d s t a k (above_red rest) n (Rb-below_black s n g) (Rb-below_black t n g'))
