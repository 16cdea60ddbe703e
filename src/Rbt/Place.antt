-- ===== src/Rbt/Place.antt =====
-- The walk of rbt_insert and of rbt_search ends at the node of the key, or at the place for it.
use balrog_os.Prelude.{
  ℕ, zero, suc, ◌+◌, ◌≤◌, ◌<◌, ◌≡◌, refl, ◌≢◌, ◌⊎◌, inl, inr, Bool, true, false, ap, sym, ◌∙◌,
  arith, some, List, [], ◌∷◌, ◌++◌, append_assoc, append_nil, length, length-append, ltb, ◌==◌,
}
use mathlib.Core.Path.{subst}
use native.Mathlib.Decide.{dec_lt}
use balrog_os.Rbt.{Dir, left, right, Nodes, Rbt, found, below, descend}
use balrog_os.Rbt.Shape.{
  Tree, leaf, node, Ctx, top, under, plug, entries, Focus, addr, lo_of, hi_of, up_of, open_side,
}
use balrog_os.Rbt.Fixup.{depth}

pub open_all : (c : Ctx) {t : Rbt} {s : Tree} → Focus t top (plug c s) → Focus t c s
open_all top f = f
open_all (under d a k c sib rest) {t} {s} f = open_side d {s = s} (open_all rest f)

-- The entries on the two sides of a place.
abbrev pub before : Ctx → List (ℕ × ℕ)
before top = []
before (under left a k c sib rest) = before rest
before (under right a k c sib rest) = before rest ++ (entries sib ++ ((a, k) ∷ []))

abbrev pub after : Ctx → List (ℕ × ℕ)
after top = []
after (under left a k c sib rest) = ((a, k) ∷ entries sib) ++ after rest
after (under right a k c sib rest) = after rest

splice :
    (b s : List (ℕ × ℕ)) (x : ℕ × ℕ) (e f : List (ℕ × ℕ))
    → b ++ ((s ++ (x ∷ e)) ++ f) ≡ (b ++ (s ++ (x ∷ []))) ++ (e ++ f)
splice b s x e f = simp append_assoc

pub entries-plug_split :
    (c : Ctx) (s : Tree) → entries (plug c s) ≡ before c ++ (entries s ++ after c)
entries-plug_split top s = sym (append_nil (entries s))
entries-plug_split (under left a k c sib rest) s =
    entries-plug_split rest (node s a k c sib)
    ∙ ap (λ (z : List (ℕ × ℕ)). before rest ++ z)
        (append_assoc (entries s) ((a, k) ∷ entries sib) (after rest))
entries-plug_split (under right a k c sib rest) s =
    entries-plug_split rest (node sib a k c s)
    ∙ splice (before rest) (entries sib) (a, k) (entries s) (after rest)

abbrev pub side_of : Ctx → Dir
side_of top = left
side_of (under d a k c sib rest) = d

-- A place below a node for a key that is not there.
pub record Free (t : Rbt) (key : ℕ) (whole : Tree) : Type 0 where
  pub place : Ctx
  pub is_whole : plug place leaf ≡ whole
  pub from : lo_of place ≤ key
  pub to : key < hi_of place
  pub levels : depth place ≤ length (entries whole)

pub data Ends (n : ℕ) (t : Rbt) (key : ℕ) (c : Ctx) (s : Tree) : Type 0 where
  hit :
      (l : Tree) (a : ℕ) (red : Bool) (r : Tree) (c' : Ctx)
      → plug c' (node l a key red r) ≡ plug c s
      → descend n t.nodes key (up_of c) (side_of c) (addr s) ≡ some (found a)
      → Ends n t key c s
  miss :
      (p : Free t key (plug c s))
      → descend n t.nodes key (up_of c) (side_of c) (addr s)
        ≡ some (below (up_of p.place) (side_of p.place))
      → Ends n t key c s

Ends-step :
    {n m : ℕ} {t : Rbt} {key : ℕ} {c d : Ctx} {s u : Tree}
    → plug d u ≡ plug c s
    → descend m t.nodes key (up_of c) (side_of c) (addr s)
      ≡ descend n t.nodes key (up_of d) (side_of d) (addr u)
    → Ends n t key d u
    → Ends m t key c s
Ends-step whole e (hit l a red r c' is runs) = hit l a red r c' (is ∙ whole) (e ∙ runs)
Ends-step {t} {key} whole e (miss p runs) =
    miss
      record {
        place = p.place;
        is_whole = p.is_whole ∙ whole;
        from = p.from;
        to = p.to;
        levels = subst (λ (z : Tree). depth p.place ≤ length (entries z)) whole p.levels;
      }
      (e ∙ runs)

module _ (n key : ℕ) (h : Nodes) (up : ℕ) (side : Dir) where
  descend_leaf : descend (suc n) h key up side 0 ≡ some (below up side)
  unfolding descend
  descend_leaf = refl

  descend_hit : (a : ℕ) → a ≢ 0 → (h a).key ≡ key → descend (suc n) h key up side a ≡ some (found a)
  unfolding descend
  descend_hit a real e = ground arith

  descend_left :
      (a l : ℕ)
      → a ≢ 0
      → key < (h a).key
      → (h a).low ≡ l
      → descend (suc n) h key up side a ≡ descend n h key a left l
  unfolding descend
  descend_left a l real lt is =
      let no : ltb (h a).key key ≡ false = ground arith in
      let ne : ((h a).key == key) ≡ false = ground arith in
      let nz : (a == 0) ≡ false = ground arith in rw (no, ne, nz, is) refl

  descend_right :
      (a r : ℕ)
      → a ≢ 0
      → (h a).key < key
      → (h a).high ≡ r
      → descend (suc n) h key up side a ≡ descend n h key a right r
  unfolding descend
  descend_right a r real lt is =
      let no : ltb (h a).key key ≡ true = ground arith in
      let ne : ((h a).key == key) ≡ false = ground arith in
      let nz : (a == 0) ≡ false = ground arith in rw (no, ne, nz, is) refl

compare_cases : (a b : ℕ) → (a ≡ b) ⊎ ((a < b) ⊎ (b < a))
compare_cases a b = elim (dec_lt a b) [
  | yes p ↦ inr (inl p)
  | no p ↦ elim (dec_lt b a) [ yes q ↦ inr (inr q) | no q ↦ inl (omega arith) ]
]

-- With fuel for each entry the walk ends.
pub descend-Ends :
    (s : Tree) (n : ℕ) {t : Rbt} (key : ℕ) (c : Ctx)
    → length (entries s) < n
    → Focus t c s
    → lo_of c ≤ key
    → key < hi_of c
    → depth c + length (entries s) ≤ length (entries (plug c s))
    → Ends n t key c s
descend-Ends leaf (suc n) {t} key c fuel f from to levels =
    miss record { place = c; is_whole = refl; from = from; to = to; levels = omega arith }
      (descend_leaf n key t.nodes (up_of c) (side_of c))
descend-Ends leaf zero key c fuel f from to levels = absurd (omega arith)
descend-Ends (node l a k red r) zero key c fuel f from to levels = absurd (omega arith)
descend-Ends (node l a k red r) (suc n) {t} key c fuel f from to levels =
    let (held, _, _, _, _) = f.here in
    let is = held.key_is in
    let size = length-append (entries l) ((a, k) ∷ entries r) in
    elim (compare_cases k key) [
      | inl e ↦
          hit l a red r c (ap (λ (z : ℕ). plug c (node l a z red r)) (sym e))
            (descend_hit n key t.nodes (up_of c) (side_of c) a held.real (is ∙ e))
      | inr (inl lt) ↦
          Ends-step {d = under right a k red l c} {u = r} refl
            (descend_right n key t.nodes (up_of c) (side_of c) a (addr r) held.real (omega arith)
              held.high_is)
            (descend-Ends r n key (under right a k red l c) (omega arith) (open_side right f)
              (omega arith) to (omega arith))
      | inr (inr gt) ↦
          Ends-step {d = under left a k red r c} {u = l} refl
            (descend_left n key t.nodes (up_of c) (side_of c) a (addr l) held.real (omega arith)
              held.low_is)
            (descend-Ends l n key (under left a k red r c) (omega arith) (open_side left f) from
              (omega arith) (omega arith))
    ]
