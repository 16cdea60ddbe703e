-- ===== src/Rbt/Link.antt =====
-- A new node at its place, and what is around a place: nodes, colors and entries.
use balrog_os.Prelude.{
  ℕ, zero, suc, ◌≤◌, ◌<◌, ◌≡◌, refl, ◌≢◌, Bool, true, false, ap, sym, ◌∙◌, arith, List, ◌∷◌, ◌++◌,
  All, All-front, All-back, All-append, All-imp, append_assoc, ◌==◌, inl, inr,
}
use mathlib.Core.Path.{subst}
use balrog_os.Rbt.{left, right, Node, Nodes, Rbt, put, set_child, created}
use balrog_os.Rbt.Shape.{
  Tree, leaf, node, Ctx, top, under, plug, entries, IsTree, IsCtx, Focus, lo_of, hi_of, up_of,
}
use balrog_os.Rbt.Frame.{Holds-same, tree_frame, ctx_frame}
use balrog_os.Rbt.Paint.{put-at, put-ne, ne_of_key}
use balrog_os.Rbt.Colors.{Rb, RbCtx, above_red, black_above}
use balrog_os.Rbt.Place.{before, after, side_of, entries-plug_split}
use balrog_os.Rbt.Order.{
  insert_entry, Below, before-Below, after-Above, tree-Below, insert_entry-new,
}

-- No entry is at this address.
abbrev pub Unused : ℕ → List (ℕ × ℕ) → Type 0
Unused a es = All (λ (x : ℕ × ℕ). x.0 ≢ a) es

pub tree_put :
    (h : Nodes) (a : ℕ) (n : Node) (lo hi up : ℕ) (s : Tree)
    → Unused a (entries s)
    → IsTree h lo hi up s
    → IsTree (put a n h) lo hi up s
tree_put h a n lo hi up leaf new f = tt
tree_put h a n lo hi up (node l b k c r) new (held, from, to, fl, fr) =
    let rest = All-back _ (entries l) ((b, k) ∷ entries r) new in
    (
      Holds-same (put-ne a b n h (rest.0)) held,
      from,
      to,
      tree_put h a n lo k b l (All-front _ (entries l) ((b, k) ∷ entries r) new) fl,
      tree_put h a n (suc k) hi b r (rest.1) fr,
    )

pub Focus-put :
    {t : Rbt} (a : ℕ) (n : Node) (s : Tree)
    → Unused a (entries s)
    → Focus t top s
    → Focus (record t { nodes = put a n t.nodes }) top s
Focus-put {t} a n s new f = record {
  around = f.around;
  here = tree_put t.nodes a n 0 18446744073709551616 0 s new f.here;
}

-- The link to a new node, at the free place for its key.
pub link :
    (c : Ctx) (fresh key : ℕ) (n : Node) {t : Rbt}
    → Focus t c leaf
    → up_of c ≢ 0
    → fresh ≢ 0
    → lo_of c ≤ key
    → key < hi_of c
    → t.nodes fresh ≡ created (up_of c) key n
    → Focus
        (record t { nodes = set_child (side_of c) (up_of c) fresh t.nodes })
        c
        (node leaf fresh key true leaf)
link top fresh key n f real new from to is = absurd (real refl)
link (under left a k c sib rest) fresh key n {t} f real new from to is =
    let (held, lo, hi, fs, fr) = f.around in
    let key_is = held.key_is in
    let linked = record (t.nodes a) { low = fresh } in
    let other = λ (y : ℕ) (ne : (t.nodes y).key ≢ k).
      put-ne a y linked t.nodes (ne_of_key t.nodes a y k key_is ne) in
    let fresh_key : (t.nodes fresh).key ≡ key = rw is refl in
    let same = other fresh (omega arith) in
    let now = put-at a linked t.nodes in
    record {
      around = (
        record {
          real = held.real;
          key_is = rw now held.key_is;
          red_is = rw now held.red_is;
          parent_is = rw now held.parent_is;
          low_is = rw now refl;
          high_is = rw now held.high_is;
        },
        lo,
        hi,
        tree_frame (suc k) (hi_of rest) a sib (λ y ry p q. other y (omega arith)) fs,
        ctx_frame t.root a rest
            (λ y ry p. other y (elim p [ inl q ↦ omega arith | inr q ↦ omega arith ])) fr,
      );
      here = (
        record {
          real = new;
          key_is = rw same fresh_key;
          red_is = rw (same, is) refl;
          parent_is = rw (same, is) refl;
          low_is = rw (same, is) refl;
          high_is = rw (same, is) refl;
        },
        from,
        to,
        tt,
        tt,
      );
    }
link (under right a k c sib rest) fresh key n {t} f real new from to is =
    let (held, lo, hi, fs, fr) = f.around in
    let key_is = held.key_is in
    let linked = record (t.nodes a) { high = fresh } in
    let other = λ (y : ℕ) (ne : (t.nodes y).key ≢ k).
      put-ne a y linked t.nodes (ne_of_key t.nodes a y k key_is ne) in
    let fresh_key : (t.nodes fresh).key ≡ key = rw is refl in
    let same = other fresh (omega arith) in
    let now = put-at a linked t.nodes in
    record {
      around = (
        record {
          real = held.real;
          key_is = rw now held.key_is;
          red_is = rw now held.red_is;
          parent_is = rw now held.parent_is;
          low_is = rw now held.low_is;
          high_is = rw now refl;
        },
        lo,
        hi,
        tree_frame (lo_of rest) k a sib (λ y ry p q. other y (omega arith)) fs,
        ctx_frame t.root a rest
            (λ y ry p. other y (elim p [ inl q ↦ omega arith | inr q ↦ omega arith ])) fr,
      );
      here = (
        record {
          real = new;
          key_is = rw same fresh_key;
          red_is = rw (same, is) refl;
          parent_is = rw (same, is) refl;
          low_is = rw (same, is) refl;
          high_is = rw (same, is) refl;
        },
        from,
        to,
        tt,
        tt,
      );
    }

pub black_inv :
    (l r : Tree) (a k : ℕ) (above : Bool) (m : ℕ)
    → Rb (node l a k false r) above m
    → (j : ℕ) × (m ≡ suc j) × Rb l false j × Rb r false j
black_inv l r a k above zero h = elim h [ ]
black_inv l r a k above (suc j) h = (j, refl, h.0, h.1)

-- What is around a place of a red-black tree.
pub open_colors :
    (c : Ctx) (s : Tree) (n : ℕ) → Rb (plug c s) true n → (m : ℕ) × RbCtx c m × Rb s (above_red c) m
open_colors top s n h = (n, tt, h)
open_colors (under left a k true sib rest) s n h =
    let (m, ctx, here) = open_colors rest (node s a k true sib) n h in
    (m, (here.2, black_above rest (here.0), ctx), here.1)
open_colors (under right a k true sib rest) s n h =
    let (m, ctx, here) = open_colors rest (node sib a k true s) n h in
    (m, (here.1, black_above rest (here.0), ctx), here.2)
open_colors (under left a k false sib rest) s n h =
    let (m, ctx, here) = open_colors rest (node s a k false sib) n h in
    let (j, e, gl, gr) = black_inv s sib a k (above_red rest) m here in
    (j, (gr, subst (RbCtx rest) e ctx), gl)
open_colors (under right a k false sib rest) s n h =
    let (m, ctx, here) = open_colors rest (node sib a k false s) n h in
    let (j, e, gl, gr) = black_inv sib s a k (above_red rest) m here in
    (j, (gl, subst (RbCtx rest) e ctx), gr)

pub nonzero : (a : ℕ) → a ≢ 0 → (a == 0) ≡ false
nonzero a h = ground arith

-- The entries around a free place, with a new one and without.
pub entries_new :
    (c : Ctx) (h : Nodes) (root p fresh key : ℕ) (red : Bool)
    → IsCtx h root p c
    → lo_of c ≤ key
    → key < hi_of c
    → entries (plug c (node leaf fresh key red leaf))
      ≡ insert_entry fresh key (entries (plug c leaf))
entries_new c h root p fresh key red f from to =
    entries-plug_split c (node leaf fresh key red leaf)
    ∙ (sym (
          insert_entry-new fresh key (before c) (after c)
            (All-imp _ _ (before c) (λ x q. let lt : x.1 < lo_of c = q in omega arith)
              (before-Below h root p c f))
            (All-imp _ _ (after c) (λ x q. let le : hi_of c ≤ x.1 = q in omega arith)
              (after-Above h root p c f)))
        ∙ ap (insert_entry fresh key) (sym (entries-plug_split c leaf)))

-- The entries around the node of a key.
pub split_at :
    (c : Ctx) (l : Tree) (a key : ℕ) (red : Bool) (r : Tree)
    → entries (plug c (node l a key red r))
      ≡ (before c ++ entries l) ++ ((a, key) ∷ (entries r ++ after c))
split_at c l a key red r = entries-plug_split c (node l a key red r) ∙ simp append_assoc

pub split-Below :
    {t : Rbt} (c : Ctx) (l : Tree) (a key : ℕ) (red : Bool) (r : Tree)
    → Focus t c (node l a key red r)
    → Below key (before c ++ entries l)
split-Below {t} c l a key red r f =
    let (held, from, to, fl, fr) = f.here in
    All-append _ (before c) (entries l)
      (All-imp _ _ (before c) (λ x q. let lt : x.1 < lo_of c = q in omega arith)
        (before-Below t.nodes t.root a c f.around))
      (tree-Below t.nodes (lo_of c) key a l fl)
