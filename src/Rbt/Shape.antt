-- ===== src/Rbt/Shape.antt =====
-- The tree that a heap of nodes holds, seen from one of its places.
use balrog_os.Prelude.{ℕ, suc, ◌≤◌, ◌<◌, ◌≡◌, ◌≢◌, Bool, List, [], ◌∷◌, ◌++◌}
use balrog_os.Rbt.{Dir, left, right, Nodes, Rbt}

-- A tree with each node's address, key and color.
pub data Tree : Type 0 where
  leaf : Tree
  node : Tree → (a k : ℕ) → Bool → Tree → Tree

-- What is around a place: the side it is on, the node above, the tree on its other side.
pub data Ctx : Type 0 where
  top : Ctx
  under : Dir → (a k : ℕ) → Bool → Tree → Ctx → Ctx

-- A node with the subtree of one side first.
abbrev pub mk : Dir → Tree → (a k : ℕ) → Bool → Tree → Tree
mk left s a k c t = node s a k c t
mk right s a k c t = node t a k c s

abbrev pub plug : Ctx → Tree → Tree
plug top s = s
plug (under d a k c sib rest) s = plug rest (mk d s a k c sib)

-- The addresses and the keys, in order.
abbrev pub entries : Tree → List (ℕ × ℕ)
entries leaf = []
entries (node l a k c r) = entries l ++ ((a, k) ∷ entries r)

abbrev pub addr : Tree → ℕ
addr leaf = 0
addr (node l a k c r) = a

abbrev pub up_of : Ctx → ℕ
up_of top = 0
up_of (under d a k c sib rest) = a

-- The keys that fit at a place: at least `lo_of` and less than `hi_of`, a 64-bit number at the top.
abbrev pub lo_of : Ctx → ℕ
lo_of top = 0
lo_of (under left a k c sib rest) = lo_of rest
lo_of (under right a k c sib rest) = suc k

abbrev pub hi_of : Ctx → ℕ
hi_of top = 18446744073709551616
hi_of (under left a k c sib rest) = k
hi_of (under right a k c sib rest) = hi_of rest

-- The heap holds this node, with these two children.
pub record Holds (h : Nodes) (a k : ℕ) (c : Bool) (up l r : ℕ) : Type 0 where
  pub real : a ≢ 0
  pub key_is : (h a).key ≡ k
  pub red_is : (h a).red ≡ c
  pub parent_is : (h a).parent ≡ up
  pub low_is : (h a).low ≡ l
  pub high_is : (h a).high ≡ r

abbrev pub IsTree : Nodes → (lo hi up : ℕ) → Tree → Type 0
IsTree h lo hi up leaf = Unit
IsTree h lo hi up (node l a k c r) =
    Holds h a k c up (addr l) (addr r)
    × (lo ≤ k)
    × (k < hi)
    × IsTree h lo k a l
    × IsTree h (suc k) hi a r

-- The heap holds what is around a place whose subtree has its root at `p`.
abbrev pub IsCtx : Nodes → (root p : ℕ) → Ctx → Type 0
IsCtx h root p top = root ≡ p
IsCtx h root p (under left a k c sib rest) =
    Holds h a k c (up_of rest) p (addr sib)
    × (lo_of rest ≤ k)
    × (k < hi_of rest)
    × IsTree h (suc k) (hi_of rest) a sib
    × IsCtx h root a rest
IsCtx h root p (under right a k c sib rest) =
    Holds h a k c (up_of rest) (addr sib) p
    × (lo_of rest ≤ k)
    × (k < hi_of rest)
    × IsTree h (lo_of rest) k a sib
    × IsCtx h root a rest

-- The whole: a subtree at its place.
pub record Focus (t : Rbt) (c : Ctx) (s : Tree) : Type 0 where
  pub around : IsCtx t.nodes t.root (addr s) c
  pub here : IsTree t.nodes (lo_of c) (hi_of c) (up_of c) s

-- Up to the node above, and down to one of its sides.
pub close :
    (d : Dir) {t : Rbt} {a k : ℕ} {c : Bool} {sib : Tree} {rest : Ctx} {s : Tree}
    → Focus t (under d a k c sib rest) s
    → Focus t rest (mk d s a k c sib)
close left f =
    let (h, lo, hi, sib, rest) = f.around in
    record { around = rest; here = (h, lo, hi, f.here, sib) }
close right f =
    let (h, lo, hi, sib, rest) = f.around in
    record { around = rest; here = (h, lo, hi, sib, f.here) }

pub open_side :
    (d : Dir) {t : Rbt} {a k : ℕ} {c : Bool} {sib : Tree} {rest : Ctx} {s : Tree}
    → Focus t rest (mk d s a k c sib)
    → Focus t (under d a k c sib rest) s
open_side left f =
    let (h, lo, hi, s, sib) = f.here in record { around = (h, lo, hi, sib, f.around); here = s }
open_side right f =
    let (h, lo, hi, sib, s) = f.here in record { around = (h, lo, hi, sib, f.around); here = s }

pub close_all : (c : Ctx) {t : Rbt} {s : Tree} → Focus t c s → Focus t top (plug c s)
close_all top f = f
close_all (under d a k c sib rest) f = close_all rest (close d f)
