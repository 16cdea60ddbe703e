-- ===== src/Rbt/Promote.antt =====
-- A node with at most one child leaves the tree, and its child takes its place.
use balrog_os.Prelude.{ℕ, ◌<◌, ◌≤◌, ◌≡◌, refl, ◌≢◌, ◌⊎◌, inl, inr, sym, arith, ◌==◌, if◌then◌else◌}
use balrog_os.Rbt.{
  Dir, left, right, flip, Nodes, Rbt, child, with_child, put, set_child, set_parent, get_dir,
}
use balrog_os.Rbt.Shape.{Tree, Ctx, IsTree, IsCtx, addr, lo_of, hi_of, up_of}
use balrog_os.Rbt.Turn.{root_apart, up_apart, reparent, relinked}
use balrog_os.Rbt.Rotated.{up_root_apart}
use balrog_os.Rbt.Remove.{promote}

side-get_dir :
    (e : Dir) (h : Nodes) (x u : ℕ)
    → (h x).parent ≡ u
    → child e (h u) ≡ x
    → child (flip e) (h u) ≢ x
    → get_dir h x ≡ e
unfolding get_dir
side-get_dir left h x u up is other =
    let high : (h ((h x).parent)).high ≢ x = rw up other in ground arith
side-get_dir right h x u up is other =
    let high : (h ((h x).parent)).high ≡ x = rw up is in ground arith

module _ (t : Rbt) (x u b : ℕ) (up_is : (t.nodes x).parent ≡ u) (u_x : u ≢ x) (b_x : b ≢ x) where
  above : Nodes
  above = if u == 0 then t.nodes else set_child (get_dir t.nodes x) u b t.nodes

  above_x : (above x).parent ≡ u
  unfolding above put
  above_x = ground arith

  promote-nodes :
      (promote t x b).nodes ≡ (if b == 0 then above else set_parent b (above x).parent above)
  unfolding promote above
  promote-nodes = rw up_is refl

  pub promote-root : (promote t x b).root ≡ (if u == 0 then b else t.root)
  unfolding promote
  promote-root = rw up_is refl

  pub promote_y : (y : ℕ) → y ≢ 0 → y ≢ u → y ≢ b → (promote t x b).nodes y ≡ t.nodes y
  unfolding above put
  promote_y y real yu yb = rw promote-nodes (ground arith)

  pub promote_b :
      b ≢ 0 → (u ≢ 0 → u ≢ b) → (promote t x b).nodes b ≡ record (t.nodes b) { parent = u }
  unfolding above put
  promote_b real ub = rw (promote-nodes, above_x) (ground arith)

  pub promote_u :
      (e : Dir)
      → u ≢ 0
      → (u ≢ 0 → u ≢ b)
      → child e (t.nodes u) ≡ x
      → child (flip e) (t.nodes u) ≢ x
      → (promote t x b).nodes u ≡ with_child e b (t.nodes u)
  unfolding above put
  promote_u e real ub is other =
      let apart = ub real in
      rw (promote-nodes, side-get_dir e t.nodes x u up_is is other) (ground arith)

module _ (t : Rbt) (c : Ctx) (x k lo hi : ℕ) (kept : Tree) (around : IsCtx t.nodes t.root x c)
    (real : x ≢ 0) (key_is : (t.nodes x).key ≡ k) (up_is : (t.nodes x).parent ≡ up_of c)
    (held : IsTree t.nodes lo hi x kept) (from_x : lo_of c ≤ k) (to_x : k < hi_of c)
    (from : lo_of c ≤ lo) (to : hi ≤ hi_of c) (out : (k < lo) ⊎ (hi ≤ k)) where
  b_x : addr kept ≢ x
  b_x =
      root_apart t.nodes lo hi x kept x held real
        (elim out [ inl q ↦ inl (omega arith) | inr q ↦ inr (omega arith) ])

  u_x : up_of c ≢ x
  u_x e = up_apart t.nodes t.root x c x around real (omega arith) (omega arith) (sym e)

  u_b : up_of c ≢ 0 → up_of c ≢ addr kept
  u_b = up_root_apart t.nodes t.root x c lo hi x kept around held from to

  -- The node itself keeps what it holds.
  pub promote_x : (promote t x (addr kept)).nodes x ≡ t.nodes x
  promote_x =
      promote_y t x (up_of c) (addr kept) up_is u_x b_x x real (λ e. u_x (sym e)) (λ e. b_x (sym e))

  pub promote-IsTree : IsTree ((promote t x (addr kept)).nodes) lo hi (up_of c) kept
  promote-IsTree =
      reparent lo hi x (up_of c) kept
        (λ rb. promote_b t x (up_of c) (addr kept) up_is u_x b_x rb u_b)
        (λ y ry yb p q.
          promote_y t x (up_of c) (addr kept) up_is u_x b_x y ry
            (up_apart t.nodes t.root x c y around ry (omega arith) (omega arith)) yb)
        held

  pub promote-IsCtx :
      IsCtx ((promote t x (addr kept)).nodes) ((promote t x (addr kept)).root) (addr kept) c
  promote-IsCtx =
      relinked t.root ((promote t x (addr kept)).root) x (addr kept) c real (omega arith)
        (omega arith) (promote-root t x (up_of c) (addr kept) up_is u_x b_x)
        (λ e ru is other. promote_u t x (up_of c) (addr kept) up_is u_x b_x e ru u_b is other)
        (λ y ry yu q. promote_y t x (up_of c) (addr kept) up_is u_x b_x y ry yu (λ e.
          root_apart t.nodes lo hi x kept y held ry
            (elim q [ inl r ↦ inl (omega arith) | inr r ↦ inr (omega arith) ]) (sym e)))
        around
