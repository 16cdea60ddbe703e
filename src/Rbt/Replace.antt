-- ===== src/Rbt/Replace.antt =====
-- rbt_delete of a node with two children: its successor leaves the tree, and it takes the successor's
-- entry.
use balrog_os.Prelude.{ℕ, suc, ◌+◌, ◌<◌, ◌≡◌, refl, ◌≢◌, inl, Bool, sym, ◌∙◌, arith}
use balrog_os.Rbt.{left, right, Nodes, Rbt, put, get_dir}
use balrog_os.Rbt.Shape.{
  Tree, leaf, node, Ctx, under, plug, entries, IsTree, IsCtx, Focus, addr, hi_of, up_of,
}
use balrog_os.Rbt.Paint.{ne_of_key}
use balrog_os.Rbt.Turn.{root_apart, up_apart}
use balrog_os.Rbt.Colors.{Rb, RbCtx, above_red}
use balrog_os.Rbt.Fixup.{depth}
use balrog_os.Rbt.Promote.{promote_x, promote-IsTree, promote-IsCtx}
use balrog_os.Rbt.Spliced.{Kept-high, settled}
use balrog_os.Rbt.Single.{dir_of-AtSide, promoted_high, Removes}
use balrog_os.Rbt.Rekey.{
  Lefts, here, more, moved, IsCtx-moved, IsTree-rekey, lo_of-moved, hi_of-moved, up_of-moved,
  lo_of-Lefts,
}
use balrog_os.Rbt.Successor.{RbCtx-moved, AtSide-moved, depth-moved, promote-copy}
use balrog_os.Rbt.Remove.{promoted, dir_of, promote, copy_entry, delete_node}

copied_at :
    (x b : ℕ) (h : Nodes)
    → copy_entry x b h x ≡ record (h x) { key = (h b).key; value = (h b).value }
unfolding copy_entry put
copied_at x b h = ground arith

copied_ne : (x b y : ℕ) (h : Nodes) → y ≢ x → copy_entry x b h y ≡ h y
unfolding copy_entry put
copied_ne x b y h ne = ground arith

-- The copy does not change what rbt_delete reads of the successor.
module _ (x b : ℕ) (h : Nodes) (b_x : b ≢ x) where
  promoted-copy : promoted (copy_entry x b h) b ≡ promoted h b
  unfolding promoted
  promoted-copy = rw (copied_ne x b b h b_x) refl

  dir_of-copy : dir_of (copy_entry x b h) b ≡ dir_of h b
  unfolding dir_of get_dir copy_entry put
  dir_of-copy = ground arith

base_key :
    (x k : ℕ) (red : Bool) (s : Tree) (rest : Ctx) (h : Nodes) (root p : ℕ) (c : Ctx)
    → Lefts (under right x k red s rest) c
    → IsCtx h root p c
    → (h x).key ≡ k
base_key x k red s rest h root p c here f = let held = f.0 in held.key_is
base_key x k red s rest h root p (under left a e r sib c) (more _ _ _ _ l) f =
    base_key x k red s rest h root a c l (f.4)

-- The successor leaves the tree, and the node to delete has its entry.
module _ (n m : ℕ) {t : Rbt} (x k : ℕ) (red : Bool) (s : Tree) (rest c : Ctx)
    (l : Lefts (under right x k red s rest) c) (b j : ℕ) (bred : Bool) (kept : Tree)
    (f : Focus t c (node leaf b j bred kept)) (key_x : (t.nodes x).key ≡ k) (ctx : RbCtx c m)
    (rb : Rb (node leaf b j bred kept) (above_red c) m) (fuel : depth c + 3 < n) where
  to : Ctx
  to = moved (under right x j red s rest) l

  k_j : k < j
  k_j = let from = f.here.1 in let low = lo_of-Lefts x k j red s rest c l in omega arith

  b_x : b ≢ x
  b_x =
      let held = f.here.0 in
      let key = held.key_is in let lt = k_j in ne_of_key t.nodes x b k key_x (omega arith)

  b_u : b ≢ up_of c
  b_u =
      let (held, from, below_hi, _, _) = f.here in
      let key = held.key_is in
      up_apart t.nodes t.root b c b f.around held.real (omega arith) (omega arith)

  b_q : b ≢ addr kept
  b_q e =
      let (held, _, _, _, fs) = f.here in
      let key = held.key_is in
      root_apart t.nodes (suc j) (hi_of c) b kept b fs held.real (inl (omega arith)) (sym e)

  gone : Rbt
  unfolding promote
  gone = promote t b (addr kept)

  gone_b : gone.nodes b ≡ t.nodes b
  unfolding gone
  gone_b =
      let (held, from, below_hi, _, fs) = f.here in
      promote_x t c b j (suc j) (hi_of c) kept f.around held.real held.key_is held.parent_is fs from
        below_hi (omega arith) (omega arith) (inl (omega arith))

  gone_around : IsCtx gone.nodes gone.root (addr kept) c
  unfolding gone
  gone_around =
      let (held, from, below_hi, _, fs) = f.here in
      promote-IsCtx t c b j (suc j) (hi_of c) kept f.around held.real held.key_is held.parent_is fs
        from below_hi (omega arith) (omega arith) (inl (omega arith))

  gone-IsTree : IsTree gone.nodes (suc j) (hi_of c) (up_of c) kept
  unfolding gone
  gone-IsTree =
      let (held, from, below_hi, _, fs) = f.here in
      promote-IsTree t c b j (suc j) (hi_of c) kept f.around held.real held.key_is held.parent_is fs
        from below_hi (omega arith) (omega arith) (inl (omega arith))

  final : Rbt
  unfolding copy_entry
  final = record gone { nodes = copy_entry x b gone.nodes }

  final_key : (final.nodes x).key ≡ j
  unfolding final
  final_key = let held = f.here.0 in rw (copied_at x b gone.nodes, gone_b) held.key_is

  final_b : final.nodes b ≡ t.nodes b
  unfolding final
  final_b = copied_ne x b b gone.nodes b_x ∙ gone_b

  gone_key : (gone.nodes x).key ≡ k
  gone_key = base_key x k red s rest gone.nodes gone.root (addr kept) c l gone_around

  final_Focus : Focus final to kept
  unfolding final to
  final_Focus =
      let below_hi = f.here.2 in
      let at = copied_at x b gone.nodes in
      let lt = k_j in
      record {
        around =
            IsCtx-moved gone.nodes final.nodes gone.root x k j red s rest gone_key final_key
              (rw at refl) (rw at refl) (rw at refl) (rw at refl)
              (λ y ne. copied_ne x b y gone.nodes ne) lt c l (addr kept) below_hi gone_around;
        here =
            rw
              (
                lo_of-moved x k j red s rest c l,
                hi_of-moved x k j red s rest c l,
                up_of-moved x k j red s rest c l,
              )
              (IsTree-rekey gone.nodes final.nodes gone.root x k j red s rest gone_key final_key
                (rw at refl) (rw at refl) (rw at refl) (rw at refl)
                (λ y ne. copied_ne x b y gone.nodes ne) lt (suc j) (hi_of c) (up_of c) kept
                (omega arith) gone-IsTree);
      }

  pub successor-Removes :
      Removes n
        (record t { nodes = copy_entry x b t.nodes })
        b
        (entries (plug (moved (under right x j red s rest) l) kept))
  unfolding delete_node gone final to
  successor-Removes =
      let held = f.here.0 in
      let kept_is =
        promoted-copy x b t.nodes b_x
        ∙ promoted_high t.nodes b (addr kept) held.low_is held.high_is in
      let commute = promote-copy t x b (addr kept) b_x (rw held.parent_is b_u) b_q in
      let levels = depth-moved x k j red s rest c l in
      rw (kept_is, dir_of-copy x b t.nodes b_x, commute)
        (settled to n m b (dir_of t.nodes b) bred kept
          (rw (final_b, held.parent_is) (sym (up_of-moved x k j red s rest c l)))
          (rw final_b held.red_is) final_Focus (RbCtx-moved x k j red s rest c l m ctx)
          (Kept-high b j bred (above_red c) kept m rb)
          (AtSide-moved x k j red s rest c l (dir_of t.nodes b)
            (dir_of-AtSide c leaf b j bred kept f))
          (omega arith))
