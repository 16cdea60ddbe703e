-- ===== src/Rbt/Rotate.antt =====
-- What `__rotate` leaves in the nodes, and in the tree that they hold.
use balrog_os.Prelude.{ℕ, ◌≡◌, refl, ◌≢◌, arith, if◌then◌else◌, ◌==◌, ◌∙◌, sym, ap}
use balrog_os.Rbt.{
  Dir, left, right, flip, Node, Nodes, Rbt, child, with_child, put, hand_over, relink, hang, rotate,
}

-- The nodes after a rotation: the rotating node, the pivot, its inner child, and all others.
pub record Turned (h h' : Nodes) (d : Dir) (x p b u : ℕ) : Type 0 where
  pub at_x : h' x ≡ with_child (flip d) b (record (h x) { parent = p })
  pub at_p : h' p ≡ with_child d x (record (h p) { parent = u })
  pub at_b : b ≢ 0 → h' b ≡ record (h b) { parent = x }
  pub at_u :
      (e : Dir) → u ≢ 0 → child e (h u) ≡ x → child (flip e) (h u) ≢ x → h' u ≡ with_child e p (h u)
  pub at_y : (y : ℕ) → y ≢ 0 → y ≢ x → y ≢ p → y ≢ b → y ≢ u → h' y ≡ h y

with_child-parent : (d : Dir) (v : ℕ) (n : Node) → (with_child d v n).parent ≡ n.parent
with_child-parent left v n = refl
with_child-parent right v n = refl

module _ (h : Nodes) (d : Dir) (x p b u : ℕ) (real_x : x ≢ 0) (real_p : p ≢ 0) (x_p : x ≢ p)
    (b_x : b ≢ x) (b_p : b ≢ p) (up_is : (h x).parent ≡ u) where
  moved_x : hand_over h x p b d x ≡ with_child (flip d) b (h x)
  unfolding hand_over put
  moved_x = ground arith

  moved_p : hand_over h x p b d p ≡ record (h p) { parent = u }
  unfolding hand_over put
  moved_p = ground (arith, with_child-parent (flip d) b (h x))

  moved_b : b ≢ 0 → hand_over h x p b d b ≡ record (h b) { parent = x }
  unfolding hand_over put
  moved_b real = ground arith

  moved_y : (y : ℕ) → y ≢ 0 → y ≢ x → y ≢ p → y ≢ b → hand_over h x p b d y ≡ h y
  unfolding hand_over put
  moved_y y real yx yp yb = ground arith

module _ (h : Nodes) (d : Dir) (x p u : ℕ) (up_is : (h x).parent ≡ u) where
  relink_y : (y : ℕ) → y ≢ 0 → y ≢ u → relink h x p d y ≡ h y
  unfolding relink put
  relink_y y real yu = ground arith

relink_u :
    (d e : Dir) (h : Nodes) (x p u : ℕ)
    → (h x).parent ≡ u
    → u ≢ 0
    → child e (h u) ≡ x
    → child (flip e) (h u) ≢ x
    → relink h x p d u ≡ with_child e p (h u)
unfolding relink put
relink_u left left h x p u up_is real is other = ground arith
relink_u left right h x p u up_is real is other = ground arith
relink_u right left h x p u up_is real is other = ground arith
relink_u right right h x p u up_is real is other = ground arith

module _ (h : Nodes) (d : Dir) (x p : ℕ) (x_p : x ≢ p) where
  hang_x : hang h x p d x ≡ record (h x) { parent = p }
  unfolding hang put
  hang_x = ground arith

  hang_p : hang h x p d p ≡ with_child d x (h p)
  unfolding hang put
  hang_p = ground arith

  hang_y : (y : ℕ) → y ≢ x → y ≢ p → hang h x p d y ≡ h y
  unfolding hang put
  hang_y y yx yp = ground arith

with_child-with_parent :
    (d : Dir) (v q : ℕ) (n : Node)
    → record (with_child d v n) { parent = q } ≡ with_child d v (record n { parent = q })
with_child-with_parent left v q n = refl
with_child-with_parent right v q n = refl

module _ (t : Rbt) (d : Dir) (x p b u : ℕ) (real_x : x ≢ 0) (real_p : p ≢ 0) (x_p : x ≢ p)
    (b_x : b ≢ x) (b_p : b ≢ p) (u_x : u ≢ x) (u_p : u ≢ p) (u_b : u ≢ 0 → u ≢ b)
    (pivot_is : child (flip d) (t.nodes x) ≡ p) (inner_is : child d (t.nodes p) ≡ b)
    (up_is : (t.nodes x).parent ≡ u) where
  moved : Nodes
  unfolding hand_over
  moved = hand_over t.nodes x p b d

  linked : Nodes
  unfolding relink
  linked = relink moved x p d

  rotated : Nodes
  unfolding hang
  rotated = hang linked x p d

  above : (moved x).parent ≡ u
  unfolding moved
  above =
      rw (moved_x t.nodes d x p b u real_x real_p x_p b_x b_p up_is)
        (with_child-parent (flip d) b (t.nodes x) ∙ up_is)

  rotate-nodes : (rotate t x d).nodes ≡ rotated
  unfolding rotate rotated linked moved
  rotate-nodes = rw (pivot_is, inner_is) refl

  pub rotate-root : (rotate t x d).root ≡ (if u == 0 then p else t.root)
  unfolding rotate moved
  rotate-root = rw (pivot_is, inner_is, above) refl

  linked_y : (y : ℕ) → y ≢ 0 → y ≢ u → linked y ≡ moved y
  unfolding linked
  linked_y y real yu = relink_y moved d x p u above y real yu

  pub rotate-Turned : Turned t.nodes ((rotate t x d).nodes) d x p b u
  unfolding rotated moved linked
  rotate-Turned = rw rotate-nodes record {
    at_x =
        rw
          (
            hang_x linked d x p x_p,
            linked_y x real_x (λ e. u_x (sym e)),
            moved_x t.nodes d x p b u real_x real_p x_p b_x b_p up_is,
          )
          (with_child-with_parent (flip d) b p (t.nodes x));
    at_p =
        rw
          (
            hang_p linked d x p x_p,
            linked_y p real_p (λ e. u_p (sym e)),
            moved_p t.nodes d x p b u real_x real_p x_p b_x b_p up_is,
          )
          refl;
    at_b = λ rb.
        hang_y linked d x p x_p b b_x b_p
        ∙ (linked_y b rb (λ e. u_b (λ z. rb (e ∙ z)) (sym e))
            ∙ moved_b t.nodes d x p b u real_x real_p x_p b_x b_p up_is rb);
    at_u = λ e real is other.
        let same : moved u ≡ t.nodes u =
          moved_y t.nodes d x p b u real_x real_p x_p b_x b_p up_is u real u_x u_p (u_b real) in
        hang_y linked d x p x_p u u_x u_p
        ∙ (relink_u d e moved x p u above real (rw same is) (rw same other)
            ∙ ap (with_child e p) same);
    at_y = λ y real yx yp yb yu.
        hang_y linked d x p x_p y yx yp
        ∙ (linked_y y real yu
            ∙ moved_y t.nodes d x p b u real_x real_p x_p b_x b_p up_is y real yx yp yb);
  }
