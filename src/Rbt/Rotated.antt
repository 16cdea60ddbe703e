-- ===== src/Rbt/Rotated.antt =====
-- A rotation of a tree at its place: the rotating node goes below its child.
use balrog_os.Prelude.{ℕ, suc, ◌≤◌, ◌<◌, ◌≡◌, refl, ◌≢◌, ◌⊎◌, inl, inr, Bool, ap, sym, ◌∙◌, arith}
use balrog_os.Rbt.{Dir, left, right, flip, Nodes, Rbt, child, rotate}
use balrog_os.Rbt.Shape.{Tree, leaf, node, Ctx, mk, IsTree, IsCtx, Focus, addr, lo_of, hi_of, up_of}
use balrog_os.Rbt.Frame.{tree_frame}
use balrog_os.Rbt.Paint.{ne_of_key}
use balrog_os.Rbt.Rotate.{Turned, rotate-root, rotate-Turned}
use balrog_os.Rbt.Turn.{root_apart, up_apart, reparent, relinked}

-- The node above a place is not the root of a tree below the place.
pub up_root_apart :
    (h : Nodes) (root q : ℕ) (c : Ctx) (lo hi up : ℕ) (s : Tree)
    → IsCtx h root q c
    → IsTree h lo hi up s
    → lo_of c ≤ lo
    → hi ≤ hi_of c
    → up_of c ≢ 0
    → up_of c ≢ addr s
up_root_apart h root q c lo hi up leaf around f from to real = real
up_root_apart h root q c lo hi up (node l a k red r) around (held, p, q', _, _) from to real =
    let key = held.key_is in
    λ e. up_apart h root q c a around held.real (omega arith) (omega arith) (sym e)

module _ (t : Rbt) (d : Dir) (c : Ctx) (x kx p kp lo hi : ℕ) (inner : Tree)
    (around : IsCtx t.nodes t.root x c) (real_x : x ≢ 0) (real_p : p ≢ 0)
    (key_x : (t.nodes x).key ≡ kx) (key_p : (t.nodes p).key ≡ kp)
    (pivot_is : child (flip d) (t.nodes x) ≡ p) (inner_is : child d (t.nodes p) ≡ addr inner)
    (up_is : (t.nodes x).parent ≡ up_of c) (held : IsTree t.nodes lo hi p inner) (keys : kx ≢ kp)
    (from_x : lo_of c ≤ kx) (to_x : kx < hi_of c) (from_p : lo_of c ≤ kp) (to_p : kp < hi_of c)
    (from : lo_of c ≤ lo) (to : hi ≤ hi_of c) (out_x : (kx < lo) ⊎ (hi ≤ kx))
    (out_p : (kp < lo) ⊎ (hi ≤ kp)) where
  outside : (y k : ℕ) → (t.nodes y).key ≡ k → (k < lo) ⊎ (hi ≤ k) → y ≢ 0 → addr inner ≢ y
  outside y k e out real =
      root_apart t.nodes lo hi p inner y held real
        (elim out [ inl q ↦ inl (omega arith) | inr q ↦ inr (omega arith) ])

  x_p : x ≢ p
  x_p e = keys (sym key_x ∙ (ap (λ (z : ℕ). (t.nodes z).key) e ∙ key_p))

  u_x : up_of c ≢ x
  u_x e = up_apart t.nodes t.root x c x around real_x (omega arith) (omega arith) (sym e)

  u_p : up_of c ≢ p
  u_p e = up_apart t.nodes t.root x c p around real_p (omega arith) (omega arith) (sym e)

  turned : Turned t.nodes ((rotate t x d).nodes) d x p (addr inner) (up_of c)
  turned =
      rotate-Turned t d x p (addr inner) (up_of c) real_x real_p x_p
        (outside x kx key_x out_x real_x) (outside p kp key_p out_p real_p) u_x u_p
        (up_root_apart t.nodes t.root x c lo hi p inner around held from to) pivot_is inner_is up_is

  -- All nodes but those that the rotation stores to.
  others :
      (y : ℕ)
      → y ≢ 0
      → (t.nodes y).key ≢ kx
      → (t.nodes y).key ≢ kp
      → ((t.nodes y).key < lo) ⊎ (hi ≤ (t.nodes y).key)
      → y ≢ up_of c
      → (rotate t x d).nodes y ≡ t.nodes y
  others y real nx np out nu =
      turned.at_y y real (ne_of_key t.nodes x y kx key_x nx) (ne_of_key t.nodes p y kp key_p np)
        (λ e. outside y ((t.nodes y).key) refl out real (sym e)) nu

  below : (y : ℕ) → y ≢ 0 → lo_of c ≤ (t.nodes y).key → (t.nodes y).key < hi_of c → y ≢ up_of c
  below y real p q = up_apart t.nodes t.root x c y around real p q

  around_pivot : IsCtx ((rotate t x d).nodes) ((rotate t x d).root) p c
  around_pivot =
      relinked t.root ((rotate t x d).root) x p c real_x (omega arith) (omega arith)
        (rotate-root t d x p (addr inner) (up_of c) real_x real_p x_p
          (outside x kx key_x out_x real_x) (outside p kp key_p out_p real_p) u_x u_p
          (up_root_apart t.nodes t.root x c lo hi p inner around held from to) pivot_is inner_is
          up_is)
        turned.at_u
        (λ y real nu out.
          others y real (elim out [ inl q ↦ (omega arith) | inr q ↦ (omega arith) ])
            (elim out [ inl q ↦ (omega arith) | inr q ↦ (omega arith) ])
            (elim out [ inl q ↦ inl (omega arith) | inr q ↦ inr (omega arith) ]) nu)
        around

  inner_hung : IsTree ((rotate t x d).nodes) lo hi x inner
  inner_hung =
      reparent lo hi p x inner turned.at_b
        (λ y real ny q r.
          turned.at_y y real
            (ne_of_key t.nodes x y kx key_x
              (elim out_x [ inl o ↦ (omega arith) | inr o ↦ (omega arith) ]))
            (ne_of_key t.nodes p y kp key_p
              (elim out_p [ inl o ↦ (omega arith) | inr o ↦ (omega arith) ]))
            ny (below y real (omega arith) (omega arith)))
        held

-- At any place of a search tree in the heap, __rotate puts a node below the child on the other
-- side, and gives it what lies between the two; all else of the tree is as it was, with its parent
-- links, keys and colors.
pub rotate-Focus :
    (d : Dir) {t : Rbt} {c : Ctx} (outer : Tree) (x kx : ℕ) (cx : Bool) (inner : Tree) (p kp : ℕ)
    (cp : Bool) (far : Tree)
    → Focus t c (mk d outer x kx cx (mk d inner p kp cp far))
    → Focus (rotate t x d) c (mk d (mk d outer x kx cx inner) p kp cp far)
rotate-Focus left {t} {c} outer x kx cx inner p kp cp far f =
    let (hx, from_x, to_x, fo, (hp, from_p, to_p, fi, ff)) = f.here in
    let now =
      turned t left c x kx p kp (suc kx) kp inner f.around hx.real hp.real hx.key_is hp.key_is
        hx.high_is hp.low_is hx.parent_is fi (omega arith) from_x to_x (omega arith) (omega arith)
        (omega arith) (omega arith) (inl (omega arith)) (inr (omega arith)) in
    let rest =
      others t left c x kx p kp (suc kx) kp inner f.around hx.real hp.real hx.key_is hp.key_is
        hx.high_is hp.low_is hx.parent_is fi (omega arith) from_x to_x (omega arith) (omega arith)
        (omega arith) (omega arith) (inl (omega arith)) (inr (omega arith)) in
    let free =
      below t left c x kx p kp (suc kx) kp inner f.around hx.real hp.real hx.key_is hp.key_is
        hx.high_is hp.low_is hx.parent_is fi (omega arith) from_x to_x (omega arith) (omega arith)
        (omega arith) (omega arith) (inl (omega arith)) (inr (omega arith)) in
    record {
      around =
          around_pivot t left c x kx p kp (suc kx) kp inner f.around hx.real hp.real hx.key_is
            hp.key_is hx.high_is hp.low_is hx.parent_is fi (omega arith) from_x to_x (omega arith)
            (omega arith) (omega arith) (omega arith) (inl (omega arith)) (inr (omega arith));
      here = (
        record {
          real = hp.real;
          key_is = rw (now.at_p) hp.key_is;
          red_is = rw (now.at_p) hp.red_is;
          parent_is = rw (now.at_p) refl;
          low_is = rw (now.at_p) refl;
          high_is = rw (now.at_p) hp.high_is;
        },
        omega arith,
        to_p,
        (
          record {
            real = hx.real;
            key_is = rw (now.at_x) hx.key_is;
            red_is = rw (now.at_x) hx.red_is;
            parent_is = rw (now.at_x) refl;
            low_is = rw (now.at_x) hx.low_is;
            high_is = rw (now.at_x) refl;
          },
          from_x,
          omega arith,
          tree_frame (lo_of c) kx x outer
              (λ y real p' q'.
                rest y real (omega arith) (omega arith) (inl (omega arith))
                  (free y real (omega arith) (omega arith)))
              fo,
          inner_hung t left c x kx p kp (suc kx) kp inner f.around hx.real hp.real hx.key_is
              hp.key_is hx.high_is hp.low_is hx.parent_is fi (omega arith) from_x to_x (omega arith)
              (omega arith) (omega arith) (omega arith) (inl (omega arith)) (inr (omega arith)),
        ),
        tree_frame (suc kp) (hi_of c) p far
            (λ y real p' q'.
              rest y real (omega arith) (omega arith) (inr (omega arith))
                (free y real (omega arith) (omega arith)))
            ff,
      );
    }
rotate-Focus right {t} {c} outer x kx cx inner p kp cp far f =
    let (hx, from_x, to_x, (hp, from_p, to_p, ff, fi), fo) = f.here in
    let now =
      turned t right c x kx p kp (suc kp) kx inner f.around hx.real hp.real hx.key_is hp.key_is
        hx.low_is hp.high_is hx.parent_is fi (omega arith) from_x to_x (omega arith) (omega arith)
        (omega arith) (omega arith) (inr (omega arith)) (inl (omega arith)) in
    let rest =
      others t right c x kx p kp (suc kp) kx inner f.around hx.real hp.real hx.key_is hp.key_is
        hx.low_is hp.high_is hx.parent_is fi (omega arith) from_x to_x (omega arith) (omega arith)
        (omega arith) (omega arith) (inr (omega arith)) (inl (omega arith)) in
    let free =
      below t right c x kx p kp (suc kp) kx inner f.around hx.real hp.real hx.key_is hp.key_is
        hx.low_is hp.high_is hx.parent_is fi (omega arith) from_x to_x (omega arith) (omega arith)
        (omega arith) (omega arith) (inr (omega arith)) (inl (omega arith)) in
    record {
      around =
          around_pivot t right c x kx p kp (suc kp) kx inner f.around hx.real hp.real hx.key_is
            hp.key_is hx.low_is hp.high_is hx.parent_is fi (omega arith) from_x to_x (omega arith)
            (omega arith) (omega arith) (omega arith) (inr (omega arith)) (inl (omega arith));
      here = (
        record {
          real = hp.real;
          key_is = rw (now.at_p) hp.key_is;
          red_is = rw (now.at_p) hp.red_is;
          parent_is = rw (now.at_p) refl;
          low_is = rw (now.at_p) hp.low_is;
          high_is = rw (now.at_p) refl;
        },
        from_p,
        omega arith,
        tree_frame (lo_of c) kp p far
            (λ y real p' q'.
              rest y real (omega arith) (omega arith) (inl (omega arith))
                (free y real (omega arith) (omega arith)))
            ff,
        (
          record {
            real = hx.real;
            key_is = rw (now.at_x) hx.key_is;
            red_is = rw (now.at_x) hx.red_is;
            parent_is = rw (now.at_x) refl;
            low_is = rw (now.at_x) refl;
            high_is = rw (now.at_x) hx.high_is;
          },
          omega arith,
          to_x,
          inner_hung t right c x kx p kp (suc kp) kx inner f.around hx.real hp.real hx.key_is
              hp.key_is hx.low_is hp.high_is hx.parent_is fi (omega arith) from_x to_x (omega arith)
              (omega arith) (omega arith) (omega arith) (inr (omega arith)) (inl (omega arith)),
          tree_frame (suc kx) (hi_of c) x outer
              (λ y real p' q'.
                rest y real (omega arith) (omega arith) (inr (omega arith))
                  (free y real (omega arith) (omega arith)))
              fo,
        ),
      );
    }
