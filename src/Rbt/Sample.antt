-- ===== src/Rbt/Sample.antt =====
-- A tree of three nodes, for tests.
use balrog_os.Prelude.{ℕ, refl, true, false, [], ◌∷◌, List, arith, if◌then◌else◌, ◌==◌}
use balrog_os.Rbt.{Rbt, Nodes}
use balrog_os.Rbt.Shape.{Tree, leaf, node, top, Focus}
use balrog_os.Rbt.Fixup.{IsRbt}

abbrev pub three_nodes : Nodes
three_nodes a =
    if a == 2
    then record { key = 20; value = 102; red = false; parent = 0; low = 1; high = 3 }
    else if a == 1
    then record { key = 10; value = 101; red = true; parent = 2; low = 0; high = 0 }
    else record { key = 30; value = 103; red = true; parent = 2; low = 0; high = 0 }

abbrev pub three : Rbt
three = record { root = 2; leftmost = 0; nodes = three_nodes }

abbrev pub three_entries : List (ℕ × ℕ)
three_entries = (1, 10) ∷ (2, 20) ∷ (3, 30) ∷ []

abbrev pub three_tree : Tree
three_tree = node (node leaf 1 10 true leaf) 2 20 false (node leaf 3 30 true leaf)

pub three-Focus : Focus three top three_tree
three-Focus = record {
  around = refl;
  here = (
    record {
      real = omega arith;
      key_is = refl;
      red_is = refl;
      parent_is = refl;
      low_is = refl;
      high_is = refl;
    },
    omega arith,
    omega arith,
    (
      record {
        real = omega arith;
        key_is = refl;
        red_is = refl;
        parent_is = refl;
        low_is = refl;
        high_is = refl;
      },
      omega arith,
      omega arith,
      tt,
      tt,
    ),
    (
      record {
        real = omega arith;
        key_is = refl;
        red_is = refl;
        parent_is = refl;
        low_is = refl;
        high_is = refl;
      },
      omega arith,
      omega arith,
      tt,
      tt,
    ),
  );
}

pub three-IsRbt : IsRbt three three_entries
three-IsRbt = record {
  tree = three_tree;
  holds = three-Focus;
  blacks = 1;
  colors = ((refl, refl, refl), (refl, refl, refl));
  same = refl;
}
