-- ===== src/Rbt/Tests.antt =====
-- rbt.c at a tree of three nodes.
use balrog_os.Prelude.{ℕ, ◌≡◌, refl, true, false, List, arith, some}
use balrog_os.Rbt.{Rbt, left, rotate, rbt_search, rbt_minimum}
use balrog_os.Rbt.Shape.{leaf, node, top, Focus}
use balrog_os.Rbt.Sample.{three, three_entries, three-Focus, three-IsRbt}
use balrog_os.Rbt.Rotated.{rotate-Focus}
use balrog_os.Rbt.Fixup.{IsRbt}
use balrog_os.Rbt.Order.{lookup}
use balrog_os.Rbt.Insert.{Inserts, rbt_insert-Inserts}
use balrog_os.Rbt.Search.{or_null, first, rbt_search-lookup, rbt_minimum-first}
use balrog_os.Rbt.Remove.{rbt_delete_key}
use balrog_os.Rbt.Delete.{Deletes, rbt_delete-Deletes}
use balrog_os.Rbt.Keys.{keys_of, without, rbt_delete_key-keys}

rotate-Focus_example :
    Focus
      (rotate three 2 left)
      top
      (node (node (node leaf 1 10 true leaf) 2 20 false leaf) 3 30 true leaf)
rotate-Focus_example =
    rotate-Focus left (node leaf 1 10 true leaf) 2 20 false leaf 3 30 true leaf three-Focus

rbt_insert-Inserts_example : Inserts 5 three 40 4 three_entries
rbt_insert-Inserts_example =
    rbt_insert-Inserts 5 three 40 4 three_entries three-IsRbt (omega arith) (omega arith)
      (omega arith) (omega arith, (omega arith, (omega arith, tt)))

rbt_search-lookup_example : rbt_search 5 three 30 ≡ some (or_null (lookup 30 three_entries))
rbt_search-lookup_example =
    rbt_search-lookup 5 three 30 three_entries three-IsRbt (omega arith) (omega arith)

rbt_minimum-first_example : rbt_minimum 5 three ≡ some (first three_entries)
rbt_minimum-first_example = rbt_minimum-first 5 three three_entries three-IsRbt (omega arith)

rbt_delete-Deletes_example : Deletes 7 three 20 2 three_entries
rbt_delete-Deletes_example =
    rbt_delete-Deletes 7 three 20 2 three_entries three-IsRbt (omega arith) (omega arith) refl

rbt_delete_key-keys_example :
    (done : Rbt) × (es' : List (ℕ × ℕ)) × (rbt_delete_key 7 three 10 ≡ some done)
    × IsRbt done es'
    × (keys_of es' ≡ without 10 (keys_of three_entries))
rbt_delete_key-keys_example =
    rbt_delete_key-keys 7 three 10 three_entries three-IsRbt (omega arith) (omega arith)
