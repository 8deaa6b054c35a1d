-- ===== src/Tests/Asks.antt =====
-- Requests on the map of Tests/Tree.antt.
use treedb.Prelude.{ℕ, ◌≡◌, Bool, true, Option, some, [], ◌∷◌, arith}
use treedb.Index.{FunTable, fun_index}
use treedb.Map.{move, insert}
use treedb.Map.Requests.{IsMoveOf, IsPlaced, IsInsertOf, move-IsMoveOf, insert-IsInsertOf}
use treedb.Store.{Store}
use treedb.Tests.Tree.{tree_store, tree_store-IsStored}

move-IsMoveOf_example :
    (t : Store FunTable) × (r : Bool) × (move tree_store 7 5 9 0 ≡ some (t, r))
    × IsMoveOf tree_store-IsStored t r
    × (r ≡ true → IsPlaced tree_store-IsStored t 9 7)
move-IsMoveOf_example = move-IsMoveOf tree_store-IsStored 7 5 9 0 (λ npb e. ground arith)

insert-IsInsertOf_example :
    (t : Store FunTable) × (o : Option ℕ) × (insert tree_store 5 11 1 (b'n' ∷ []) 0 0 ≡ some (t, o))
    × IsInsertOf tree_store-IsStored t o 5 11
insert-IsInsertOf_example =
    insert-IsInsertOf tree_store-IsStored 5 11 1 (b'n' ∷ []) 0 0 (omega arith)
      (λ pb e. ground arith)
