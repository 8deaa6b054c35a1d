-- ===== src/Search.antt =====
-- search_find and search_find2 (src/search.c:170): the branches of the map that the full-text index
-- and the table of notes name.
--
-- The rows that SQLite gives, the ids in their order, are an argument.
pub mod Hits
use treedb.Prelude.{
  ℕ, zero, suc, ◌+◌, Bool, true, false, Option, none, some, List, [], ◌∷◌, ◌==◌, if◌then◌else◌,
  ◌>>=◌, map_opt,
}
use treedb.Index.{Index}
use treedb.Branch.{Branches, parent_of}
use treedb.Store.{Store, fuel_of, branch_index_get}

-- The do loop that looks for the id `from_id` from a branch upwards.
unfoldable pub below_loop : ℕ → Branches → ℕ → ℕ → Option Bool
below_loop zero h from_id t = none
below_loop (suc fuel) h from_id t =
    if (h t).id == from_id
    then some true
    else elim (parent_of h t) [ none ↦ some false | some p ↦ below_loop fuel h from_id p ]

module _ {T : Type 0} ⦃ix : Index T⦄ where
  -- The loop over the rows, with the room that is left in the list.
  unfoldable pub find_loop : Store T → ℕ → List ℕ → ℕ → Option (List ℕ)
  unfolding below_loop branch_index_get
  find_loop s from_id [] left = some []
  find_loop s from_id (id ∷ ids) zero = some []
  find_loop s from_id (id ∷ ids) (suc left) = elim (branch_index_get s id) [
    | none ↦ find_loop s from_id ids (suc left)
    | some b ↦ below_loop (fuel_of s) s.branches from_id b >>= λ below. elim below [
      | true ↦ map_opt (λ l. b ∷ l) (find_loop s from_id ids left)
      | false ↦ find_loop s from_id ids (suc left)
    ]
  ]

  -- With the flag `test` the function returns with nothing written to the list, which its caller
  -- reads: that is taken for a fault.
  unfoldable pub search_find : Store T → ℕ → List ℕ → ℕ → Option (List ℕ)
  unfolding find_loop
  search_find s from_id rows branch_max =
      if s.disk.test then none else find_loop s from_id rows branch_max

  unfoldable pub find2_loop : Store T → List ℕ → ℕ → List ℕ
  unfolding branch_index_get
  find2_loop s [] left = []
  find2_loop s (id ∷ ids) zero = []
  find2_loop s (id ∷ ids) (suc left) = elim (branch_index_get s id) [
    | none ↦ find2_loop s ids (suc left)
    | some b ↦ b ∷ find2_loop s ids left
  ]

  unfoldable pub search_find2 : Store T → List ℕ → ℕ → Option (List ℕ)
  unfolding find2_loop
  search_find2 s rows branch_max = if s.disk.test then none else some (find2_loop s rows branch_max)
