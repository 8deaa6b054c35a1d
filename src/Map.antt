-- ===== src/Map.antt =====
-- insert and move of src/map.c as requests: the checks on the ids that come from a client, and then
-- the change of the tree, the index and the files. What they do for the views, which is between the
-- checks and the change, is left out: the messages, and the vbranches that are added or detached.
pub mod Requests
pub mod Runs
use treedb.Prelude.{
  ℕ, zero, suc, ◌+◌, Bool, true, false, Option, none, some, not, ◌||◌, ◌==◌, if◌then◌else◌, ◌>>=◌,
}
use treedb.Index.{Index}
use treedb.Branch.{Text, Branches, parent_of}
use treedb.Store.{Store, fuel_of, branch_index_get, allocate, plant, relocate}

-- The walk of move from the new parent to the root, which looks for `b` on its way.
unfoldable pub before_loop : ℕ → Branches → ℕ → ℕ → Bool → Option Bool
before_loop zero h b bt npb_before = none
before_loop (suc fuel) h b bt npb_before =
    let before = if bt == b then false else npb_before in
    elim (parent_of h bt) [ none ↦ some before | some p ↦ before_loop fuel h b p before ]

module _ {T : Type 0} ⦃ix : Index T⦄ where
  -- The change, unless the branch is not where the client sees it, or is at or above the new parent.
  -- The flag is the value that move returns.
  unfoldable pub move_known : Store T → ℕ → ℕ → ℕ → ℕ → ℕ → Option (Store T × Bool)
  unfolding before_loop
  move_known s b opb npb old_parent_id branch_pos =
      before_loop (fuel_of s) s.branches b npb true >>= λ npb_before.
      if not ((s.branches opb).id == old_parent_id) || not npb_before
      then some (s, false)
      else relocate s b opb npb branch_pos >>= λ t. some (t, true)

  -- move for a branch with the parent `opb`, if it has one, and the new parent that was found.
  unfoldable pub move_to : Store T → ℕ → Option ℕ → Option ℕ → ℕ → ℕ → Option (Store T × Bool)
  unfolding move_known
  move_to s b none npb old_parent_id branch_pos = some (s, false)
  move_to s b (some opb) none old_parent_id branch_pos = some (s, false)
  move_to s b (some opb) (some npb) old_parent_id branch_pos =
      move_known s b opb npb old_parent_id branch_pos

  unfoldable pub move : Store T → ℕ → ℕ → ℕ → ℕ → Option (Store T × Bool)
  unfolding move_to branch_index_get
  move s new_parent_id old_parent_id branch_id branch_pos = elim (branch_index_get s branch_id) [
    | none ↦ some (s, false)
    | some b ↦
        move_to s b (parent_of s.branches b) (branch_index_get s new_parent_id) old_parent_id
          branch_pos
  ]

  -- insert, with the branches of the two ids that were found; the outcome has the branch that it
  -- returns.
  unfoldable pub insert_to :
      Store T → Option ℕ → Option ℕ → ℕ → ℕ → Text → ℕ → ℕ → Option (Store T × Option ℕ)
  insert_to s (some nb) pb id at text mark document = some (s, none)
  insert_to s none none id at text mark document = some (s, none)
  insert_to s none (some pb) id at text mark document =
      plant (allocate s id text mark document) s.next pb at >>= λ t. some (t, some s.next)

  unfoldable pub insert : Store T → ℕ → ℕ → ℕ → Text → ℕ → ℕ → Option (Store T × Option ℕ)
  unfolding insert_to branch_index_get
  insert s parent_branch_id branch_id branch_pos branch_text branch_mark_id branch_document_id =
      insert_to s (branch_index_get s branch_id) (branch_index_get s parent_branch_id) branch_id
        branch_pos branch_text branch_mark_id branch_document_id
