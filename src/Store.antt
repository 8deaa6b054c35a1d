-- ===== src/Store.antt =====
-- The tree of a map with its index and its files: the changes that insert, move and delete of
-- src/map.c make outside the views, and the index of src/branch.c.
--
-- An allocation takes the address `next`; failures of malloc are left out. A walk to the root has
-- fuel for `next` + 1 rounds, which is enough since the ancestors of a branch are different
-- addresses below `next`.
pub mod Invariant
pub mod Plant
pub mod Planted
pub mod Prune
pub mod Cleared
pub mod Move
pub mod Relocate
pub mod Insert
use treedb.Prelude.{
  ℕ, zero, suc, ◌+◌, ◌-◌, ◌%◌, ◌^◌, Bool, true, false, Option, none, some, List, [], ◌∷◌, not, ◌&&◌,
  ◌==◌, ltb, if◌then◌else◌, ◌>>=◌,
}
use treedb.Prelude.Int.{ℤ, pos, negsuc}
use treedb.Codec.Utf8.{utf8slice}
use treedb.Index.{Index}
use treedb.Branch.{
  Text, Data, Branch, Branches, update, parent_of, u32_mod, branch_add, branch_detach,
  branch_get_pos,
}
use treedb.Io.{Disk, to_u16, io_branch_new, io_branch_moved, io_branch_deleted}

pub record Store (T : Type 0) : Type 0 where
  pub branches : Branches
  pub branch_index : T
  pub branch_n : ℕ
  pub disk : Disk
  pub next : ℕ

-- `(int) n` for an uint32_t.
unfoldable pub to_int : ℕ → ℤ
to_int n = if ltb n (2 ^ 31) then pos n else negsuc (u32_mod - 1 - n)

-- The block that calloc and the next writes of insert make.
abbrev pub new_branch : ℕ → ℕ → Text → ℕ → Branch
new_branch findex id text note_id = record {
  findex = findex;
  id = id;
  parent = none;
  child_list = none;
  child_n = 0;
  content = record {
    text = some text;
    note_id = note_id;
    total_branch_n = 0;
    vbranch_list = [];
    vbranch_n = 0;
  };
}

module _ {T : Type 0} ⦃ix : Index T⦄ where
  abbrev pub fuel_of : Store T → ℕ
  fuel_of s = s.next + 2

  unfoldable pub branch_index_put : Store T → ℕ → Store T
  branch_index_put s b = record s { branch_index = ix.replace s.branch_index (s.branches b).id b }

  unfoldable pub branch_index_get : Store T → ℕ → Option ℕ
  branch_index_get s id = ix.find s.branch_index id

  unfoldable pub branch_index_delete : Store T → ℕ → Store T
  branch_index_delete s id = record s { branch_index = ix.delete s.branch_index id }

  -- insert, the allocation of `new_b` and the writes to it.
  unfoldable pub allocate : Store T → ℕ → Text → ℕ → ℕ → Store T
  allocate s branch_id branch_text branch_mark_id branch_document_id = record s {
    branches = update s.branches s.next (
        new_branch s.branch_n branch_id (utf8slice branch_text 5000) (
          if not (branch_document_id == 0) && not (branch_mark_id == 0)
          then branch_document_id
          else 0));
    branch_n = (s.branch_n + 1) % u32_mod;
    next = s.next + 1;
  }

  -- insert, from branch_add to io_branch_new, for a branch that is allocated.
  unfoldable pub plant : Store T → ℕ → ℕ → ℕ → Option (Store T)
  unfolding branch_index_put
  plant s new_b pb branch_pos =
      branch_add (fuel_of s) s.branches new_b pb (to_int branch_pos) >>= λ h.
      let s1 = branch_index_put (record s { branches = h }) new_b in
      io_branch_new s1.branches s1.disk new_b >>= λ d. some (record s1 { disk = d })

  -- move, from the reading of old_pos on.
  unfoldable pub relocate : Store T → ℕ → ℕ → ℕ → ℕ → Option (Store T)
  relocate s b opb npb branch_pos = branch_get_pos s.branches b >>= λ at.
      branch_detach (fuel_of s) s.branches b >>= λ h1.
      branch_add (fuel_of s) h1 b npb (pos branch_pos) >>= λ h2.
      io_branch_moved h2 s.disk b opb (to_u16 at) >>= λ d.
      some (record s { branches = h2; disk = d })

  -- delete, from the reading of old_parent_branch on; old_pos goes through an uint8_t.
  unfoldable pub prune : Store T → ℕ → Option (Store T)
  unfolding branch_index_delete
  prune s b = elim (parent_of s.branches b) [
    | none ↦ none
    | some old_parent ↦ branch_get_pos s.branches b >>= λ at.
        branch_detach (fuel_of s) s.branches b >>= λ h1.
        let s1 = branch_index_delete (record s { branches = h1 }) (h1 b).id in
        let h2 = update h1 b (record (h1 b) { id = 0 }) in
        io_branch_deleted h2 s1.disk b old_parent (to_u16 at % 2 ^ 8) >>= λ d.
        some (record s1 { branches = h2; disk = d })
  ]
