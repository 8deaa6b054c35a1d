-- ===== src/Io/Writes.antt =====
-- io_branch_new, io_branch_moved and io_branch_deleted (src/io.c:162): which records each writes.
use treedb.Prelude.{ℕ, ◌+◌, ◌%◌, ◌≡◌, some, List, ◌∷◌, ◌++◌, arith, drop}
use treedb.Prelude.Int.{pos}
use treedb.Branch.{Branches, parent_of, kids, u16_mod}
use treedb.Branch.Arrays.{index_of}
use treedb.Branch.Forest.{Shape}
use treedb.Io.{Disk, to_u16, io_save_branch_data, io_branch_new, io_branch_moved, io_branch_deleted}
use treedb.Io.Heads.{
  has-kids_parent, index_of-lt, branch_get_pos_lem, save_one, save_all, save_all-append,
  io_save_branch_head_lem, io_childs_reordered_lem,
}

-- The place of a child fits an uint16_t.
pub to_u16-index_of :
    {h : Branches} (b p : ℕ)
    → Shape h
    → parent_of h b ≡ some p
    → to_u16 (pos (index_of b (kids h p))) ≡ index_of b (kids h p)
unfolding to_u16
to_u16-index_of {h} b p s e =
    omega (arith, index_of-lt b (kids h p) (has-kids_parent b p s e), s.sized p, s.small p)

-- The branch, its parent, and the childs from the branch on.
abbrev pub written_new : Branches → ℕ → ℕ → List ℕ
written_new h b p = b ∷ p ∷ drop (index_of b (kids h p)) (kids h p)

-- On a heap with well-formed links, for a branch with a parent: io_branch_new saves the records of
-- the branch, of its parent, and of the childs of the parent from the branch on, in this order, and
-- then runs what io_save_branch_data runs for the branch.
pub io_branch_new_lem :
    {h : Branches} (d : Disk) (b p : ℕ)
    → Shape h
    → parent_of h b ≡ some p
    → io_branch_new h d b ≡ io_save_branch_data h (save_all h d (written_new h b p)) b
unfolding io_branch_new save_all
io_branch_new_lem {h} d b p s e =
    let d1 = save_one h d b in
    let d2 = save_one h d1 p in
    ground (
      arith,
      io_save_branch_head_lem d b s,
      io_save_branch_head_lem d1 p s,
      branch_get_pos_lem b p s e,
      to_u16-index_of b p s e,
      io_childs_reordered_lem d2 p (index_of b (kids h p)) s,
    )

-- The branch, its parents, and their childs from the two places on.
abbrev pub written_moved : Branches → ℕ → ℕ → ℕ → ℕ → List ℕ
written_moved h b p old_parent old_pos =
    b
    ∷ p
    ∷ old_parent
    ∷ (drop (index_of b (kids h p) + 1) (kids h p) ++ drop old_pos (kids h old_parent))

-- On a heap with well-formed links, for a branch with a parent: io_branch_moved returns, and what it
-- does to the files is to save the records of the branch, of its parent, of the old parent, of the
-- childs of the parent behind the branch, and of the childs of the old parent from the old place on.
pub io_branch_moved_lem :
    {h : Branches} (d : Disk) (b p old_parent old_pos : ℕ)
    → Shape h
    → parent_of h b ≡ some p
    → io_branch_moved h d b old_parent old_pos
      ≡ some (save_all h d (written_moved h b p old_parent old_pos))
unfolding io_branch_moved save_all
io_branch_moved_lem {h} d b p old_parent old_pos s e =
    let k = index_of b (kids h p) in
    let d1 = save_one h d b in
    let d2 = save_one h d1 p in
    let d3 = save_one h d2 old_parent in
    let d4 = save_all h d3 (drop (k + 1) (kids h p)) in
    let low = index_of-lt b (kids h p) (has-kids_parent b p s e) in
    let whole : (k + 1) % u16_mod ≡ k + 1 = omega (arith, s.sized p, s.small p) in
    ground (
      arith,
      io_save_branch_head_lem d b s,
      io_save_branch_head_lem d1 p s,
      io_save_branch_head_lem d2 old_parent s,
      branch_get_pos_lem b p s e,
      to_u16-index_of b p s e,
      io_childs_reordered_lem d3 p (k + 1) s,
      io_childs_reordered_lem d4 old_parent old_pos s,
      save_all-append h d3 (drop (k + 1) (kids h p)) (drop old_pos (kids h old_parent)),
    )

-- On a heap with well-formed links: io_branch_deleted returns, and what it does to the files is to
-- save the records of the branch, of the old parent, and of the childs of the old parent from the
-- old place on.
pub io_branch_deleted_lem :
    {h : Branches} (d : Disk) (b old_parent old_pos : ℕ)
    → Shape h
    → io_branch_deleted h d b old_parent old_pos
      ≡ some (save_all h d (b ∷ old_parent ∷ drop old_pos (kids h old_parent)))
unfolding io_branch_deleted save_all
io_branch_deleted_lem {h} d b old_parent old_pos s =
    let d1 = save_one h d b in
    ground (
      arith,
      io_save_branch_head_lem d b s,
      io_save_branch_head_lem d1 old_parent s,
      io_childs_reordered_lem (save_one h d1 old_parent) old_parent old_pos s,
    )
