-- ===== src/Io.antt =====
-- src/io.c and src/io.h: the file `bhead`, which holds one record for each branch, and the rows
-- of the table `branch`.
--
-- The file maps the offset of a record to the record. An offset is an uint32_t, so two records
-- meet when a findex passes 2 ^ 32 / 20; below that the offsets are multiples of 20 apart. What
-- SQLite does is not modelled: `rows` is the list of the statements that were run. Failures of the
-- stream and of SQLite are ignored by the code, and are left out.
pub mod Heads
pub mod Writes
pub mod Places
use treedb.Prelude.{
  ℕ, zero, suc, ◌+◌, ◌-◌, ◌*◌, ◌%◌, ◌^◌, Bool, true, false, Option, none, some, List, [], ◌∷◌, ◌++◌,
  if◌then◌else◌, ◌>>=◌, drop,
}
use treedb.Prelude.Int.{ℤ, pos, negsuc}
use treedb.Branch.{Text, Branches, parent_of, kids, update, u16_mod, u32_mod, branch_get_pos}

-- `bhead_t`.
pub record Bhead : Type 0 where
  pub id : ℕ
  pub parent_id : ℕ
  pub place : ℕ
  pub child_n : ℕ

-- `INSERT OR REPLACE INTO branch(rowid, note_id, text)`.
pub record Row : Type 0 where
  pub rowid : ℕ
  pub note_id : ℕ
  pub text : Text

-- What a map keeps on disk, and its flag `test`, which turns the file off.
pub record Disk : Type 0 where
  pub test : Bool
  pub heads : ℕ → Bhead
  pub rows : List Row

-- `(uint16_t) n`.
unfoldable pub to_u16 : ℤ → ℕ
to_u16 (pos n) = n % u16_mod
to_u16 (negsuc n) = u16_mod - 1 - n % u16_mod

-- `findex * sizeof (bhead_t)` as an uint32_t; the packed record has 20 bytes.
unfoldable pub offset : Branches → ℕ → ℕ
offset h b = (h b).findex * 20 % u32_mod

-- The record that io_save_branch_head writes.
unfoldable pub head_of : Branches → ℕ → Option Bhead
unfolding to_u16
head_of h b = elim (parent_of h b) [
  | none ↦ some (record { id = (h b).id; parent_id = 0; place = 0; child_n = (h b).child_n })
  | some p ↦ branch_get_pos h b >>= λ at.
      some
        (record { id = (h b).id; parent_id = (h p).id; place = to_u16 at; child_n = (h b).child_n })
]

unfoldable pub io_save_branch_head : Branches → Disk → ℕ → Option Disk
unfolding offset
io_save_branch_head h d b =
    if d.test
    then some d
    else head_of h b >>= λ head. some (record d { heads = update d.heads (offset h b) head })

-- A text that is NULL stops strlen.
unfoldable pub io_save_branch_data : Branches → Disk → ℕ → Option Disk
io_save_branch_data h d b = (h b).content.text >>= λ t. some (record d {
  rows = d.rows ++ record { rowid = (h b).id; note_id = (h b).content.note_id; text = t } ∷ [];
})

-- The loop of io_childs_reordered: `left` rounds over the places that `cl` still has.
unfoldable pub reorder_loop : ℕ → List ℕ → Branches → Disk → Option Disk
reorder_loop zero cl h d = some d
reorder_loop (suc left) [] h d = none
reorder_loop (suc left) (c ∷ cl) h d = io_save_branch_head h d c >>= λ d'. reorder_loop left cl h d'

unfoldable pub io_childs_reordered : Branches → Disk → ℕ → ℕ → Option Disk
unfolding reorder_loop
io_childs_reordered h d b pos_affected =
    reorder_loop ((h b).child_n - pos_affected) (drop pos_affected (kids h b)) h d

unfoldable pub io_branch_moved : Branches → Disk → ℕ → ℕ → ℕ → Option Disk
io_branch_moved h d b old_parent old_pos = io_save_branch_head h d b >>= λ d1.
    elim (parent_of h b) [
      | none ↦ none
      | some p ↦ io_save_branch_head h d1 p >>= λ d2. io_save_branch_head h d2 old_parent >>= λ d3.
          branch_get_pos h b >>= λ at.
          io_childs_reordered h d3 p ((to_u16 at + 1) % u16_mod) >>= λ d4.
          io_childs_reordered h d4 old_parent old_pos
    ]

unfoldable pub io_branch_deleted : Branches → Disk → ℕ → ℕ → ℕ → Option Disk
io_branch_deleted h d b old_parent old_pos = io_save_branch_head h d b >>= λ d1.
    io_save_branch_head h d1 old_parent >>= λ d2. io_childs_reordered h d2 old_parent old_pos

unfoldable pub io_branch_new : Branches → Disk → ℕ → Option Disk
io_branch_new h d b = io_save_branch_head h d b >>= λ d1.
    (elim (parent_of h b) [
      | none ↦ some d1
      | some p ↦ io_save_branch_head h d1 p >>= λ d2.
          branch_get_pos h b >>= λ at. io_childs_reordered h d2 p (to_u16 at)
    ])
    >>= λ d3. io_save_branch_data h d3 b
