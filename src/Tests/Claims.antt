-- ===== src/Tests/Claims.antt =====
-- The theorems of the library at concrete inputs: the tree of Tests/Tree.antt, and short texts.
use treedb.Prelude.{
  ℕ, ◌+◌, ◌≤◌, ◌<◌, ◌≡◌, refl, none, some, List, [], ◌∷◌, ◌++◌, arith, ◌==◌, if◌then◌else◌, length,
  drop, insert_at,
}
use treedb.Prelude.Int.{pos}
use treedb.Codec.Hex.{hex2id64, hex2id32, id2hex64, id2hex32}
use treedb.Codec.Hex.RoundTrip.{hex2id64-id2hex64, hex2id32-id2hex32}
use treedb.Codec.Utf8.{utf8len, utf8index, utf8slice}
use treedb.Codec.Utf8.Position.{IsCharAt, utf8index_lem}
use treedb.Codec.Utf8.Slice.{byte_limit, utf8slice_lem}
use treedb.Index.{FunTable, fun_index}
use treedb.Branch.{
  fill, Branches, frame, parent_of, kids, clamp_pos, branch_add, branch_detach, branch_get_pos,
}
use treedb.Branch.Forest.{IsForest}
use treedb.Branch.Add.{IsAdded, branch_add-IsForest}
use treedb.Branch.Detach.{IsDetached, branch_detach-IsForest}
use treedb.Branch.Full.{branch_add-full}
use treedb.Branch.Arrays.{index_of}
use treedb.Io.{offset, io_branch_new, io_branch_moved, io_branch_deleted, io_save_branch_data}
use treedb.Io.Heads.{save_all, branch_get_pos_lem}
use treedb.Io.Writes.{
  written_new, written_moved, io_branch_new_lem, io_branch_moved_lem, io_branch_deleted_lem,
}
use treedb.Store.{Store, allocate, plant, relocate, prune, to_int}
use treedb.Store.Invariant.{IsStored}
use treedb.Store.Plant.{with_new}
use treedb.Store.Insert.{plant-IsStored}
use treedb.Store.Move.{relocate-IsStored}
use treedb.Store.Cleared.{without}
use treedb.Store.Prune.{prune-IsStored}
use treedb.Tests.Tree.{
  tree, tree_disk, tree_store, is_live, Up-tree_0, Up-tree_1, tree-IsForest, tree_store-IsStored,
}

branch_add-IsForest_example :
    (g : Branches) × (branch_add 9 tree 3 1 (pos 4) ≡ some g)
    × IsForest g
    × IsAdded g tree 3 1 (pos 4) (0 ∷ [])
branch_add-IsForest_example =
    branch_add-IsForest 9 3 1 (pos 4) (0 ∷ []) tree-IsForest refl (omega arith) Up-tree_1 refl
      (omega arith)

branch_detach-IsForest_example :
    (g : Branches) × (branch_detach 9 tree 1 ≡ some g) × IsForest g × IsDetached g tree 1 0 []
branch_detach-IsForest_example =
    branch_detach-IsForest 9 1 0 [] tree-IsForest refl Up-tree_0 (omega arith)

plant-IsStored_example :
    (t : Store FunTable) × (plant (allocate tree_store 11 (b'n' ∷ []) 0 0) 3 0 1 ≡ some t)
    × IsStored t (with_new is_live 3)
    × (kids t.branches 0 ≡ insert_at (clamp_pos (to_int 1) 2) 3 (1 ∷ 2 ∷ []))
    × ((t.branches 3).content.text ≡ some (utf8slice (b'n' ∷ []) 5000))
    × (fun_index.find t.branch_index 11 ≡ some 3)
plant-IsStored_example =
    plant-IsStored 11 (b'n' ∷ []) 0 0 0 1 tree_store-IsStored refl (omega arith) (omega arith) refl

relocate-IsStored_example :
    (t : Store FunTable) × (relocate tree_store 2 0 1 0 ≡ some t)
    × IsStored t is_live
    × ((x : ℕ) → parent_of t.branches x ≡ (if 2 == x then some 1 else parent_of tree x))
    × ((x : ℕ) → frame (t.branches x) ≡ frame (tree x))
relocate-IsStored_example =
    relocate-IsStored 2 0 1 0 (0 ∷ []) tree_store-IsStored refl refl refl Up-tree_1 refl
      (omega arith)

prune-IsStored_example :
    (t : Store FunTable) × (prune tree_store 1 ≡ some t)
    × IsStored t (without is_live 1)
    × (fun_index.find t.branch_index 7 ≡ none)
    × ((t.disk.heads (offset tree 1)).id ≡ 0)
prune-IsStored_example = prune-IsStored 1 0 tree_store-IsStored refl refl refl

hex2id64-id2hex64_example : (hex2id64 (id2hex64 48879) ≡ 48879) × (length (id2hex64 48879) ≡ 16)
hex2id64-id2hex64_example = hex2id64-id2hex64 48879 (omega arith)

hex2id32-id2hex32_example : (hex2id32 (id2hex32 48879) ≡ 48879) × (length (id2hex32 48879) ≡ 8)
hex2id32-id2hex32_example = hex2id32-id2hex32 48879 (omega arith)

abbrev word : List ℕ
word = 97 ∷ 195 ∷ 169 ∷ []

utf8slice_lem_example :
    ((rest : List ℕ) × (utf8slice word 1 ++ rest ≡ word))
    × (utf8len (utf8slice word 1) ≤ 1)
    × (length (utf8slice word 1) ≤ byte_limit 1)
    × (utf8len word ≤ 1 → length word ≤ byte_limit 1 → utf8slice word 1 ≡ word)
utf8slice_lem_example = utf8slice_lem word 1

branch_get_pos_lem_example : branch_get_pos tree 2 ≡ some (pos (index_of 2 (kids tree 0)))
branch_get_pos_lem_example = branch_get_pos_lem 2 0 tree-IsForest.shape refl

io_branch_new_lem_example :
    io_branch_new tree tree_disk 2
    ≡ io_save_branch_data tree (save_all tree tree_disk (written_new tree 2 0)) 2
io_branch_new_lem_example = io_branch_new_lem tree_disk 2 0 tree-IsForest.shape refl

io_branch_moved_lem_example :
    io_branch_moved tree tree_disk 2 0 0
    ≡ some (save_all tree tree_disk (written_moved tree 2 0 0 0))
io_branch_moved_lem_example = io_branch_moved_lem tree_disk 2 0 0 0 tree-IsForest.shape refl

io_branch_deleted_lem_example :
    io_branch_deleted tree tree_disk 2 0 1
    ≡ some (save_all tree tree_disk (2 ∷ 0 ∷ drop 1 (kids tree 0)))
io_branch_deleted_lem_example = io_branch_deleted_lem tree_disk 2 0 1 tree-IsForest.shape

-- A heap whose cells claim 65535 childs.
abbrev crowded : Branches
crowded x = record (tree x) { child_n = 65535 }

branch_add-full_example :
    (branch_add 9 crowded 3 1 (pos 4) ≡ none)
    × (fill 70000 0 (kids crowded 1) 3 (clamp_pos (pos 4) 65535) (65535 + 1) ≡ none)
branch_add-full_example = branch_add-full crowded 9 70000 3 1 (pos 4) refl

utf8index_lem_example :
    (utf8len word ≤ 1 → utf8index word 1 ≡ none)
    × (1 < utf8len word → (k : ℕ) × (utf8index word 1 ≡ some k) × IsCharAt word 1 k)
utf8index_lem_example = utf8index_lem word 1 (omega arith)
