-- ===== src/Tests/Reload.antt =====
-- The map of Tests/Tree.antt written to its file and loaded again.
use treedb.Prelude.{
  ◌≤◌, List, Bool-cases, inl, inr, length, ℕ, ◌≡◌, ◌<◌, refl, true, false, Option, none, some, [],
  ◌∷◌, arith, ◌==◌, ltb, if◌then◌else◌, zero, suc,
}
use treedb.Index.{FunTable, fun_index}
use treedb.Branch.{Text}
use treedb.Load.{calloc_map, io_load_map, load_tree, branch_calculate}
use treedb.Load.Back.{loaded, io_load_map-loaded}
use treedb.Load.Made.{records}
use treedb.Load.Calculate.{branch_calculate-IsForest}
use treedb.Load.Found.{bheads}
use treedb.Load.Image.{placed}
use treedb.Load.Restored.{IsCopy, load_tree-IsStored}
use treedb.Branch.{Branches}
use treedb.Branch.Chain.{Up, Up-root}
use treedb.Branch.Forest.{IsForest}
use treedb.Branch.Weight.{SameLinks}
use treedb.Load.Placed.{at, head_in, IsFile}
use treedb.Store.{Store}
use treedb.Store.Invariant.{IsStored, length-Up_le}
use treedb.Tests.Tree.{tree, tree_store, tree_disk, is_live, tree_store-IsStored}

abbrev slot : ℕ → Option ℕ
slot i = if ltb i 3 then some i else none

abbrev row : ℕ → Option (ℕ × Text)
row id =
    if id == 5
    then some (0, b'r' ∷ [])
    else if id == 7
    then some (0, b's' ∷ [])
    else if id == 9
    then some (0, b't' ∷ [])
    else none

below_three : (P : ℕ → Type 0) (b : ℕ) → b < 3 → P 0 → P 1 → P 2 → P b
below_three P zero low p0 p1 p2 = p0
below_three P (suc zero) low p0 p1 p2 = p1
below_three P (suc (suc zero)) low p0 p1 p2 = p2
below_three P (suc (suc (suc b))) low p0 p1 p2 = absurd (omega arith)

tree_store-IsFile : IsFile tree_store is_live slot row 0
tree_store-IsFile = record {
  slot_live = λ i b e. ground arith;
  slot_of =
      λ b lb. below_three (λ x. slot (tree x).findex ≡ some x) b (ground arith) refl refl refl;
  free = λ i low gone. absurd (ground arith);
  ids = λ b lb. below_three (λ x. ((tree x).id == 0) ≡ false) b (ground arith) refl refl refl;
  rows = λ b lb.
      below_three
        (λ x.
          (t : Text) × ((tree x).content.text ≡ some t)
          × (row (tree x).id ≡ some ((tree x).content.note_id, t)))
        b (ground arith) (b'r' ∷ [], refl, refl) (b's' ∷ [], refl, refl) (b't' ∷ [], refl, refl);
  root_live = refl;
  root_top = refl;
  root_only = λ b lb top. ground arith;
}

io_load_map-loaded_example :
    (t : Store FunTable) × (io_load_map row
        (records (head_in tree_store is_live) 0 3)
        (calloc_map tree_disk)
      ≡ some (t, some 0))
    × ((b : ℕ)
        → is_live b ≡ true
        → t.branches (at tree_store is_live b) ≡ loaded tree_store-IsStored tree_store-IsFile b)
    × ((b : ℕ)
        → is_live b ≡ true
        → fun_index.find t.branch_index (tree b).id ≡ some (at tree_store is_live b))
io_load_map-loaded_example = io_load_map-loaded tree_store-IsStored tree_store-IsFile tree_disk

load_tree-IsStored_example :
    (t : Store FunTable) × (load_tree row
        (bheads tree_store-IsStored tree_store-IsFile)
        (calloc_map tree_disk)
      ≡ some (t, 0))
    × IsStored t (placed tree_store-IsStored tree_store-IsFile)
    × IsCopy tree_store-IsStored tree_store-IsFile t.branches
load_tree-IsStored_example = load_tree-IsStored tree_store-IsStored tree_store-IsFile

-- The tree before its branches are counted.
abbrev uncounted : Branches
uncounted x = record (tree x) { content = record ((tree x).content) { total_branch_n = 0 } }

short-tree : (b : ℕ) (us : List ℕ) → Up tree b us → length us ≤ 3
short-tree b us up = elim (Bool-cases (is_live b)) [
  | inl here ↦ length-Up_le tree_store-IsStored here up
  | inr gone ↦ let bare = Up-root (ground arith) up in rw bare (omega arith)
]

branch_calculate-IsForest_example :
    (g : Branches) × (branch_calculate 4 4 uncounted 0 ≡ some g) × IsForest g × SameLinks g tree
branch_calculate-IsForest_example =
    branch_calculate-IsForest tree_store-IsStored.forest.shape 3 4 (omega arith) short-tree
      uncounted is_live 0 4
      (record { parents = λ x. refl; arrays = λ x. refl; sizes = λ x. refl; frames = λ x. refl })
      (λ x. refl) (omega arith) refl (λ x lx e. ground arith) (λ x p e. ground arith)
      (λ x out. ground arith)
