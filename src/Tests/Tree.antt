-- ===== src/Tests/Tree.antt =====
-- A map with a root (address 0) and two childs (addresses 1 and 2), with its index and its file.
use treedb.Prelude.{
  ℕ, zero, suc, ◌<◌, ◌≡◌, refl, inl, inr, Bool, true, false, Option, none, some, List, [], ◌∷◌,
  arith, ◌==◌, ltb, if◌then◌else◌, Bool-cases,
}
use treedb.Index.{FunTable, fun_index}
use treedb.Branch.{Text, Branch, Branches}
use treedb.Branch.Chain.{Up, top, climb, Rooted}
use treedb.Branch.Forest.{IsForest}
use treedb.Io.{Bhead, Disk, offset}
use treedb.Io.Heads.{head_at}
use treedb.Store.{Store}
use treedb.Store.Invariant.{IsStored}

abbrev cell : ℕ → ℕ → Option ℕ → Option (List ℕ) → ℕ → Option Text → ℕ → Branch
cell findex id parent child_list child_n text total_branch_n = record {
  findex = findex;
  id = id;
  parent = parent;
  child_list = child_list;
  child_n = child_n;
  content = record {
    text = text;
    note_id = 0;
    total_branch_n = total_branch_n;
    vbranch_list = [];
    vbranch_n = 0;
  };
}

abbrev pub tree : Branches
tree x =
    if x == 0
    then cell 0 5 none (some (1 ∷ 2 ∷ [])) 2 (some (b'r' ∷ [])) 2
    else if x == 1
    then cell 1 7 (some 0) none 0 (some (b's' ∷ [])) 0
    else if x == 2
    then cell 2 9 (some 0) none 0 (some (b't' ∷ [])) 0
    else cell 0 0 none none 0 none 0

abbrev head : ℕ → ℕ → ℕ → ℕ → Bhead
head id parent_id place child_n = record {
  id = id;
  parent_id = parent_id;
  place = place;
  child_n = child_n;
}

abbrev pub tree_disk : Disk
tree_disk = record {
  test = false;
  heads = λ n. if n == 0 then head 5 0 0 2 else if n == 20 then head 7 5 0 0 else head 9 5 1 0;
  rows = [];
}

abbrev pub tree_store : Store FunTable
tree_store = record {
  branches = tree;
  branch_index =
      λ k. if k == 5 then some 0 else if k == 7 then some 1 else if k == 9 then some 2 else none;
  branch_n = 3;
  disk = tree_disk;
  next = 3;
}

abbrev pub is_live : ℕ → Bool
is_live x = ltb x 3

pub Up-tree_0 : Up tree 0 []
Up-tree_0 = top refl

pub Up-tree_1 : Up tree 1 (0 ∷ [])
Up-tree_1 = climb refl Up-tree_0

Rooted-tree : (x : ℕ) → Rooted tree x
Rooted-tree x = elim (Bool-cases (x == 1)) [
  | inl one ↦ (0 ∷ [], climb (ground arith) Up-tree_0)
  | inr o1 ↦ elim (Bool-cases (x == 2)) [
    | inl two ↦ (0 ∷ [], climb (ground arith) Up-tree_0)
    | inr o2 ↦ ([], top (ground arith))
  ]
]

pub tree-IsForest : IsForest tree
tree-IsForest = record {
  shape = record {
    linked = λ q c. ground arith;
    sized = λ q. ground arith;
    small = λ q. ground arith;
    chains = Rooted-tree;
  };
  counted = record { bounded = λ q. ground arith; counts = λ q. ground arith };
}

below_three : (P : ℕ → Type 0) (b : ℕ) → b < 3 → P 0 → P 1 → P 2 → P b
below_three P zero low p0 p1 p2 = p0
below_three P (suc zero) low p0 p1 p2 = p1
below_three P (suc (suc zero)) low p0 p1 p2 = p2
below_three P (suc (suc (suc b))) low p0 p1 p2 = absurd (omega arith)

tree_sound : (k b : ℕ) → tree_store.branch_index k ≡ some b → (is_live b ≡ true) × ((tree b).id ≡ k)
tree_sound k b e =
    let low : b < 3 = ground arith in
    (
      ground arith,
      below_three (λ x. tree_store.branch_index k ≡ some x → (tree x).id ≡ k) b low
          (λ e0. ground arith) (λ e1. ground arith) (λ e2. ground arith) e,
    )

pub tree_store-IsStored : IsStored tree_store is_live
unfolding offset
tree_store-IsStored = record {
  forest = tree-IsForest;
  in_use = λ x m. ground arith;
  unborn = λ x old. record {
    alone = ground arith;
    childless = ground arith;
    no_childs = ground arith;
    no_total = ground arith;
  };
  lineage = λ x p e. ground arith;
  sound = tree_sound;
  complete = λ b m. ground arith;
  placed = λ b m. ground arith;
  apart = λ a b la lb e. ground arith;
  limited = omega arith;
  on = refl;
  filed = λ b m.
      below_three (λ x. tree_disk.heads (offset tree x) ≡ head_at tree x) b (ground arith) refl refl
        refl;
}
