-- ===== src/Tests/Sight.antt =====
-- A view of the tree of Tests/Tree.antt that shows its root and its second child, and a vbranch over
-- the first child that is not in the view yet; and the theorems on views at this view.
use treedb.Prelude.{◌+◌, ◌≡◌, refl, true, none, some, [], ◌∷◌, arith, ◌==◌, if◌then◌else◌, length}
use treedb.Index.{FunTable, fun_index}
use treedb.Branch.{elems}
use treedb.Branch.Forest.{IsForest}
use treedb.View.{
  Vbranches, World, blank_vbranch, branch_attach_vbranch, branch_detach_vbranch, vbranch_add,
  vbranch_detach, expand,
}
use treedb.View.Frame.{SameTree}
use treedb.View.Expand.{IsExpanded, expand-IsExpanded}
use treedb.View.Lists.{branch_detach_vbranch-attach}
use treedb.View.Childs.{vbranch_detach-vbranch_add}
use treedb.Tests.Tree.{tree, tree-IsForest}

abbrev sight : Vbranches
sight x =
    if x == 0
    then record {
      branch = some 0;
      visible = true;
      parent = none;
      child_list = some (1 ∷ []);
      child_n = 1;
      view = some 0;
    }
    else if x == 1
    then record blank_vbranch { branch = some 2; parent = some 0; view = some 0 }
    else if x == 2
    then record blank_vbranch { branch = some 1; view = some 0 }
    else blank_vbranch

abbrev world : World FunTable
world = record {
  branches = tree;
  vbranches = sight;
  vnext = 3;
  views = λ v. record {
    id = 6;
    vbranch = some 0;
    vbranch_index = λ k. if k == 5 then some 0 else if k == 9 then some 1 else none;
  };
}

expand-IsExpanded_example :
    (w : World FunTable) × (expand world 0 ≡ some w)
    × IsExpanded w world 0 0 0
    × IsForest w.branches
expand-IsExpanded_example =
    expand-IsExpanded world 0 0 0 (1 ∷ 2 ∷ []) tree-IsForest (λ b. ground arith) refl refl refl refl
      (λ x m. ground arith)

branch_detach_vbranch-attach_example :
    (w1 w2 : World FunTable) × (branch_attach_vbranch world 1 2 ≡ some w1)
    × (branch_detach_vbranch w1 2 ≡ some w2)
    × ((w1.branches 1).content.vbranch_list ≡ 2 ∷ [])
    × ((w1.branches 1).content.vbranch_n ≡ length (w1.branches 1).content.vbranch_list)
    × ((w2.branches 1).content.vbranch_list ≡ [])
    × ((w2.branches 1).content.vbranch_n ≡ 0)
    × SameTree w1.branches tree
    × SameTree w2.branches tree
branch_detach_vbranch-attach_example =
    branch_detach_vbranch-attach world 1 2 refl (omega arith) refl

vbranch_detach-vbranch_add_example :
    (w1 w2 : World FunTable) × (vbranch_add world 2 0 ≡ some w1)
    × (vbranch_detach w1 2 ≡ some w2)
    × (elems (w1.vbranches 0).child_list ≡ 2 ∷ 1 ∷ [])
    × ((w1.vbranches 0).child_n ≡ 1 + 1)
    × ((w1.vbranches 2).parent ≡ some 0)
    × (elems (w2.vbranches 0).child_list ≡ 1 ∷ [])
    × ((w2.vbranches 0).child_n ≡ 1)
    × ((w2.vbranches 2).parent ≡ none)
vbranch_detach-vbranch_add_example =
    vbranch_detach-vbranch_add world 2 0 1 0 tree-IsForest.shape refl refl refl refl (omega arith)
      refl
