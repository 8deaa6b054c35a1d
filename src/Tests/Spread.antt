-- ===== src/Tests/Spread.antt =====
-- Two views of the map of Tests/Tree.antt: one shows the root alone, the other the first child too.
use treedb.Prelude.{ℕ, zero, suc, ◌<◌, ◌∙◌, refl, none, some, [], ◌∷◌, arith, ◌==◌, if◌then◌else◌}
use treedb.Branch.{Branches}
use treedb.Index.{FunTable, fun_index}
use treedb.Map as Map
use treedb.Session.{MapState}
use treedb.Session.Adds.{IsOwner}
use treedb.Session.Viewed.{IsViewed}
use treedb.Store.{Store}
use treedb.Store.Invariant.{IsStored}
use treedb.Tests.Tree.{tree, tree_store, is_live, tree_store-IsStored}
use treedb.View.{Vbranches, View, blank_vbranch, set_vbranch_list}
use treedb.View.Frame.{SameTree, SameTree-set_vbranch_list}
use treedb.View.Stored.{IsStored-SameTree}

abbrev root_shown : Branches
root_shown = set_vbranch_list tree 0 (0 ∷ 1 ∷ []) 2

abbrev both_shown : Branches
both_shown = set_vbranch_list root_shown 1 (2 ∷ []) 1

both_shown-SameTree : SameTree both_shown tree
both_shown-SameTree x =
    SameTree-set_vbranch_list root_shown 1 (2 ∷ []) 1 x
    ∙ SameTree-set_vbranch_list tree 0 (0 ∷ 1 ∷ []) 2 x

abbrev vbranches : Vbranches
vbranches x =
    if x == 0
    then record blank_vbranch { branch = some 0; view = some 0 }
    else if x == 1
    then record blank_vbranch {
      branch = some 0;
      view = some 1;
      child_list = some (2 ∷ []);
      child_n = 1;
    }
    else if x == 2
    then record blank_vbranch { branch = some 1; view = some 1; parent = some 1 }
    else blank_vbranch

abbrev views : ℕ → View FunTable
views v = record {
  id = if v == 0 then 6 else 8;
  vbranch = some v;
  vbranch_index =
      λ k. if k == 5 then some v else if k == 7 then (if v == 0 then none else some 2) else none;
}

abbrev pub two_views : MapState FunTable
two_views = record {
  store = record tree_store { branches = both_shown };
  vbranches = vbranches;
  vnext = 3;
  views = views;
  view_next = 2;
  view_index = λ k. if k == 6 then some 0 else if k == 8 then some 1 else none;
  id = 4;
  branch = 0;
  out_q = [];
}

pub two_views-IsStored : IsStored two_views.store is_live
two_views-IsStored = IsStored-SameTree both_shown both_shown-SameTree tree_store-IsStored

owner : (x : ℕ) → x < 3 → IsOwner 3 x (vbranches x)
owner zero low = record { of = 0; of_view = refl; sized = refl; small = omega arith; low = low }
owner (suc zero) low = record {
  of = 1;
  of_view = refl;
  sized = refl;
  small = omega arith;
  low = low;
}
owner (suc (suc zero)) low = record {
  of = 1;
  of_view = refl;
  sized = refl;
  small = omega arith;
  low = low;
}
owner (suc (suc (suc x))) low = absurd (omega arith)

pub two_views-IsViewed : IsViewed two_views is_live
two_views-IsViewed = record {
  fits = λ b. ground arith;
  owners = λ b x lb h. owner x (ground arith);
  over = λ b x lb h. ground arith;
  once = λ b x lb. ground arith;
}
