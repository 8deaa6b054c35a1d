-- ===== src/Detect.antt =====
-- view_inconsistency_detector and view_inconsistency_detector2 (src/map.c:1824): walks that say
-- whether the vbranches of a tree fit together. What they print is collected.
pub mod Clean
pub mod Aligned
use treedb.Prelude.{
  ℕ, zero, suc, ◌+◌, Option, none, some, List, [], ◌∷◌, ◌++◌, ltb, if◌then◌else◌, ◌>>=◌,
}
use treedb.Branch.{Branches, kids}
use treedb.View.{Vbranches}
use treedb.Walk.{same_ptr, not_null, find_view}

-- The lines that are printed: inconsistent, inconsistent 1 and inconsistent 2.
pub data Report : Type 0 where
  missing : Report
  twice : Report
  crowded : Report

-- A for loop over the first `n` entries of a list, whose reports are put together.
unfoldable pub gather : (ℕ → Option (List Report)) → ℕ → List ℕ → Option (List Report)
gather f zero l = some []
gather f (suc n) [] = none
gather f (suc n) (x ∷ l) = f x >>= λ a. gather f n l >>= λ r. some (a ++ r)

-- The loop of `found++`.
unfoldable pub count_view : Vbranches → ℕ → List ℕ → Option ℕ → Option ℕ
count_view v zero l view = some 0
count_view v (suc n) [] view = none
count_view v (suc n) (vb ∷ l) view =
    count_view v n l view >>= λ r. some (if same_ptr (v vb).view view then r + 1 else r)

-- The loop over the childs of `branch`, for a vbranch of one of them: which has none in its view?
unfoldable pub check_siblings : Branches → Vbranches → ℕ → ℕ → Option (List Report)
unfolding gather find_view
check_siblings h v branch vbranch =
    gather
      (λ branch2.
        let c = (h branch2).content in
        find_view v c.vbranch_n c.vbranch_list (v vbranch).view >>= λ found.
        some (if not_null found then [] else missing ∷ []))
      (h branch).child_n (kids h branch)

-- `fuel` bounds the depth.
unfoldable pub view_inconsistency_detector : ℕ → Branches → Vbranches → ℕ → Option (List Report)
unfolding gather check_siblings
view_inconsistency_detector zero h v branch = none
view_inconsistency_detector (suc fuel) h v branch =
    gather
      (λ branch1.
        let c = (h branch1).content in
        gather (check_siblings h v branch) c.vbranch_n c.vbranch_list >>= λ r.
        view_inconsistency_detector fuel h v branch1 >>= λ below. some (r ++ below))
      (h branch).child_n (kids h branch)

-- The body of the loop over the vbranches of `branch1`.
unfoldable pub check_twice : Branches → Vbranches → ℕ → ℕ → Option (List Report)
unfolding count_view
check_twice h v branch1 vbranch =
    let c = (h branch1).content in
    count_view v c.vbranch_n c.vbranch_list (v vbranch).view >>= λ found. some (
      (if ltb 1 found then twice ∷ [] else [])
      ++ (if ltb 100000 (v vbranch).child_n then crowded ∷ [] else []))

unfoldable pub view_inconsistency_detector2 : ℕ → Branches → Vbranches → ℕ → Option (List Report)
unfolding gather check_twice
view_inconsistency_detector2 zero h v branch = none
view_inconsistency_detector2 (suc fuel) h v branch =
    gather
      (λ branch1.
        let c = (h branch1).content in
        gather (check_twice h v branch1) c.vbranch_n c.vbranch_list >>= λ r.
        view_inconsistency_detector2 fuel h v branch1 >>= λ below. some (r ++ below))
      (h branch).child_n (kids h branch)
