-- ===== src/Tests/Detected.antt =====
-- The detectors on the two views of Tests/Spread.antt, one of which shows one child of two.
use treedb.Prelude.{◌≤◌, refl, arith, ℕ, inl, inr, List, [], length, Bool-cases}
use treedb.Branch.Chain.{Up, top, Up-root}
use treedb.Detect.{view_inconsistency_detector, view_inconsistency_detector2}
use treedb.Detect.Aligned.{IsAligned, view_inconsistency_detector-IsAligned}
use treedb.Detect.Clean.{IsReport, IsClean, view_inconsistency_detector2-IsClean}
use treedb.Index.{fun_index}
use treedb.Store.Invariant.{length-Up_le}
use treedb.Tests.Spread.{two_views, two_views-IsStored, two_views-IsViewed}
use treedb.Tests.Tree.{is_live}

short_ways : (b : ℕ) (us : List ℕ) → Up two_views.store.branches b us → length us ≤ 3
short_ways b us up = elim (Bool-cases (is_live b)) [
  | inl here ↦ length-Up_le two_views-IsStored here up
  | inr gone ↦ let bare = Up-root (ground arith) up in rw bare (omega arith)
]

view_inconsistency_detector-IsAligned_example :
    IsReport
      (view_inconsistency_detector 4 two_views.store.branches two_views.vbranches 0)
      (IsAligned two_views.store.branches two_views.vbranches 0)
view_inconsistency_detector-IsAligned_example =
    view_inconsistency_detector-IsAligned two_views.store.branches two_views.vbranches
      two_views-IsStored.forest.shape two_views-IsViewed.fits 3 short_ways 4 0 [] (top refl)
      (omega arith)

view_inconsistency_detector2-IsClean_example :
    IsReport
      (view_inconsistency_detector2 4 two_views.store.branches two_views.vbranches 0)
      (IsClean two_views.store.branches two_views.vbranches 0)
view_inconsistency_detector2-IsClean_example =
    view_inconsistency_detector2-IsClean two_views.store.branches two_views.vbranches
      two_views-IsStored.forest.shape two_views-IsViewed.fits 3 short_ways 4 0 [] (top refl)
      (omega arith)
