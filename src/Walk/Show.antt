-- ===== src/Walk/Show.antt =====
-- view_expand_to (src/view.c:253) as a whole: it ends, and the branch is then in the view.
use treedb.Prelude.{ℕ, ◌≡◌, Bool, true, Option, none, some, has}
use treedb.Index.{Index}
use treedb.Branch.{kids, parent_of}
use treedb.Branch.Forest.{IsForest}
use treedb.View.{World}
use treedb.View.Frame.{SameTree}
use treedb.Walk.Keeps.{IsSound, Sees, Keeps}
use treedb.Walk.Hung.{IsClimbed}
use treedb.Walk.Opened.{IsOpened}

module _ {T : Type 0} ⦃ix : Index T⦄ where
  -- What the way to the branch is, for the vbranch that view_expand_to returns.
  abbrev pub IsReached : World T → World T → ℕ → ℕ → Option ℕ → Type 0
  IsReached w1 w u b none = (parent_of w.branches b ≡ none) × (w1 ≡ w)
  IsReached w1 w u b (some r) = IsClimbed w1 w u b r

  -- What view_expand_to leaves, from `v` on, for a branch `b` and the view `u`.
  pub record IsShown (w v : World T) (u b : ℕ) (o : Option ℕ) (with_children : Bool) : Type 0 where
    pub tree : SameTree w.branches v.branches
    pub forest : IsForest w.branches
    pub sound : IsSound w
    -- The branch is in the view, and what was in a view is still there.
    pub here : Sees w u b
    pub seen : (y x : ℕ) → Sees v y x → Sees w y x
    -- The vbranches on the way to the branch, and then those of its childs.
    pub reached : World T
    pub way : IsReached reached v u b o
    pub opened : IsOpened w reached u b with_children
    -- With the flag, the childs of the branch are in the view.
    pub childs : with_children ≡ true → (c : ℕ) → has c (kids v.branches b) ≡ true → Sees w u c
