-- ===== src/View/Stored.antt =====
-- The lists of vbranches are not saved: a map with other lists is well formed as it was before
-- (branch_attach_vbranch and branch_detach_vbranch, src/branch.c:166).
use treedb.Prelude.{ℕ, ◌<◌, ap, sym, ◌∙◌, Bool, subst}
use treedb.Index.{Index}
use treedb.Branch.{Branches, elems}
use treedb.Branch.Arrays.{index_of}
use treedb.Io.Heads.{head_at-same}
use treedb.Store.{Store}
use treedb.Store.Invariant.{IsStored, offset-same}
use treedb.View.Frame.{SameTree, IsForest-SameTree}

module _ {T : Type 0} ⦃ix : Index T⦄ where
  pub IsStored-SameTree :
      {s : Store T} {live : ℕ → Bool} (g : Branches)
      → SameTree g s.branches
      → IsStored s live
      → IsStored (record s { branches = g }) live
  IsStored-SameTree {s} g same inv = record {
    forest = IsForest-SameTree same inv.forest;
    in_use = inv.in_use;
    unborn = λ x old.
        let bare = inv.unborn x old in
        record {
          alone = ap (λ t. t.2) (same x) ∙ bare.alone;
          childless = ap (λ t. elems t.3) (same x) ∙ bare.childless;
          no_childs = ap (λ t. t.4) (same x) ∙ bare.no_childs;
          no_total = ap (λ t. t.7) (same x) ∙ bare.no_total;
        };
    lineage = λ x p e. inv.lineage x p (sym (ap (λ t. t.2) (same x)) ∙ e);
    sound = λ k b e. let (lb, id) = inv.sound k b e in (lb, ap (λ t. t.1) (same b) ∙ id);
    complete = λ b lb. ap (λ t. ix.find s.branch_index t.1) (same b) ∙ inv.complete b lb;
    placed = λ b lb. subst (λ n. n < s.branch_n) (sym (ap (λ t. t.0) (same b))) (inv.placed b lb);
    apart = λ a b la lb e.
        inv.apart a b la lb (sym (ap (λ t. t.0) (same a)) ∙ (e ∙ ap (λ t. t.0) (same b)));
    limited = inv.limited;
    on = inv.on;
    filed = λ b lb.
        ap s.disk.heads (offset-same g s.branches b (ap (λ t. t.0) (same b)))
        ∙ (inv.filed b lb
            ∙ sym (
                head_at-same g s.branches b (ap (λ t. t.1) (same b)) (ap (λ t. t.4) (same b))
                  (ap (λ t. t.2) (same b))
                  (λ q e. (ap (λ t. t.1) (same q), ap (λ t. index_of b (elems t.3)) (same q)))));
  }
