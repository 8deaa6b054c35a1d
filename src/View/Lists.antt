-- ===== src/View/Lists.antt =====
-- branch_attach_vbranch and branch_detach_vbranch (src/branch.c:167): the vbranches of a branch.
use treedb.Prelude.{
  ℕ, ◌+◌, ◌-◌, ◌%◌, ◌<◌, ◌≡◌, refl, ap, ◌∙◌, true, false, none, some, List, [], ◌∷◌, ◌++◌, arith,
  ==_self, leb, length, length-append, take, has, remove,
}
use treedb.Index.{Index}
use treedb.Branch.{update, u32_mod}
use treedb.Branch.Arrays.{keep-remove}
use treedb.View.{
  World, attach_list, detach_list, set_vbranch_list, branch_attach_vbranch, branch_detach_vbranch,
}
use treedb.View.Frame.{SameTree, SameTree-set_vbranch_list}

take-length : (l : List ℕ) → take (length l) l ≡ l
take-length [] = refl
take-length (x ∷ l) = ap (λ t. x ∷ t) (take-length l)

attach_list-append : (l : List ℕ) (vb : ℕ) → attach_list (length l) l vb ≡ some (l ++ vb ∷ [])
unfolding attach_list
attach_list-append [] vb = refl
attach_list-append (x ∷ l) vb = ground (arith, take-length (x ∷ l))

remove-append_self : (l : List ℕ) (vb : ℕ) → has vb l ≡ false → remove vb (l ++ vb ∷ []) ≡ l
remove-append_self [] vb out = ground (arith, ==_self vb)
remove-append_self (x ∷ l) vb out = ground (arith, remove-append_self l vb)

detach_list-append :
    (l : List ℕ) (vb : ℕ) → has vb l ≡ false → detach_list (length l + 1) (l ++ vb ∷ []) vb ≡ some l
unfolding detach_list
detach_list-append l vb out =
    let size : length l + 1 ≡ length (l ++ vb ∷ []) = omega (arith, length-append l (vb ∷ [])) in
    let kept = keep-remove (l ++ vb ∷ []) vb ∙ ap some (remove-append_self l vb out) in
    let fits : leb (length l) (length (l ++ vb ∷ []) - 1) ≡ true = ground arith in
    rw (size, kept, fits) refl

branch_detach_vbranch_lem :
    {T : Type 0} ⦃ix : Index T⦄ (w : World T) (b vb : ℕ) {l : List ℕ}
    → (w.vbranches vb).branch ≡ some b
    → detach_list (w.branches b).content.vbranch_n (w.branches b).content.vbranch_list vb ≡ some l
    → branch_detach_vbranch w vb
      ≡ some (record w {
        branches =
            set_vbranch_list w.branches b l
              (((w.branches b).content.vbranch_n + (u32_mod - 1)) % u32_mod);
        vbranches = update w.vbranches vb (record (w.vbranches vb) { branch = none });
      })
unfolding branch_detach_vbranch
branch_detach_vbranch_lem w b vb over found = rw (over, branch_detach_vbranch) (rw found refl)

-- For a vbranch that is not in the list of the branch, a list of the size that vbranch_n says and of
-- less than 2 ^ 32 - 1 entries: branch_attach_vbranch puts the vbranch behind the others and counts
-- it, and branch_detach_vbranch then gives back the list and its size. Neither changes the tree.
pub branch_detach_vbranch-attach :
    {T : Type 0} ⦃ix : Index T⦄ (w : World T) (b vb : ℕ)
    → (w.branches b).content.vbranch_n ≡ length (w.branches b).content.vbranch_list
    → length (w.branches b).content.vbranch_list + 1 < u32_mod
    → has vb (w.branches b).content.vbranch_list ≡ false
    → (w1 w2 : World T) × (branch_attach_vbranch w b vb ≡ some w1)
      × (branch_detach_vbranch w1 vb ≡ some w2)
      × ((w1.branches b).content.vbranch_list ≡ (w.branches b).content.vbranch_list ++ vb ∷ [])
      × ((w1.branches b).content.vbranch_n ≡ length (w1.branches b).content.vbranch_list)
      × ((w2.branches b).content.vbranch_list ≡ (w.branches b).content.vbranch_list)
      × ((w2.branches b).content.vbranch_n ≡ (w.branches b).content.vbranch_n)
      × SameTree w1.branches w.branches
      × SameTree w2.branches w.branches
unfolding branch_attach_vbranch branch_detach_vbranch
branch_detach_vbranch-attach {T} w b vb size room out =
    let l = (w.branches b).content.vbranch_list in
    let n = (w.branches b).content.vbranch_n in
    let whole : (n + 1) % u32_mod ≡ length l + 1 = omega (arith, size) in
    let less : (length l + 1 + (u32_mod - 1)) % u32_mod ≡ n = omega (arith, size) in
    let attached : attach_list n l vb ≡ some (l ++ vb ∷ []) = rw size (attach_list-append l vb) in
    let self_b = ==_self b in
    let self_vb = ==_self vb in
    let w1 : World T = record w {
      branches = set_vbranch_list w.branches b (l ++ vb ∷ []) ((n + 1) % u32_mod);
      vbranches = update w.vbranches vb (record (w.vbranches vb) { branch = some b });
    } in
    let detached : detach_list (w1.branches b).content.vbranch_n
          (w1.branches b).content.vbranch_list vb
        ≡ some l =
      rw (self_b, whole) (detach_list-append l vb out) in
    let n1 = (w1.branches b).content.vbranch_n in
    let w2 : World T = record w1 {
      branches = set_vbranch_list w1.branches b l ((n1 + (u32_mod - 1)) % u32_mod);
      vbranches = update w1.vbranches vb (record (w1.vbranches vb) { branch = none });
    } in
    (
      w1,
      w2,
      rw attached refl,
      branch_detach_vbranch_lem w1 b vb (rw self_vb refl) detached,
      rw self_b refl,
      rw self_b (omega (arith, whole, length-append l (vb ∷ []))),
      rw self_b refl,
      rw (self_b, whole) less,
      SameTree-set_vbranch_list w.branches b (l ++ vb ∷ []) ((n + 1) % u32_mod),
      λ x.
          SameTree-set_vbranch_list w1.branches b l ((n1 + (u32_mod - 1)) % u32_mod) x
          ∙ SameTree-set_vbranch_list w.branches b (l ++ vb ∷ []) ((n + 1) % u32_mod) x,
    )
