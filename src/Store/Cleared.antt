-- ===== src/Store/Cleared.antt =====
-- The heap after delete (src/map.c:916) has detached a branch without childs and cleared its id.
use treedb.Prelude.{
  ℕ, ◌≤◌, ◌≡◌, ◌≢◌, has-drop, ap, sym, ◌∙◌, subst, inl, inr, Bool, true, false, not, none, some,
  List, [], ◌∷◌, ◌&&◌, arith, ◌==◌, if◌then◌else◌, Bool-cases, has, eq_of_==, ne_of_==, drop,
  remove,
}
use treedb.Index.{Index}
use treedb.Branch.{Branches, parent_of, kids, update}
use treedb.Branch.Detach.{IsDetached}
use treedb.Branch.Arrays.{index_of}
use treedb.Branch.Chain.{Up}
use treedb.Branch.Forest.{parent-kid, IsForest, IsForest-same}
use treedb.Io.Heads.{head_at, head_at-same, has-kids_parent}
use treedb.Io.Places.{index_of-lt_of_drop, index_of-remove_lt}
use treedb.Store.{Store}
use treedb.Store.Invariant.{IsStored, IsUnborn, live_above, live_eq, not_live}

-- The addresses of the map but one.
abbrev pub without : (ℕ → Bool) → ℕ → ℕ → Bool
without live b x = live x && not (b == x)

module _ {T : Type 0} ⦃ix : Index T⦄ {s : Store T} {live : ℕ → Bool} (inv : IsStored s live)
    (b from : ℕ) (us : List ℕ) (live_b : live b ≡ true)
    (parent : parent_of s.branches b ≡ some from) (leaf : kids s.branches b ≡ []) {h : Branches}
    (f : IsForest h) (new : IsDetached h s.branches b from us) (up : Up s.branches from us) where
  -- The heap after `b->id = 0`.
  abbrev pub cleared : Branches
  cleared = update h b (record (h b) { id = 0 })

  pub IsForest-cleared : IsForest cleared
  IsForest-cleared =
      IsForest-same (λ x. ground arith) (λ x. ground arith) (λ x. ground arith) (λ x. ground arith)
        f

  live_from : live from ≡ true
  live_from = inv.lineage b from parent ∙ live_b

  no_kid : (x : ℕ) → parent_of s.branches x ≢ some b
  no_kid x e = ground (arith, inv.forest.shape.linked b x)

  parent_cleared : (x : ℕ) → parent_of cleared x ≡ (if b == x then none else parent_of s.branches x)
  parent_cleared x = ground (arith, new.parents x)

  kids-cleared :
      (x : ℕ)
      → kids cleared x ≡ (if from == x then remove b (kids s.branches x) else kids s.branches x)
  kids-cleared x = ground (arith, new.arrays x)

  pub id_cleared : (x : ℕ) → (cleared x).id ≡ (if b == x then 0 else (s.branches x).id)
  id_cleared x = ground (arith, ap (λ t. t.0) (new.frames x))

  pub findex_cleared : (x : ℕ) → (cleared x).findex ≡ (s.branches x).findex
  findex_cleared x = ground (arith, ap (λ t. t.1) (new.frames x))

  pub lineage_cleared :
      (x p : ℕ)
      → parent_of cleared x ≡ some p
      → (live p ≡ live x) × ((b == x) ≡ false) × ((b == p) ≡ false)
  lineage_cleared x p e = elim (Bool-cases (b == x)) [
    | inl here ↦ absurd (ground (arith, parent_cleared x))
    | inr other ↦
        let old : parent_of s.branches x ≡ some p = ground (arith, parent_cleared x) in
        (
          inv.lineage x p old,
          other,
          elim (Bool-cases (b == p)) [
            | inl it ↦ absurd (no_kid x (old ∙ ap some (sym (eq_of_== b p it))))
            | inr o ↦ o
          ],
        )
  ]

  abbrev pub written : ℕ → List ℕ
  written old_pos = b ∷ from ∷ drop old_pos (kids cleared from)

  pub written_live : (n y : ℕ) → has y (written n) ≡ true → live y ≡ true
  written_live n y m = elim (Bool-cases (has y (drop n (kids cleared from)))) [
    | inr out ↦ ground (arith, live_eq live b y, live_eq live from y, live_from)
    | inl kid ↦
        let child =
          parent-kid from y IsForest-cleared.shape (has-drop y n (kids cleared from) kid) in
        sym (lineage_cleared y from child).0 ∙ live_from
  ]

  -- What is not written stays right, since the place that is given is not above the old one.
  pub head_at-cleared :
      (n y : ℕ)
      → n ≤ index_of b (kids s.branches from)
      → live y ≡ true
      → has y (written n) ≡ false
      → head_at cleared y ≡ head_at s.branches y
  head_at-cleared n y low ly out =
      let not_b : (b == y) ≡ false = ground arith in
      let not_from : (from == y) ≡ false = ground arith in
      head_at-same cleared s.branches y (ground (arith, id_cleared y)) (ground (arith, new.sizes y))
        (ground (arith, parent_cleared y)) (λ q e. (id_above q e, place q e))
    where
      id_above : (q : ℕ) → parent_of s.branches y ≡ some q → (cleared q).id ≡ (s.branches q).id
      id_above q e = elim (Bool-cases (b == q)) [
        | inl it ↦ absurd (no_kid y (e ∙ ap some (sym (eq_of_== b q it))))
        | inr o ↦ ground (arith, id_cleared q)
      ]

      place :
          (q : ℕ)
          → parent_of s.branches y ≡ some q
          → index_of y (kids cleared q) ≡ index_of y (kids s.branches q)
      place q e = elim (Bool-cases (from == q)) [
        | inr other ↦ ground (arith, kids-cleared q)
        | inl here ↦
            let it = eq_of_== from q here in
            let up_y : parent_of cleared y ≡ some from = ground (arith, parent_cleared y) in
            let m = has-kids_parent y from IsForest-cleared.shape up_y in
            let off : has y (drop n (kids cleared from)) ≡ false = ground arith in
            let lt = index_of-lt_of_drop y n (kids cleared from) m off in
            let ne : y ≢ b = λ same. ne_of_== b y (ground arith) (sym same) in
            subst (λ t. index_of y (kids cleared t) ≡ index_of y (kids s.branches t)) it
              (ground (arith, kids-cleared from, index_of-remove_lt y b (kids s.branches from)))
      ]

  pub IsUnborn-cleared : (x : ℕ) → s.next ≤ x → IsUnborn cleared x
  IsUnborn-cleared x old =
      let blank = inv.unborn x old in
      let out = not_live inv x old in
      let not_b : (b == x) ≡ false = ground (arith, live_eq live b x) in
      let not_from : (from == x) ≡ false = ground (arith, live_eq live from x, live_from) in
      let off : has x (from ∷ us) ≡ false = elim (Bool-cases (has x (from ∷ us))) [
        | inl m ↦ absurd (ground (arith, live_above x inv.lineage up live_from m))
        | inr o ↦ o
      ] in
      record {
        alone = ground (arith, parent_cleared x, blank.alone);
        childless = ground (arith, kids-cleared x, blank.childless);
        no_childs = ground (arith, new.sizes x, blank.no_childs);
        no_total = ground (arith, new.totals x off, blank.no_total);
      }
