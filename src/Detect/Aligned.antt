-- ===== src/Detect/Aligned.antt =====
-- view_inconsistency_detector (src/map.c:1824) against what it looks for.
use treedb.Prelude.{
  ℕ, zero, suc, ◌+◌, ◌≤◌, ◌<◌, ◌≡◌, refl, ap, ◌∙◌, sym, inl, inr, true, Option, none, some, List,
  [], ◌∷◌, ◌++◌, arith, if◌then◌else◌, Bool-cases, length, take, has, ◌>>=◌,
}
use treedb.Branch.{Branches, kids}
use treedb.Branch.Chain.{Up, climb}
use treedb.Branch.Forest.{Shape, parent-kid}
use treedb.View.{Vbranches}
use treedb.View.Frame.{Fits}
use treedb.Walk.{same_ptr, not_null, find_view}
use treedb.Detect.{missing, gather, check_siblings, view_inconsistency_detector}
use treedb.Detect.Clean.{
  IsReport, both, change, gather_lem, childs_of, in_view, shown, Below, child, under,
}

abbrev first_of : List ℕ → Option ℕ
first_of [] = none
first_of (x ∷ l) = some x

find_view-in_view :
    (v : Vbranches) (n : ℕ) (l : List ℕ) (view : Option ℕ)
    → n ≤ length l
    → find_view v n l view ≡ some (first_of (in_view v view (take n l)))
unfolding find_view in_view
find_view-in_view v zero l view low = refl
find_view-in_view v (suc n) [] view low = absurd (omega arith)
find_view-in_view v (suc n) (x ∷ l) view low = elim (Bool-cases (same_ptr (v x).view view)) [
  | inl own ↦ rw (find_view, own) refl
  | inr other ↦ rw (find_view, other) (find_view-in_view v n l view (omega arith))
]

-- The report on a list in which a vbranch is looked for.
found_or :
    (l : List ℕ)
    → IsReport (some (if not_null (first_of l) then [] else missing ∷ [])) (1 ≤ length l)
found_or [] = record {
  reports = missing ∷ [];
  returns = refl;
  silent = λ e. absurd cc;
  clean = λ e. absurd (omega arith);
}
found_or (x ∷ l) = record {
  reports = [];
  returns = refl;
  silent = λ e. omega arith;
  clean = λ e. refl;
}

module _ (h : Branches) (v : Vbranches) where
  -- A view that shows the vbranch `vb` of a child of `b` shows each child of `b`.
  abbrev pub IsShared : ℕ → ℕ → Type 0
  IsShared b vb =
      (y : ℕ) → has y (kids h b) ≡ true → 1 ≤ length (in_view v (v vb).view (shown h v y))

  abbrev pub IsLevel : ℕ → Type 0
  IsLevel b =
      (x : ℕ) → has x (kids h b) ≡ true → (vb : ℕ) → has vb (shown h v x) ≡ true → IsShared b vb

  check_siblings_lem :
      (b vb : ℕ) → Shape h → Fits h → IsReport (check_siblings h v b vb) (IsShared b vb)
  unfolding check_siblings
  check_siblings_lem b vb s fits =
      let same = childs_of h v b s in
      let all =
        gather_lem
          (λ y.
            let c = (h y).content in
            find_view v c.vbranch_n c.vbranch_list (v vb).view >>= λ found.
            some (if not_null found then [] else missing ∷ []))
          (λ y. 1 ≤ length (in_view v (v vb).view (shown h v y))) (h b).child_n (kids h b)
          (omega (arith, s.sized b))
          (λ y m.
            rw
              (find_view-in_view v (h y).content.vbranch_n (h y).content.vbranch_list (v vb).view
                (fits y))
              (found_or (in_view v (v vb).view (shown h v y)))) in
      change (check_siblings h v b vb) all (λ p y m. p y (ap (has y) same ∙ m))
        (λ p y m. p y (sym (ap (has y) same) ∙ m))

  abbrev pub IsAligned : ℕ → Type 0
  IsAligned b = IsLevel b × ((x : ℕ) → Below h v b x → IsLevel x)

  IsAligned-childs :
      (b : ℕ)
      → IsLevel b
      → ((c : ℕ) → has c (kids h b) ≡ true → IsAligned c)
      → (x : ℕ) → Below h v b x
      → IsLevel x
  IsAligned-childs b here p x (child m) = (p x m).0
  IsAligned-childs b here p x (under {c} m u) = (p c m).1 x u

  -- Where the lists of vbranches fit, and no branch of a well-shaped tree is deeper than `n`: with
  -- fuel for the ways down from a branch the detector returns, and it prints nothing exactly if at
  -- the branch and everywhere below it a view that shows a child of a branch shows all its childs.
  pub view_inconsistency_detector-IsAligned :
      Shape h
      → Fits h
      → (n : ℕ) → ((b : ℕ) (us : List ℕ) → Up h b us → length us ≤ n)
      → (fuel b : ℕ) (us : List ℕ) → Up h b us
      → n < fuel + length us
      → IsReport (view_inconsistency_detector fuel h v b) (IsAligned b)
  unfolding view_inconsistency_detector
  view_inconsistency_detector-IsAligned s fits n short zero b us up low =
      absurd (omega (arith, short b us up))
  view_inconsistency_detector-IsAligned s fits n short (suc fuel) b us up low =
      let same = childs_of h v b s in
      let one = λ (c : ℕ) (m : has c (kids h b) ≡ true).
        both (gather (check_siblings h v b) (h c).content.vbranch_n (h c).content.vbranch_list)
          (view_inconsistency_detector fuel h v c)
          (gather_lem (check_siblings h v b) (IsShared b) (h c).content.vbranch_n
            (h c).content.vbranch_list (fits c) (λ vb e. check_siblings_lem b vb s fits))
          (view_inconsistency_detector-IsAligned s fits n short fuel c (b ∷ us)
            (climb (parent-kid b c s m) up) (omega (arith))) in
      let all =
        gather_lem
          (λ c.
            gather (check_siblings h v b) (h c).content.vbranch_n (h c).content.vbranch_list
            >>= λ r. view_inconsistency_detector fuel h v c >>= λ below. some (r ++ below))
          (λ c. ((vb : ℕ) → has vb (shown h v c) ≡ true → IsShared b vb) × IsAligned c)
          (h b).child_n (kids h b) (omega (arith, s.sized b))
          (λ c m. one c (sym (ap (has c) same) ∙ m)) in
      change (view_inconsistency_detector (suc fuel) h v b) all
        (λ p.
          let level = λ (c : ℕ) (m : has c (kids h b) ≡ true). (p c (ap (has c) same ∙ m)).0 in
          (level, IsAligned-childs b level (λ c m. (p c (ap (has c) same ∙ m)).1)))
        (λ p c m0.
          let m = sym (ap (has c) same) ∙ m0 in
          (p.0 c m, (p.1 c (child m), λ x u. p.1 x (under m u))))
