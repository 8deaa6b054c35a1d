-- ===== src/Detect/Clean.antt =====
-- view_inconsistency_detector2 (src/map.c:1860) against what it looks for.
use treedb.Prelude.{
  ℕ, zero, suc, ◌+◌, ◌≤◌, ◌<◌, ◌≡◌, refl, ap, ◌∙◌, sym, subst, inl, inr, true, Option, some, List,
  [], ◌∷◌, ◌++◌, arith, ◌==◌, ==_self, ltb, eq_of_==, if◌then◌else◌, Bool-cases, length, take, has,
  ◌>>=◌,
}
use treedb.Branch.{Branches, kids}
use treedb.Branch.Chain.{Up, climb}
use treedb.Branch.Forest.{Shape, parent-kid}
use treedb.View.{Vbranches}
use treedb.View.Frame.{Fits}
use treedb.Walk.{same_ptr}
use treedb.Detect.{
  Report, twice, crowded, gather, count_view, check_twice, view_inconsistency_detector2,
}

-- A run that returns, and reports nothing exactly if `P` holds.
pub record IsReport (o : Option (List Report)) (P : Type 0) : Type 0 where
  pub reports : List Report
  pub returns : o ≡ some reports
  pub silent : reports ≡ [] → P
  pub clean : P → reports ≡ []

append_left : (a r : List Report) → a ++ r ≡ [] → a ≡ []
append_left [] r e = refl
append_left (x ∷ a) r e = absurd cc

append_right : (a r : List Report) → a ++ r ≡ [] → r ≡ []
append_right [] r e = e
append_right (x ∷ a) r e = absurd cc

take-length : (l : List ℕ) → take (length l) l ≡ l
take-length [] = refl
take-length (x ∷ l) = ap (λ r. x ∷ r) (take-length l)

-- Two runs one after the other, whose reports are put together.
pub both :
    {P Q : Type 0} (a b : Option (List Report))
    → IsReport a P
    → IsReport b Q
    → IsReport (a >>= λ r. b >>= λ s. some (r ++ s)) (P × Q)
both a b p q = record {
  reports = p.reports ++ q.reports;
  returns = rw (p.returns, q.returns) refl;
  silent = λ e.
      (p.silent (append_left p.reports q.reports e), q.silent (append_right p.reports q.reports e));
  clean = λ (x, y). rw (p.clean x, q.clean y) refl;
}

pub change :
    {P Q : Type 0} (o : Option (List Report)) → IsReport o P → (P → Q) → (Q → P) → IsReport o Q
change o p to from = record {
  reports = p.reports;
  returns = p.returns;
  silent = λ e. to (p.silent e);
  clean = λ q. p.clean (from q);
}

pub gather_lem :
    (f : ℕ → Option (List Report)) (P : ℕ → Type 0) (n : ℕ) (l : List ℕ)
    → n ≤ length l
    → ((x : ℕ) → has x (take n l) ≡ true → IsReport (f x) (P x))
    → IsReport (gather f n l) ((x : ℕ) → has x (take n l) ≡ true → P x)
unfolding gather
gather_lem f P zero l low each = record {
  reports = [];
  returns = refl;
  silent = λ e x h. absurd (ground arith);
  clean = λ p. refl;
}
gather_lem f P (suc n) [] low each = absurd (omega arith)
gather_lem f P (suc n) (x ∷ l) low each =
    let rest = gather_lem f P n l (omega arith) (λ y h. each y (ground arith)) in
    change (gather f (suc n) (x ∷ l))
      (both (f x) (gather f n l) (each x (rw (==_self x) refl)) rest)
      (λ (p, q) y h. elim (Bool-cases (x == y)) [
        | inl here ↦ subst P (eq_of_== x y here) p
        | inr there ↦ q y (ground arith)
      ])
      (λ p. (p x (rw (==_self x) refl), λ y h. p y (ground arith)))

-- The vbranches of a list that are in a view.
unfoldable pub in_view : Vbranches → Option ℕ → List ℕ → List ℕ
in_view v view [] = []
in_view v view (x ∷ l) = if same_ptr (v x).view view then x ∷ in_view v view l else in_view v view l

count_view-in_view :
    (v : Vbranches) (n : ℕ) (l : List ℕ) (view : Option ℕ)
    → n ≤ length l
    → count_view v n l view ≡ some (length (in_view v view (take n l)))
unfolding count_view in_view
count_view-in_view v zero l view low = refl
count_view-in_view v (suc n) [] view low = absurd (omega arith)
count_view-in_view v (suc n) (x ∷ l) view low =
    let rest = count_view-in_view v n l view (omega arith) in
    elim (Bool-cases (same_ptr (v x).view view)) [
      | inl own ↦ rw (count_view, rest) (rw own (ap some (omega arith)))
      | inr other ↦ rw (count_view, rest) (rw other refl)
    ]

module _ (h : Branches) (v : Vbranches) where
  abbrev pub shown : ℕ → List ℕ
  shown x = take (h x).content.vbranch_n (h x).content.vbranch_list

  -- Each vbranch of `x` is the only one of its view, and has not too many childs.
  abbrev pub IsQuiet : ℕ → Type 0
  IsQuiet x =
      (vb : ℕ)
      → has vb (shown x) ≡ true
      → (length (in_view v (v vb).view (shown x)) ≤ 1) × ((v vb).child_n ≤ 100000)

  check_twice_lem :
      (x vb : ℕ)
      → Fits h
      → IsReport
          (check_twice h v x vb)
          ((length (in_view v (v vb).view (shown x)) ≤ 1) × ((v vb).child_n ≤ 100000))
  unfolding check_twice
  check_twice_lem x vb fits =
      let n = length (in_view v (v vb).view (shown x)) in
      record {
        reports =
            (if ltb 1 n then twice ∷ [] else [])
            ++ (if ltb 100000 (v vb).child_n then crowded ∷ [] else []);
        returns =
            rw
              (
                check_twice,
                count_view-in_view v (h x).content.vbranch_n (h x).content.vbranch_list (v vb).view
                    (fits x),
              )
              refl;
        silent = λ e. (ground arith, ground arith);
        clean = λ (a, b). ground arith;
      }

  -- `x` is below `b`.
  pub data Below : ℕ → ℕ → Type 0 where
    child : {b x : ℕ} → has x (kids h b) ≡ true → Below b x
    under : {b c x : ℕ} → has c (kids h b) ≡ true → Below c x → Below b x

  abbrev pub IsClean : ℕ → Type 0
  IsClean b = (x : ℕ) → Below b x → IsQuiet x

  IsClean-childs : (b : ℕ) → ((c : ℕ) → has c (kids h b) ≡ true → IsQuiet c × IsClean c) → IsClean b
  IsClean-childs b p x (child m) = (p x m).0
  IsClean-childs b p x (under {c} m u) = (p c m).1 x u

  pub childs_of : (b : ℕ) → Shape h → take (h b).child_n (kids h b) ≡ kids h b
  childs_of b s = rw (s.sized b) (take-length (kids h b))

  -- Where the lists of vbranches fit, and no branch of a well-shaped tree is deeper than `n`: with
  -- fuel for the ways down from a branch the detector returns, and it prints nothing exactly if below
  -- the branch each vbranch in the list of a branch is the only one there of its view, and has at
  -- most 100000 childs.
  pub view_inconsistency_detector2-IsClean :
      Shape h
      → Fits h
      → (n : ℕ) → ((b : ℕ) (us : List ℕ) → Up h b us → length us ≤ n)
      → (fuel b : ℕ) (us : List ℕ) → Up h b us
      → n < fuel + length us
      → IsReport (view_inconsistency_detector2 fuel h v b) (IsClean b)
  unfolding view_inconsistency_detector2
  view_inconsistency_detector2-IsClean s fits n short zero b us up low =
      absurd (omega (arith, short b us up))
  view_inconsistency_detector2-IsClean s fits n short (suc fuel) b us up low =
      let one = λ (c : ℕ) (m : has c (kids h b) ≡ true).
        both (gather (check_twice h v c) (h c).content.vbranch_n (h c).content.vbranch_list)
          (view_inconsistency_detector2 fuel h v c)
          (gather_lem (check_twice h v c)
            (λ vb. (length (in_view v (v vb).view (shown c)) ≤ 1) × ((v vb).child_n ≤ 100000))
            (h c).content.vbranch_n (h c).content.vbranch_list (fits c)
            (λ vb e. check_twice_lem c vb fits))
          (view_inconsistency_detector2-IsClean s fits n short fuel c (b ∷ us)
            (climb (parent-kid b c s m) up) (omega (arith))) in
      let all =
        gather_lem
          (λ c.
            gather (check_twice h v c) (h c).content.vbranch_n (h c).content.vbranch_list >>= λ r.
            view_inconsistency_detector2 fuel h v c >>= λ below. some (r ++ below))
          (λ c. IsQuiet c × IsClean c) (h b).child_n (kids h b) (omega (arith, s.sized b))
          (λ c m. one c (sym (ap (has c) (childs_of b s)) ∙ m)) in
      change (view_inconsistency_detector2 (suc fuel) h v b) all
        (λ p. IsClean-childs b (λ c m. p c (ap (has c) (childs_of b s) ∙ m)))
        (λ p c m0.
          let m = sym (ap (has c) (childs_of b s)) ∙ m0 in (p c (child m), λ x u. p x (under m u)))
