-- ===== src/Walk/Find.antt =====
-- view_get_vbranch (src/view.c:470): which vbranch it finds, and what a new vbranch or a write to
-- other fields of the vbranches does to what it finds.
use treedb.Prelude.{
  ℕ, zero, suc, ◌≤◌, ◌≡◌, refl, ap, ◌∙◌, inl, inr, true, false, Option, none, some, List, [], ◌∷◌,
  ◌++◌, arith, ◌==◌, ==_self, Bool-cases, length, take, has, subst, eq_of_==,
}
use treedb.View.{Vbranches}
use treedb.Walk.{same_ptr, find_view}

pub eq_of_same_ptr : (p : Option ℕ) (u : ℕ) → same_ptr p (some u) ≡ true → p ≡ some u
eq_of_same_ptr none u e = absurd cc
eq_of_same_ptr (some p) u e = ground arith

pub same_ptr_self : (u : ℕ) → same_ptr (some u) (some u) ≡ true
same_ptr_self u = ground arith

-- What the search gives: the first vbranch of the view among the first `n`, or none if no vbranch
-- there is of the view.
pub record IsFound (v : Vbranches) (n : ℕ) (l : List ℕ) (u : ℕ) (o : Option ℕ) : Type 0 where
  pub listed : (vb : ℕ) → o ≡ some vb → has vb (take n l) ≡ true
  pub of_view : (vb : ℕ) → o ≡ some vb → (v vb).view ≡ some u
  pub missing : o ≡ none → (x : ℕ) → has x (take n l) ≡ true → same_ptr (v x).view (some u) ≡ false

pub find_view_lem :
    (v : Vbranches) (n : ℕ) (l : List ℕ) (u : ℕ)
    → n ≤ length l
    → (o : Option ℕ) × (find_view v n l (some u) ≡ some o) × IsFound v n l u o
unfolding find_view
find_view_lem v zero l u low = (
  none,
  refl,
  record {
    listed = λ vb e. absurd cc;
    of_view = λ vb e. absurd cc;
    missing = λ e x m. absurd (ground arith);
  },
)
find_view_lem v (suc n) [] u low = absurd (omega arith)
find_view_lem v (suc n) (vb ∷ l) u low =
    let (o, found, is) = find_view_lem v n l u (omega arith) in
    elim (Bool-cases (same_ptr (v vb).view (some u))) [
      | inl here ↦ (
        some vb,
        rw (here, find_view) refl,
        record {
          listed =
              λ x e. let same : vb ≡ x = cc in ground (arith, ap (λ y. y == x) same, ==_self x);
          of_view = λ x e.
              let same : vb ≡ x = cc in
              subst (λ y. (v y).view ≡ some u) same (eq_of_same_ptr (v vb).view u here);
          missing = λ e. absurd cc;
        },
      )
      | inr other ↦ (
        o,
        rw (other, find_view) found,
        record {
          listed = λ x e. ground (arith, is.listed x e);
          of_view = is.of_view;
          missing = λ e x m. elim (Bool-cases (vb == x)) [
            | inl same ↦
                subst (λ y. same_ptr (v y).view (some u) ≡ false) (eq_of_== vb x same) other
            | inr differ ↦ is.missing e x (ground arith)
          ];
        },
      )
    ]

-- The search reads nothing but the views of the listed vbranches.
pub find_view-same :
    (v g : Vbranches) (n : ℕ) (l : List ℕ) (view : Option ℕ)
    → ((x : ℕ) → has x l ≡ true → (g x).view ≡ (v x).view)
    → find_view g n l view ≡ find_view v n l view
unfolding find_view
find_view-same v g zero l view same = refl
find_view-same v g (suc n) [] view same = refl
find_view-same v g (suc n) (x ∷ l) view same =
    let here = same x (ground (arith, ==_self x)) in
    let rest = find_view-same v g n l view (λ y m. same y (ground arith)) in
    let pick : Option ℕ → Option (Option ℕ) → Option (Option ℕ) =
      λ p r. elim (same_ptr p view) [ true ↦ some (some x) | false ↦ r ] in
    ap (λ p. pick p (find_view g n l view)) here ∙ ap (λ r. pick (v x).view r) rest

-- A vbranch behind the others does not hide one that was found, and is found itself if it is the
-- first of its view.
pub find_view-append :
    (v : Vbranches) (n : ℕ) (l : List ℕ) (u y : ℕ) (o : Option ℕ)
    → n ≤ length l
    → find_view v n l (some u) ≡ some o
    → (v y).view ≡ some u
    → (vb : ℕ) × (find_view v (suc n) (take n l ++ y ∷ []) (some u) ≡ some (some vb))
unfolding find_view
find_view-append v zero l u y o low found sight = (y, rw (find_view, sight, same_ptr_self u) refl)
find_view-append v (suc n) [] u y o low found sight = absurd (omega arith)
find_view-append v (suc n) (x ∷ l) u y o low found sight =
    elim (Bool-cases (same_ptr (v x).view (some u))) [
      | inl here ↦ (x, rw (here, find_view) refl)
      | inr other ↦
          let rest : find_view v n l (some u) ≡ some o = rw (other, find_view) at found in
          let (vb, e) = find_view-append v n l u y o (omega arith) rest sight in
          (vb, rw (other, find_view) e)
    ]

pub find_view-append_other :
    (v : Vbranches) (n : ℕ) (l : List ℕ) (u y vb : ℕ)
    → n ≤ length l
    → find_view v n l (some u) ≡ some (some vb)
    → find_view v (suc n) (take n l ++ y ∷ []) (some u) ≡ some (some vb)
unfolding find_view
find_view-append_other v zero l u y vb low found = absurd cc
find_view-append_other v (suc n) [] u y vb low found = absurd (omega arith)
find_view-append_other v (suc n) (x ∷ l) u y vb low found =
    elim (Bool-cases (same_ptr (v x).view (some u))) [
      | inl here ↦ rw (here, find_view) (rw (here, find_view) at found)
      | inr other ↦
          let rest : find_view v n l (some u) ≡ some (some vb) = rw (other, find_view) at found in
          rw (other, find_view) (find_view-append_other v n l u y vb (omega arith) rest)
    ]
