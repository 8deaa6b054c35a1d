-- ===== src/Load/Made.antt =====
-- The first loop of io_load_map (src/io.c:218): the branches that it makes.
use treedb.Prelude.{
  ℕ, zero, suc, ◌+◌, ◌≡◌, refl, ap, subst, inl, inr, Bool, true, false, not, some, List, [], ◌∷◌,
  ◌&&◌, ◌⊎◌, ◌∙◌, sym, arith, ◌==◌, ==_self, ltb, leb, if◌then◌else◌, Bool-cases, eq_of_==,
}
use treedb.Index.{Index}
use treedb.Branch.{Branch}
use treedb.Io.{Bhead}
use treedb.Store.{branch_index_put}
use treedb.Load.{Loading, blank_branch, unset, make_branch, make_all}

-- The `n` records of a file from the record `i` on.
abbrev pub records : (ℕ → Bhead) → ℕ → ℕ → List Bhead
records f i zero = []
records f i (suc n) = f i ∷ records f (i + 1) n

-- The branch that is made of the record `i`.
abbrev pub made_of : ℕ → Bhead → Branch
made_of i bhead = record blank_branch { findex = i; id = bhead.id; child_n = bhead.child_n }

-- Is `x` one of the records from `i` on, and not deleted?
abbrev pub in_file : (ℕ → Bhead) → ℕ → ℕ → ℕ → Bool
in_file f i n x = leb i x && ltb x (i + n) && not ((f x).id == 0)

module _ {T : Type 0} ⦃ix : Index T⦄ (f : ℕ → Bhead) where
  -- One round of the loop.
  abbrev one : ℕ → Loading T → Loading T
  one i l = if (f i).id == 0 then l else make_branch l i (f i)

  -- `y` where the record `x` is in the file, and `z` elsewhere.
  branches-one :
      (i x : ℕ) (l : Loading T)
      → (one i l).store.branches x
        ≡ (if (i == x) && not ((f x).id == 0) then made_of x (f x) else l.store.branches x)
  unfolding make_branch branch_index_put
  branches-one i x l = elim (Bool-cases (i == x)) [
    | inl here ↦
        subst
          (λ y.
            (one i l).store.branches y
            ≡ (if (i == y) && not ((f y).id == 0) then made_of y (f y) else l.store.branches y))
          (eq_of_== i x here)
          (elim (Bool-cases ((f i).id == 0)) [
            | inl gone ↦ rw (gone, ==_self i) refl
            | inr kept ↦ rw (kept, ==_self i) refl
          ])
    | inr other ↦ elim (Bool-cases ((f i).id == 0)) [
      | inl gone ↦ rw (gone, other) refl
      | inr kept ↦ rw (kept, other) refl
    ]
  ]

  arrays-one :
      (i x : ℕ) (l : Loading T)
      → (one i l).arrays x
        ≡ (if (i == x) && not ((f x).id == 0) then unset (f x).child_n else l.arrays x)
  unfolding make_branch branch_index_put
  arrays-one i x l = elim (Bool-cases (i == x)) [
    | inl here ↦
        subst
          (λ y.
            (one i l).arrays y
            ≡ (if (i == y) && not ((f y).id == 0) then unset (f y).child_n else l.arrays y))
          (eq_of_== i x here)
          (elim (Bool-cases ((f i).id == 0)) [
            | inl gone ↦ rw (gone, ==_self i) refl
            | inr kept ↦ rw (kept, ==_self i) refl
          ])
    | inr other ↦ elim (Bool-cases ((f i).id == 0)) [
      | inl gone ↦ rw (gone, other) refl
      | inr kept ↦ rw (kept, other) refl
    ]
  ]

  find-one :
      (i k : ℕ) (l : Loading T)
      → ix.find (one i l).store.branch_index k ≡ (
          if not ((f i).id == 0) && ((f i).id == k) then some i else ix.find l.store.branch_index k)
  unfolding make_branch branch_index_put
  find-one i k l = elim (Bool-cases ((f i).id == 0)) [
    | inl gone ↦ rw gone refl
    | inr kept ↦ rw (kept, ==_self i) (ix.find-replace l.store.branch_index (f i).id i k)
  ]

  pub branches-make_all :
      (n i x : ℕ) (l : Loading T)
      → (make_all (records f i n) i l).store.branches x
        ≡ (if in_file f i n x then made_of x (f x) else l.store.branches x)
  unfolding make_all
  branches-make_all zero i x l = ground arith
  branches-make_all (suc n) i x l =
      let rest = branches-make_all n (i + 1) x (one i l) in
      let first = branches-one i x l in ground arith

  pub arrays-make_all :
      (n i x : ℕ) (l : Loading T)
      → (make_all (records f i n) i l).arrays x
        ≡ (if in_file f i n x then unset (f x).child_n else l.arrays x)
  unfolding make_all
  arrays-make_all zero i x l = ground arith
  arrays-make_all (suc n) i x l =
      let rest = arrays-make_all n (i + 1) x (one i l) in
      let first = arrays-one i x l in ground arith

  -- An id of no record is found as before.
  find-make_all_miss :
      (n i k : ℕ) (l : Loading T)
      → ((x : ℕ) → in_file f i n x ≡ true → ((f x).id == k) ≡ false)
      → ix.find (make_all (records f i n) i l).store.branch_index k ≡ ix.find l.store.branch_index k
  unfolding make_all
  find-make_all_miss zero i k l miss = refl
  find-make_all_miss (suc n) i k l miss =
      let rest = find-make_all_miss n (i + 1) k (one i l) (λ x m. miss x (ground arith)) in
      let first = find-one i k l in let other = miss i in ground arith

  -- The id of one record alone is found there.
  pub find-make_all :
      (n i k j : ℕ) (l : Loading T)
      → in_file f i n j ≡ true
      → ((f j).id == k) ≡ true
      → ((x : ℕ) → in_file f i n x ≡ true → ((f x).id == k) ≡ true → x ≡ j)
      → ix.find (make_all (records f i n) i l).store.branch_index k ≡ some j
  unfolding make_all
  find-make_all zero i k j l here same only = absurd (ground arith)
  find-make_all (suc n) i k j l here same only = elim (Bool-cases (i == j)) [
    | inl first ↦
        let at : i ≡ j = eq_of_== i j first in
        let ids : (f i).id ≡ (f j).id = ap (λ y. (f y).id) at in
        let rest =
          find-make_all_miss n (i + 1) k (one i l) (λ x m. alone at x m (only x (ground arith))) in
        let one_i = find-one i k l in ground (arith, rest, one_i, at, ids)
    | inr later ↦
        find-make_all n (i + 1) k j (one i l) (ground arith) same (λ x m e. only x (ground arith) e)
  ]
    where
      alone :
          i ≡ j
          → (x : ℕ) → in_file f (i + 1) n x ≡ true
          → (((f x).id == k) ≡ true → x ≡ j)
          → ((f x).id == k) ≡ false
      alone first_j x m other = elim (Bool-cases ((f x).id == k)) [
        | inr out ↦ out
        | inl taken ↦ let at : x ≡ j = other taken in absurd (ground arith)
      ]

  -- What is found is a record of the id, or was found before.
  pub find-make_all_sound :
      (n i k j : ℕ) (l : Loading T)
      → ix.find (make_all (records f i n) i l).store.branch_index k ≡ some j
      → ((in_file f i n j ≡ true) × (((f j).id == k) ≡ true))
        ⊎ (ix.find l.store.branch_index k ≡ some j)
  unfolding make_all
  find-make_all_sound zero i k j l e = inr e
  find-make_all_sound (suc n) i k j l e = elim (find-make_all_sound n (i + 1) k j (one i l) e) [
    | inl (m, id) ↦ inl (ground arith, id)
    | inr before ↦ elim (Bool-cases (not ((f i).id == 0) && ((f i).id == k))) [
      | inr miss ↦ inr (rw miss at (sym (find-one i k l) ∙ before))
      | inl hit ↦
          let same : i ≡ j = let now = rw hit at (sym (find-one i k l) ∙ before) in cc in
          inl (
            subst (λ x. (in_file f i (suc n) x ≡ true) × (((f x).id == k) ≡ true)) same
              (ground arith, ground arith))
    ]
  ]
