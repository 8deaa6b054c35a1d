-- ===== src/Store/Relocate.antt =====
-- move (src/map.c:783) outside the views: a moved branch keeps the map well formed.
use treedb.Prelude.{
  ℕ, ◌+◌, ◌<◌, ◌≡◌, ◌≢◌, ap, sym, ◌∙◌, subst, inl, inr, false, some, List, arith, ◌==◌,
  if◌then◌else◌, Bool-cases, has, has-append, eq_of_==, ne_of_==, drop, insert_at, remove,
}
use treedb.Branch.{Branches, frame, parent_of, kids}
use treedb.Branch.Arrays.{index_of}
use treedb.Branch.Forest.{IsForest}
use treedb.Io.Heads.{head_at, head_at-same, has-kids_parent}
use treedb.Io.Places.{index_of-lt_of_drop, index_of-insert_at_lt, index_of-remove_lt, index_of-ne}
use treedb.Io.Writes.{written_moved}

-- The heap after branch_detach and branch_add, against the one before.
pub record IsMoved (g h : Branches) (b from to : ℕ) : Type 0 where
  pub forest : IsForest g
  pub parents : (x : ℕ) → parent_of g x ≡ (if b == x then some to else parent_of h x)
  pub left : (x : ℕ) → List ℕ
  pub left_lem : (x : ℕ) → left x ≡ (if from == x then remove b (kids h x) else kids h x)
  pub place : ℕ
  pub arrays : (x : ℕ) → kids g x ≡ (if to == x then insert_at place b (left x) else left x)
  pub sizes : (x : ℕ) → (from == x) ≡ false → (to == x) ≡ false → (g x).child_n ≡ (h x).child_n
  pub frames : (x : ℕ) → frame (g x) ≡ frame (h x)

-- The record of a branch that io_branch_moved leaves alone is as it was.
module _ {g h : Branches} {b from to : ℕ} (new : IsMoved g h b from to) (y : ℕ)
    (out : has y (written_moved g b to from (index_of b (kids h from))) ≡ false) where
  outs :
      ((b == y) ≡ false)
      × ((to == y) ≡ false)
      × ((from == y) ≡ false)
      × (has y (drop (index_of b (kids g to) + 1) (kids g to)) ≡ false)
      × (has y (drop (index_of b (kids h from)) (kids g from)) ≡ false)
  outs = ground (
    arith,
    has-append y (drop (index_of b (kids g to) + 1) (kids g to))
        (drop (index_of b (kids h from)) (kids g from)),
  )

  -- Under the new parent it stands before the moved branch.
  before_new : parent_of g y ≡ some to → index_of y (kids g to) < index_of b (kids g to)
  before_new e =
      let m = has-kids_parent y to new.forest.shape e in
      let lt = index_of-lt_of_drop y (index_of b (kids g to) + 1) (kids g to) m outs.3 in
      let ne = index_of-ne y b (kids g to) m (λ same. ne_of_== b y outs.0 (sym same)) in omega arith

  -- Under the old parent it stands before the place that the moved branch had.
  before_old : parent_of g y ≡ some from → index_of y (kids g from) < index_of b (kids h from)
  before_old e =
      index_of-lt_of_drop y (index_of b (kids h from)) (kids g from)
        (has-kids_parent y from new.forest.shape e) outs.4

  -- So its place is the same.
  place_left : (q : ℕ) → parent_of g y ≡ some q → index_of y (kids g q) ≡ index_of y (new.left q)
  place_left q e = elim (Bool-cases (to == q)) [
    | inr other ↦ ground (arith, new.arrays q)
    | inl here ↦
        let it = eq_of_== to q here in
        let array = new.arrays q in
        let lt : index_of y (kids g q) < index_of b (kids g q) =
          subst (λ t. index_of y (kids g t) < index_of b (kids g t)) it (before_new (rw it e)) in
        ground (arith, index_of-insert_at_lt y b new.place (new.left q))
  ]

  place_moved : (q : ℕ) → parent_of g y ≡ some q → index_of y (kids g q) ≡ index_of y (kids h q)
  place_moved q e = elim (Bool-cases (from == q)) [
    | inr other ↦ ground (arith, place_left q e, new.left_lem q)
    | inl here ↦
        let it = eq_of_== from q here in
        let lt : index_of y (kids g q) < index_of b (kids h q) =
          subst (λ t. index_of y (kids g t) < index_of b (kids h t)) it (before_old (rw it e)) in
        let ne : y ≢ b = λ same. ne_of_== b y outs.0 (sym same) in
        ground (arith, place_left q e, new.left_lem q, index_of-remove_lt y b (kids h q))
  ]

  pub head_at-moved : head_at g y ≡ head_at h y
  head_at-moved =
      let same : parent_of g y ≡ parent_of h y = ground (arith, new.parents y, outs) in
      head_at-same g h y (ap (λ t. t.0) (new.frames y)) (new.sizes y outs.2 outs.1) same
        (λ q e. (ap (λ t. t.0) (new.frames q), place_moved q (same ∙ e)))
