-- ===== src/Search/Hits.antt =====
-- search_find (src/search.c:170) as a filter of the rows that the full-text index gives.
use treedb.Prelude.{
  ℕ, zero, suc, ◌<◌, ◌≡◌, refl, inl, inr, Bool, false, none, some, List, [], ◌∷◌, ◌||◌, arith, ◌==◌,
  if◌then◌else◌, Bool-cases, Option-cases, length, take,
}
use treedb.Index.{Index}
use treedb.Branch.{Branches}
use treedb.Branch.Chain.{Up, top, climb}
use treedb.Store.{Store, fuel_of, branch_index_get}
use treedb.Store.Invariant.{IsStored, length-Up_le}
use treedb.Search.{below_loop, find_loop, search_find}

-- Is one of the branches the one with the id?
abbrev pub among : Branches → ℕ → List ℕ → Bool
among h from_id [] = false
among h from_id (x ∷ l) = ((h x).id == from_id) || among h from_id l

below_loop_lem :
    {h : Branches} {b : ℕ} {us : List ℕ} (fuel from_id : ℕ)
    → Up h b us
    → length us < fuel
    → below_loop fuel h from_id b ≡ some (among h from_id (b ∷ us))
unfolding below_loop
below_loop_lem zero from_id up enough = absurd (omega arith)
below_loop_lem {h} {b} (suc fuel) from_id (top e) enough = ground arith
below_loop_lem {h} {b} (suc fuel) from_id (climb e up) enough =
    ground (arith, below_loop_lem fuel from_id up (omega arith))

module _ {T : Type 0} ⦃ix : Index T⦄ {s : Store T} {live : ℕ → Bool} (inv : IsStored s live) where
  -- A branch and its ancestors.
  abbrev lineage : ℕ → List ℕ
  lineage b = b ∷ (inv.forest.shape.chains b).0

  -- The branches of the ids, in their order, that are the branch `from_id` or below it; an id that
  -- the map does not have is passed over.
  abbrev pub hits : ℕ → List ℕ → List ℕ
  hits from_id [] = []
  hits from_id (id ∷ ids) = elim (ix.find s.branch_index id) [
    | none ↦ hits from_id ids
    | some b ↦
        if among s.branches from_id (lineage b) then b ∷ hits from_id ids else hits from_id ids
  ]

  below_lem :
      (from_id id b : ℕ)
      → ix.find s.branch_index id ≡ some b
      → below_loop (fuel_of s) s.branches from_id b ≡ some (among s.branches from_id (lineage b))
  below_lem from_id id b e =
      let (us, up) = inv.forest.shape.chains b in
      below_loop_lem (fuel_of s) from_id up
        (omega (arith, length-Up_le inv ((inv.sound id b e).0) up))

  find_loop_lem :
      (from_id : ℕ) (ids : List ℕ) (left : ℕ)
      → find_loop s from_id ids left ≡ some (take left (hits from_id ids))
  unfolding find_loop branch_index_get
  find_loop_lem from_id [] zero = refl
  find_loop_lem from_id [] (suc left) = refl
  find_loop_lem from_id (id ∷ ids) zero = refl
  find_loop_lem from_id (id ∷ ids) (suc left) = elim (Option-cases (ix.find s.branch_index id)) [
    | inl out ↦ ground (arith, find_loop_lem from_id ids (suc left))
    | inr (b, e) ↦ elim (Bool-cases (among s.branches from_id (lineage b))) [
      | inl below ↦ ground (arith, below_lem from_id id b e, find_loop_lem from_id ids left)
      | inr other ↦ ground (arith, below_lem from_id id b e, find_loop_lem from_id ids (suc left))
    ]
  ]

  -- On a well-formed map search_find returns, and gives the first `branch_max` of the branches whose
  -- ids are among the rows, in the order of the rows, that are the branch with the id `from_id` or
  -- have it among their ancestors.
  pub search_find-hits :
      (from_id : ℕ) (rows : List ℕ) (branch_max : ℕ)
      → search_find s from_id rows branch_max ≡ some (take branch_max (hits from_id rows))
  unfolding search_find
  search_find-hits from_id rows branch_max = rw inv.on (find_loop_lem from_id rows branch_max)
