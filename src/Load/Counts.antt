-- ===== src/Load/Counts.antt =====
-- Lists of the branches of a map, and of their places in its file.
use treedb.Prelude.{
  ℕ, suc, ◌≡◌, refl, ap, subst, inl, inr, Bool, true, Option, none, some, List, [], ◌∷◌, arith,
  ◌==◌, Bool-cases, length, count, has, map, eq_of_==,
}
use treedb.Index.{Index}
use treedb.Branch.{Text}
use treedb.Branch.Arrays.{index_of}
use treedb.Store.{Store}
use treedb.Store.Invariant.{IsStored}
use treedb.Load.Placed.{at, IsFile, apart_at}

pub length-map : (f : ℕ → ℕ) (l : List ℕ) → length (map f l) ≡ length l
length-map f [] = refl
length-map f (x ∷ l) = ap suc (length-map f l)

module _ {T : Type 0} ⦃ix : Index T⦄ {s : Store T} {live : ℕ → Bool} (inv : IsStored s live)
    {slot : ℕ → Option ℕ} {row : ℕ → Option (ℕ × Text)} {r : ℕ}
    (file : IsFile s live slot row r) where
  -- A list of branches of the map, at their places, has what it had.
  pub count-map :
      (b : ℕ) (l : List ℕ)
      → live b ≡ true
      → ((c : ℕ) → has c l ≡ true → live c ≡ true)
      → count (at s live b) (map (at s live) l) ≡ count b l
  count-map b [] lb all = refl
  count-map b (x ∷ l) lb all =
      let rest = count-map b l lb (λ c m. all c (ground arith)) in
      elim (Bool-cases (x == b)) [
        | inl same ↦ ground (arith, ap (at s live) (eq_of_== x b same))
        | inr differ ↦ let apart = apart_at inv x b (all x (ground arith)) lb differ in ground arith
      ]

  pub index_of-map :
      (b : ℕ) (l : List ℕ)
      → live b ≡ true
      → ((c : ℕ) → has c l ≡ true → live c ≡ true)
      → index_of (at s live b) (map (at s live) l) ≡ index_of b l
  index_of-map b [] lb all = refl
  index_of-map b (x ∷ l) lb all =
      let rest = index_of-map b l lb (λ c m. all c (ground arith)) in
      elim (Bool-cases (x == b)) [
        | inl same ↦ ground (arith, ap (at s live) (eq_of_== x b same))
        | inr differ ↦ let apart = apart_at inv x b (all x (ground arith)) lb differ in ground arith
      ]

  pub count-map_gone :
      (i : ℕ) (l : List ℕ)
      → slot i ≡ none
      → ((c : ℕ) → has c l ≡ true → live c ≡ true)
      → count i (map (at s live) l) ≡ 0
  count-map_gone i [] gone all = refl
  count-map_gone i (x ∷ l) gone all =
      let rest = count-map_gone i l gone (λ c m. all c (ground arith)) in
      elim (Bool-cases (at s live x == i)) [
        | inr out ↦ ground arith
        | inl same ↦
            let e = file.slot_of x (all x (ground arith)) in
            let moved = subst (λ y. slot y ≡ some x) (eq_of_== (at s live x) i same) e in
            absurd (cc)
      ]
