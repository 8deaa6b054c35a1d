-- ===== src/Branch/Arrays.antt =====
-- The loops over child arrays of src/branch.c: the copy of branch_add is an insertion, that of
-- branch_detach a removal, and branch_get_pos finds the first place.
use treedb.Prelude.{
  ℕ, zero, suc, ◌+◌, ◌-◌, ◌<◌, ◌≤◌, ◌≡◌, refl, inl, inr, true, some, List, [], ◌∷◌, arith, ◌==◌,
  if◌then◌else◌, Bool-cases, length, remove, insert_at, has, get_elem?,
}
use treedb.Prelude.Int.{pos}
use treedb.Branch.{u16_mod, fill, keep, pos_loop}

-- After the insertion the rest is copied.
fill-rest :
    (fuel n : ℕ) (b : List ℕ) (current at limit : ℕ)
    → at < n
    → n + length b ≡ limit
    → limit < u16_mod
    → length b < fuel
    → fill fuel n b current at limit ≡ some b
unfolding fill
fill-rest zero n b current at limit past size small enough = absurd (omega arith)
fill-rest (suc fuel) n [] current at limit past size small enough = ground arith
fill-rest (suc fuel) n (x ∷ b) current at limit past size small enough =
    ground (arith, fill-rest fuel (n + 1) b current at limit)

-- The copying loop of branch_add.
pub fill-insert_at :
    (fuel n : ℕ) (b : List ℕ) (current at limit : ℕ)
    → n ≤ at
    → at < limit
    → n + length b + 1 ≡ limit
    → limit < u16_mod
    → length b + 1 < fuel
    → fill fuel n b current at limit ≡ some (insert_at (at - n) current b)
unfolding fill
fill-insert_at zero n b current at limit lo hi size small enough = absurd (omega arith)
fill-insert_at (suc fuel) n [] current at limit lo hi size small enough =
    let none_left : at - n ≡ 0 = omega arith in
    rw none_left (ground (arith, fill-rest fuel (n + 1) [] current at limit))
fill-insert_at (suc fuel) n (x ∷ b) current at limit lo hi size small enough =
    elim (Bool-cases (n == at)) [
      | inl here ↦
          let none_left : at - n ≡ 0 = ground arith in
          rw none_left (ground (arith, fill-rest fuel (n + 1) (x ∷ b) current at limit))
      | inr there ↦
          let later : n < at = ground arith in
          let one_less : at - n ≡ suc (at - (n + 1)) = omega arith in
          rw one_less (ground (arith, fill-insert_at fuel (n + 1) b current at limit))
    ]

-- The copying loop of branch_detach.
pub keep-remove : (l : List ℕ) (b : ℕ) → keep (length l) l b ≡ some (remove b l)
unfolding keep
keep-remove [] b = refl
keep-remove (x ∷ l) b = ground (arith, keep-remove l b)

-- The first place of `b` in `l`, or the length.
abbrev pub index_of : ℕ → List ℕ → ℕ
index_of b [] = 0
index_of b (x ∷ l) = if x == b then 0 else suc (index_of b l)

pub pos_loop-index_of :
    (n : ℕ) (l : List ℕ) (b : ℕ)
    → has b l ≡ true
    → pos_loop (length l) n l b ≡ some (pos (n + index_of b l))
unfolding pos_loop
pos_loop-index_of n [] b m = absurd (ground arith)
pos_loop-index_of n (x ∷ l) b m = ground (arith, pos_loop-index_of (n + 1) l b)

pub get_elem?-index_of : (b : ℕ) (l : List ℕ) → has b l ≡ true → get_elem? l (index_of b l) ≡ some b
get_elem?-index_of b [] m = absurd (ground arith)
get_elem?-index_of b (x ∷ l) m = ground (arith, get_elem?-index_of b l)
