-- ===== src/Branch/Forest.antt =====
-- The well-formed heaps of src/branch.c: the child arrays and the parent pointers agree, there is
-- no cycle, and each total_branch_n counts the branches below, modulo 2 ^ 32.
use treedb.Prelude.{
  ℕ, suc, ◌+◌, ◌%◌, ◌<◌, ◌≡◌, ◌*◌, refl, zero, arith, insert_at, remove, Option, none, some, List,
  [], ◌∷◌, if◌then◌else◌, is_ptr, eq_of_is_ptr, length, has, count, count_of_has, some, true,
}
use treedb.Branch.{Branches, parent_of, kids, total, u16_mod, u32_mod}
use treedb.Branch.Chain.{Rooted, SameParents, Up-same}

-- The branches below those of `l`, and these, by the totals that the heap holds.
abbrev pub weight : Branches → List ℕ → ℕ
weight h [] = 0
weight h (c ∷ l) = total h c + 1 + weight h l

pub weight-same :
    (g h : Branches) → ((x : ℕ) → total g x ≡ total h x) → (l : List ℕ) → weight g l ≡ weight h l
weight-same g h same [] = refl
weight-same g h same (c ∷ l) = ground (arith, same c, weight-same g h same l)

pub weight-insert_at :
    (h : Branches) (k c : ℕ) (l : List ℕ) → weight h (insert_at k c l) ≡ total h c + 1 + weight h l
weight-insert_at h zero c l = refl
weight-insert_at h (suc k) c [] = refl
weight-insert_at h (suc k) c (x ∷ l) = omega (arith, weight-insert_at h k c l)

pub weight-remove :
    (h : Branches) (b : ℕ) (l : List ℕ)
    → weight h (remove b l) + (total h b + 1) * count b l ≡ weight h l
weight-remove h b [] = omega arith
weight-remove h b (x ∷ l) = ground (arith, weight-remove h b l)

-- Links, sizes and chains.
pub record Shape (h : Branches) : Type 0 where
  -- A branch stands once in the array of its parent, and in no other.
  pub linked : (q c : ℕ) → count c (kids h q) ≡ (if is_ptr (parent_of h c) q then 1 else 0)
  pub sized : (q : ℕ) → (h q).child_n ≡ length (kids h q)
  pub small : (q : ℕ) → (h q).child_n < u16_mod
  pub chains : (b : ℕ) → Rooted h b

-- Every total is right, but that of `x`, if there is such, which lacks `n`.
pub record Counted (h : Branches) (x : Option ℕ) (n : ℕ) : Type 0 where
  pub bounded : (q : ℕ) → total h q < u32_mod
  pub counts :
      (q : ℕ)
      → (total h q + (if is_ptr x q then n else 0)) % u32_mod ≡ weight h (kids h q) % u32_mod

pub record IsForest (h : Branches) : Type 0 where
  pub shape : Shape h
  pub counted : Counted h none 0

-- The counts depend on the childs and the totals.
pub Counted-same :
    {g h : Branches}
    → ((x : ℕ) → kids g x ≡ kids h x)
    → ((x : ℕ) → total g x ≡ total h x)
    → Counted h none 0
    → Counted g none 0
Counted-same {g} {h} arrays totals c = record {
  bounded = λ q. ground (arith, totals q, c.bounded q);
  counts = λ q. ground (arith, totals q, arrays q, weight-same g h totals (kids g q), c.counts q);
}

-- Two heaps with the same links and totals are well formed together.
pub IsForest-same :
    {g h : Branches}
    → SameParents g h
    → ((x : ℕ) → kids g x ≡ kids h x)
    → ((x : ℕ) → (g x).child_n ≡ (h x).child_n)
    → ((x : ℕ) → total g x ≡ total h x)
    → IsForest h
    → IsForest g
IsForest-same {g} {h} parents arrays sizes totals f = record {
  shape = record {
    linked = λ q c. ground (arith, arrays q, parents c, f.shape.linked q c);
    sized = λ q. ground (arith, arrays q, sizes q, f.shape.sized q);
    small = λ q. ground (arith, sizes q, f.shape.small q);
    chains = λ b. ((f.shape.chains b).0, Up-same parents (f.shape.chains b).1);
  };
  counted = Counted-same arrays totals f.counted;
}

pub parent-kid :
    {h : Branches} (p c : ℕ) → Shape h → has c (kids h p) ≡ true → parent_of h c ≡ some p
parent-kid {h} p c s m =
    let listed = count_of_has c (kids h p) m in
    let linked = s.linked p c in eq_of_is_ptr (parent_of h c) p (ground arith)
