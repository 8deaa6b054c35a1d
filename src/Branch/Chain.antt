-- ===== src/Branch/Chain.antt =====
-- The chain of parents of a branch (the walks `while ((b = b->parent))` of src/branch.c and
-- src/map.c), and how linking and unlinking one branch changes the chains.
use treedb.Prelude.{
  ℕ, ◌≤◌, ◌<◌, ◌≡◌, refl, ap, ◌≢◌, inl, inr, true, false, none, some, List, [], ◌∷◌, arith, ◌==◌,
  if◌then◌else◌, Bool-cases, length, has, count, count_of_not_has, ◌∙◌, sym, eq_of_==, subst,
}
use treedb.Branch.{Branches, parent_of}

-- `us` are the ancestors of `b`, the parent first and a root last.
pub data Up (h : Branches) : ℕ → List ℕ → Type 0 where
  top : {b : ℕ} → parent_of h b ≡ none → Up h b []
  climb : {b p : ℕ} {us : List ℕ} → parent_of h b ≡ some p → Up h p us → Up h b (p ∷ us)

-- `b` has a chain, so the walk from it ends.
abbrev pub Rooted : Branches → ℕ → Type 0
Rooted h b = (us : List ℕ) × Up h b us

-- Two heaps agree on the parents.
abbrev pub SameParents : Branches → Branches → Type 0
SameParents g h = (x : ℕ) → parent_of g x ≡ parent_of h x

some_eq : {a b : ℕ} → some a ≡ some b → a ≡ b
some_eq e = cc

pub Up-same : {g h : Branches} {b : ℕ} {us : List ℕ} → SameParents g h → Up h b us → Up g b us
Up-same same (top {b} e) = top (same b ∙ e)
Up-same same (climb {b} e u) = climb (same b ∙ e) (Up-same same u)

pub Up-unique : {h : Branches} {b : ℕ} {us vs : List ℕ} → Up h b us → Up h b vs → us ≡ vs
Up-unique (top e) (top f) = refl
Up-unique (top e) (climb f v) = cc
Up-unique (climb e u) (top f) = cc
Up-unique {h} (climb {p} {us} e u) (climb {p = q} {us = vs} f v) =
    let pq : p ≡ q = some_eq (sym e ∙ f) in
    let tails : us ≡ vs = Up-unique u (subst (λ x. Up h x vs) (sym pq) v) in cc

pub Up-root : {h : Branches} {b : ℕ} {us : List ℕ} → parent_of h b ≡ none → Up h b us → us ≡ []
Up-root e u = Up-unique u (top e)

-- The ancestors of an ancestor form a shorter chain.
pub Up-above :
    {h : Branches} {b : ℕ} {us : List ℕ} (q : ℕ)
    → Up h b us
    → has q us ≡ true
    → (vs : List ℕ) × Up h q vs × (length vs < length us)
Up-above q (top e) m = absurd (ground arith)
Up-above {h} q (climb {p} {us} e u) m = elim (Bool-cases (p == q)) [
  | inl here ↦ (us, subst (λ x. Up h x us) (eq_of_== p q here) u, omega arith)
  | inr there ↦ let (vs, v, short) = Up-above q u (rw there at m) in (vs, v, omega arith)
]

-- No branch is among its own ancestors.
pub Up-acyclic : {h : Branches} {b : ℕ} {us : List ℕ} → Up h b us → has b us ≡ false
Up-acyclic {h} {b} {us} u = elim (Bool-cases (has b us)) [
  | inr out ↦ out
  | inl cycle ↦
      let (vs, v, short) = Up-above b u cycle in
      absurd (omega (arith, ap (λ (l : List ℕ). length l) (Up-unique u v)))
]

-- The ancestors are different branches.
pub Up-nodup : {h : Branches} {b : ℕ} {us : List ℕ} (x : ℕ) → Up h b us → count x us ≤ 1
Up-nodup x (top e) = omega arith
Up-nodup x (climb {p} {us} e u) = elim (Bool-cases (p == x)) [
  | inl here ↦
      let out : has x us ≡ false =
        subst (λ y. has y us ≡ false) (eq_of_== p x here) (Up-acyclic u) in
      ground (arith, count_of_not_has x us out)
  | inr there ↦ ground (arith, Up-nodup x u)
]

pub Up-parent :
    {h : Branches} {b p : ℕ} {us : List ℕ}
    → Up h b us
    → parent_of h b ≡ some p
    → (vs : List ℕ) × Up h p vs × (us ≡ p ∷ vs)
Up-parent (top f) e = cc
Up-parent {h} (climb {p = q} {us = vs} f u) e =
    let same = some_eq (sym f ∙ e) in (vs, subst (λ x. Up h x vs) same u, ap (λ x. x ∷ vs) same)

pub parent-ne_self : {h : Branches} {b p : ℕ} → Rooted h b → parent_of h b ≡ some p → p ≢ b
parent-ne_self {b} (us, u) e same =
    let (vs, v, eq) = Up-parent u e in
    let out : has b us ≡ false = Up-acyclic u in ground (arith, ap (λ l. has b l) eq)

-- What `b->parent = p` makes of the parents, for a branch `b` that had none.
abbrev pub Linked : Branches → Branches → ℕ → ℕ → Type 0
Linked g h b p = (x : ℕ) → parent_of g x ≡ (if b == x then some p else parent_of h x)

abbrev pub Unlinked : Branches → Branches → ℕ → Type 0
Unlinked g h b = (x : ℕ) → parent_of g x ≡ (if b == x then none else parent_of h x)

module _ {g h : Branches} (b p : ℕ) (new : Linked g h b p) where
  -- A chain that does not meet `b` is as it was.
  pub Up-Linked_avoid : {x : ℕ} {us : List ℕ} → Up h x us → has b (x ∷ us) ≡ false → Up g x us
  Up-Linked_avoid (top {b = x} e) out = top (ground (arith, new x))
  Up-Linked_avoid (climb {b = x} e u) out =
      climb (ground (arith, new x)) (Up-Linked_avoid u (ground arith))

  -- A chain that ended in `b` goes on with `p`.
  pub Rooted-Linked :
      {x : ℕ} {us : List ℕ} → parent_of h b ≡ none → Rooted g p → Up h x us → Rooted g x
  Rooted-Linked root r (top {b = x} e) = elim (Bool-cases (b == x)) [
    | inl here ↦ (p ∷ r.0, climb (ground (arith, new x)) r.1)
    | inr there ↦ ([], top (ground (arith, new x)))
  ]
  Rooted-Linked root r (climb {b = x} {p = q} e u) =
      let rest = Rooted-Linked root r u in (q ∷ rest.0, climb (ground (arith, new x)) rest.1)

module _ {g h : Branches} (b : ℕ) (new : Unlinked g h b) where
  pub Up-Unlinked_avoid : {x : ℕ} {us : List ℕ} → Up h x us → has b (x ∷ us) ≡ false → Up g x us
  Up-Unlinked_avoid (top {b = x} e) out = top (ground (arith, new x))
  Up-Unlinked_avoid (climb {b = x} e u) out =
      climb (ground (arith, new x)) (Up-Unlinked_avoid u (ground arith))

  pub Rooted-Unlinked : {x : ℕ} {us : List ℕ} → Up h x us → Rooted g x
  Rooted-Unlinked (top {b = x} e) = ([], top (ground (arith, new x)))
  Rooted-Unlinked (climb {b = x} {p = q} e u) =
      let rest = Rooted-Unlinked u in
      elim (Bool-cases (b == x)) [
        | inl here ↦ ([], top (ground (arith, new x)))
        | inr there ↦ (q ∷ rest.0, climb (ground (arith, new x)) rest.1)
      ]
