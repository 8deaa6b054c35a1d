-- ===== src/Branch/Weight.antt =====
-- branch_increase (src/branch.c:225): it ends, it adds to every ancestor and to nothing else, and
-- so it moves a missing count from a branch up to the root, where it disappears.
use treedb.Prelude.{
  ℕ, zero, suc, ◌+◌, ◌*◌, ◌%◌, ◌<◌, ◌≡◌, refl, ap, inl, inr, Option-cases, false, none, some, List,
  [], ◌∷◌, arith, ◌==◌, if◌then◌else◌, Bool-cases, is_ptr, length, count, has, ==_ne, subst, ◌∙◌,
}
use treedb.Branch.{Branches, frame, elems, parent_of, kids, total, u32_mod, bump, increase_loop}
use treedb.Branch.Chain.{Up, top, climb, Up-same, SameParents, parent-ne_self}
use treedb.Branch.Forest.{weight, Shape, Counted}

-- What the loop does to the heap: `n` is added at each of `us`.
unfoldable pub bump_all : Branches → ℕ → List ℕ → Branches
bump_all h n [] = h
bump_all h n (p ∷ us) = bump_all (bump h p n) n us

-- Two heaps agree on all but the totals.
pub record SameLinks (g h : Branches) : Type 0 where
  pub parents : SameParents g h
  pub arrays : (x : ℕ) → (g x).child_list ≡ (h x).child_list
  pub sizes : (x : ℕ) → (g x).child_n ≡ (h x).child_n
  pub frames : (x : ℕ) → frame (g x) ≡ frame (h x)

pub SameLinks-trans : {f g h : Branches} → SameLinks f g → SameLinks g h → SameLinks f h
SameLinks-trans a b = record {
  parents = λ x. a.parents x ∙ b.parents x;
  arrays = λ x. a.arrays x ∙ b.arrays x;
  sizes = λ x. a.sizes x ∙ b.sizes x;
  frames = λ x. a.frames x ∙ b.frames x;
}

pub SameLinks-bump : (h : Branches) (b n : ℕ) → SameLinks (bump h b n) h
unfolding bump
SameLinks-bump h b n = record {
  parents = λ x. ground arith;
  arrays = λ x. ground arith;
  sizes = λ x. ground arith;
  frames = λ x. ground arith;
}

pub SameLinks-bump_all : (h : Branches) (n : ℕ) (us : List ℕ) → SameLinks (bump_all h n us) h
unfolding bump_all
SameLinks-bump_all h n [] = record {
  parents = λ x. refl;
  arrays = λ x. refl;
  sizes = λ x. refl;
  frames = λ x. refl;
}
SameLinks-bump_all h n (p ∷ us) =
    SameLinks-trans (SameLinks-bump_all (bump h p n) n us) (SameLinks-bump h p n)

pub total-bump :
    (h : Branches) (b n x : ℕ)
    → total (bump h b n) x ≡ (if b == x then (total h x + n) % u32_mod else total h x)
unfolding bump
total-bump h b n x = ground arith

-- The totals after the loop depend on those before it, and on nothing else of the heap.
pub total-bump_all_same :
    (g h : Branches) (n : ℕ) (us : List ℕ)
    → ((x : ℕ) → total g x ≡ total h x)
    → (x : ℕ) → total (bump_all g n us) x ≡ total (bump_all h n us) x
unfolding bump_all
total-bump_all_same g h n [] same x = same x
total-bump_all_same g h n (p ∷ us) same x =
    total-bump_all_same (bump g p n) (bump h p n) n us
      (λ y. ground (arith, total-bump g p n y, total-bump h p n y, same y)) x

-- Nothing but the ancestors is written.
pub total-bump_all_out :
    (h : Branches) (n : ℕ) (us : List ℕ) (x : ℕ)
    → has x us ≡ false
    → total (bump_all h n us) x ≡ total h x
unfolding bump_all
total-bump_all_out h n [] x out = refl
total-bump_all_out h n (p ∷ us) x out =
    ground (arith, total-bump_all_out (bump h p n) n us x, total-bump h p n x)

-- With more fuel than ancestors the walk ends, and says how many it met.
pub increase_loop_lem :
    {h : Branches} {b : ℕ} {us : List ℕ} (fuel n k : ℕ)
    → Up h b us
    → length us < fuel
    → increase_loop fuel h b n k ≡ some (bump_all h n us, k + length us)
unfolding increase_loop bump_all
increase_loop_lem zero n k u small = absurd (omega arith)
increase_loop_lem (suc fuel) n k (top e) small = rw (e, increase_loop) (ground arith)
increase_loop_lem {h} (suc fuel) n k (climb {p} {us} e u) small =
    let rest =
      increase_loop_lem {h = bump h p n} fuel n (k + 1) (Up-same ((SameLinks-bump h p n).parents) u)
        (omega arith) in
    rw (e, increase_loop) (ground arith)

pub weight-bump :
    (h : Branches) (p n : ℕ) (l : List ℕ)
    → weight (bump h p n) l % u32_mod ≡ (weight h l + n * count p l) % u32_mod
weight-bump h p n [] = omega arith
weight-bump h p n (c ∷ l) = ground (arith, total-bump h p n c, weight-bump h p n l)

not-own_parent : {h : Branches} (p : ℕ) → Shape h → is_ptr (parent_of h p) p ≡ false
not-own_parent {h} p s = elim (Option-cases (parent_of h p)) [
  | inl e ↦ rw e refl
  | inr (q, e) ↦ rw e (==_ne q p (parent-ne_self (s.chains p) e))
]

weight-bump-kids :
    {h : Branches} (p n q : ℕ)
    → Shape h
    → weight (bump h p n) (kids (bump h p n) q) % u32_mod
      ≡ (weight h (kids h q) + (if is_ptr (parent_of h p) q then n else 0)) % u32_mod
weight-bump-kids {h} p n q s =
    let arrays = ap elems ((SameLinks-bump h p n).arrays q) in
    let sums = weight-bump h p n (kids h q) in
    let once = s.linked q p in
    elim (Bool-cases (is_ptr (parent_of h p) q)) [
      | inl yes_it ↦ ground arith
      | inr not_it ↦ ground arith
    ]

-- Adding the missing count at a branch leaves it missing at the parent.
Counted-step :
    {h : Branches} (p n : ℕ)
    → Shape h
    → Counted h (some p) n
    → Counted (bump h p n) (parent_of h p) n
Counted-step {h} p n s c = record {
  bounded = λ q. ground (arith, total-bump h p n q, c.bounded q);
  counts = λ q.
      ground (arith, weight-bump-kids p n q s, total-bump h p n q, c.counts q, not-own_parent p s);
}

pub Shape-same : {g h : Branches} → SameLinks g h → Shape h → Shape g
Shape-same {g} {h} same s = record {
  linked = λ q c. ground (arith, ap elems (same.arrays q), same.parents c, s.linked q c);
  sized = λ q. ground (arith, ap elems (same.arrays q), same.sizes q, s.sized q);
  small = λ q. ground (arith, same.sizes q, s.small q);
  chains = λ b. ((s.chains b).0, Up-same same.parents (s.chains b).1);
}

-- The loop of branch_increase makes every total right, from a heap where that of the first
-- parent lacks what the loop adds.
pub Counted-bump_all :
    {h : Branches} {p : ℕ} (us : List ℕ) (n : ℕ)
    → Up h p us
    → Shape h
    → Counted h (some p) n
    → Counted (bump_all h n (p ∷ us)) none 0
unfolding bump_all
Counted-bump_all {p} [] n (top e) s c =
    let c' = Counted-step p n s c in
    record { bounded = c'.bounded; counts = λ q. ground (arith, c'.counts q) }
Counted-bump_all {h} {p} (q ∷ us) n (climb e u) s c =
    let same = SameLinks-bump h p n in
    Counted-bump_all {h = bump h p n} us n (Up-same same.parents u) (Shape-same same s)
      (subst (λ o. Counted (bump h p n) o n) e (Counted-step p n s c))
