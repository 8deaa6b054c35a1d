-- ===== src/Load/Pruned.antt =====
-- A tree of which only some branches are counted, as it is while branch_calculate (src/branch.c:262)
-- walks through it.
use treedb.Prelude.{
  ℕ, ◌+◌, ◌*◌, ◌≤◌, ◌≡◌, refl, ap, ◌∙◌, sym, inl, inr, Bool, true, false, none, some, List, [], ◌∷◌,
  arith, ◌==◌, ◌||◌, if◌then◌else◌, Bool-cases, length, count, has, eq_of_==,
}
use treedb.Branch.{Branches, parent_of, kids, total}
use treedb.Branch.Chain.{Up, top, climb, Rooted}
use treedb.Branch.Forest.{weight, Shape}

-- The entries that are marked.
unfoldable pub those : (ℕ → Bool) → List ℕ → List ℕ
those done [] = []
those done (x ∷ l) = let rest = those done l in if done x then x ∷ rest else rest

-- One more mark.
abbrev pub mark : (ℕ → Bool) → ℕ → ℕ → Bool
mark done b x = (b == x) || done x

pub count-those :
    (done : ℕ → Bool) (c : ℕ) (l : List ℕ)
    → count c (those done l) ≡ (if done c then count c l else 0)
unfolding those
count-those done c [] = ground arith
count-those done c (x ∷ l) = elim (Bool-cases (x == c)) [
  | inl same ↦ ground (arith, ap done (eq_of_== x c same), count-those done c l)
  | inr differ ↦ ground (arith, count-those done c l)
]

pub length-those_le : (done : ℕ → Bool) (l : List ℕ) → length (those done l) ≤ length l
unfolding those
length-those_le done [] = omega arith
length-those_le done (x ∷ l) = ground (arith, length-those_le done l)

pub those_all :
    (done : ℕ → Bool) (l : List ℕ) → ((c : ℕ) → has c l ≡ true → done c ≡ true) → those done l ≡ l
unfolding those
those_all done [] all = refl
those_all done (x ∷ l) all =
    rw (all x (ground arith)) (ap (λ r. x ∷ r) (those_all done l (λ c m. all c (ground arith))))

pub those_none :
    (done : ℕ → Bool) (l : List ℕ) → ((c : ℕ) → has c l ≡ true → done c ≡ false) → those done l ≡ []
unfolding those
those_none done [] all = refl
those_none done (x ∷ l) all =
    rw (all x (ground arith)) (those_none done l (λ c m. all c (ground arith)))

-- The tree of the marked branches.
abbrev pub pruned : Branches → (ℕ → Bool) → Branches
pruned h done x = record (h x) {
  parent = if done x then parent_of h x else none;
  child_list = some (those done (kids h x));
  child_n = length (those done (kids h x));
}

Rooted-pruned :
    {h : Branches} (done : ℕ → Bool) {b : ℕ} {us : List ℕ} → Up h b us → Rooted (pruned h done) b
Rooted-pruned done (top {b} e) = ([], top (ground arith))
Rooted-pruned done (climb {b} {p} e u) =
    let rest = Rooted-pruned done u in
    elim (Bool-cases (done b)) [
      | inl in_it ↦ (p ∷ rest.0, climb (rw in_it e) rest.1)
      | inr out ↦ ([], top (rw out refl))
    ]

pub Shape-pruned : {h : Branches} (done : ℕ → Bool) → Shape h → Shape (pruned h done)
Shape-pruned {h} done s = record {
  linked = λ q c. ground (arith, count-those done c (kids h q), s.linked q c);
  sized = λ q. refl;
  small = λ q. omega (arith, length-those_le done (kids h q), s.sized q, s.small q);
  chains = λ b. Rooted-pruned done (s.chains b).1;
}

-- The marks go up to the root.
abbrev pub Upward : Branches → (ℕ → Bool) → Type 0
Upward h done = (c p : ℕ) → parent_of h c ≡ some p → done c ≡ true → done p ≡ true

pub Up-pruned :
    {h : Branches} {done : ℕ → Bool} {b : ℕ} {us : List ℕ}
    → Upward h done
    → done b ≡ true
    → Up h b us
    → Up (pruned h done) b us
Up-pruned up here (top {b} e) = top (rw here e)
Up-pruned up here (climb {b} {p} e u) = climb (rw here e) (Up-pruned up (up b p e here) u)

-- One more mark adds one branch to the weight of a list that has it.
pub weight-those-mark :
    (h g : Branches) (done : ℕ → Bool) (b : ℕ) (l : List ℕ)
    → done b ≡ false
    → ((x : ℕ) → total g x ≡ total h x)
    → weight g (those (mark done b) l) ≡ weight h (those done l) + (total h b + 1) * count b l
unfolding those
weight-those-mark h g done b [] fresh same = omega arith
weight-those-mark h g done b (x ∷ l) fresh same = elim (Bool-cases (b == x)) [
  | inl here ↦
      let at : total h b ≡ total h x = ground (arith, ap (λ y. total h y) (eq_of_== b x here)) in
      let out : done x ≡ false = sym (ap done (eq_of_== b x here)) ∙ fresh in
      ground (arith, weight-those-mark h g done b l fresh same, same x)
  | inr there ↦ ground (arith, weight-those-mark h g done b l fresh same, same x)
]
