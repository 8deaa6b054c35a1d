-- ===== src/Branch/Add.antt =====
-- branch_add (src/branch.c:65): on a well-formed heap it puts a detached branch at the asked place
-- of its new parent, and the heap stays well formed.
use treedb.Prelude.{
  ℕ, ◌+◌, zero, suc, ◌-◌, ◌%◌, ◌≤◌, ◌<◌, ◌++◌, [], take, drop, ==_self, ◌≡◌, ◌≢◌, refl, ap, inl,
  inr, false, none, some, List, ◌∷◌, arith, ◌==◌, if◌then◌else◌, Bool-cases, length, has, insert_at,
  length-insert_at, count-insert_at, ◌∙◌, ==_ne, nil_of_length, insert_at-nil,
}
use treedb.Prelude.Int.{ℤ, pos, negsuc}
use treedb.Branch.{
  Branch, Branches, frame, elems, parent_of, kids, total, u16_mod, u32_mod, set_parent, set_childs,
  childs_with, link, clamp_pos, branch_add,
}
use treedb.Branch.Arrays.{fill-insert_at}
use treedb.Branch.Chain.{Up, Rooted, climb, Up-Linked_avoid, Rooted-Linked, Linked}
use treedb.Branch.Forest.{weight-same, weight-insert_at, Shape, Counted, IsForest}
use treedb.Branch.Weight.{
  bump_all, increase_loop_lem, Counted-bump_all, Shape-same, SameLinks-bump_all, total-bump_all_out,
}

clamp_pos-le : (at : ℤ) (n : ℕ) → clamp_pos at n < n + 1
clamp_pos-le (pos k) n = ground arith
clamp_pos-le (negsuc k) n = omega arith

-- The new child array.
pub childs_with-insert_at :
    (p : Branch) (current : ℕ) (at : ℤ)
    → p.child_n ≡ length (elems p.child_list)
    → p.child_n + 1 < u16_mod
    → childs_with p current at
      ≡ some (insert_at (clamp_pos at p.child_n) current (elems p.child_list))
unfolding childs_with
childs_with-insert_at p current at size small = elim (Bool-cases (p.child_n == 0)) [
  | inl empty ↦
      let k = clamp_pos at p.child_n in
      let no_kids = nil_of_length (elems p.child_list) (ground arith) in
      rw empty (ground (arith, no_kids, insert_at-nil k current))
  | inr filled ↦
      let k = clamp_pos at p.child_n in
      let whole : k - 0 ≡ k = omega arith in
      rw filled (
        rw whole at (
          fill-insert_at (p.child_n + 2) 0 (elems p.child_list) current k (p.child_n + 1)
            (omega arith) (clamp_pos-le at p.child_n) (omega arith) small (omega arith)))
]

-- The heap after the writes of branch_add, field by field.
record IsLink (g h : Branches) (current parent : ℕ) (at : ℤ) : Type 0 where
  parents : Linked g h current parent
  arrays :
      (x : ℕ)
      → kids g x ≡ (
          if parent == x
          then insert_at (clamp_pos at (h parent).child_n) current (kids h x)
          else kids h x)
  sizes : (x : ℕ) → (g x).child_n ≡ (if parent == x then (h x).child_n + 1 else (h x).child_n)
  totals : (x : ℕ) → total g x ≡ total h x
  frames : (x : ℕ) → frame (g x) ≡ frame (h x)

link_lem :
    {h : Branches} (current parent : ℕ) (at : ℤ)
    → Shape h
    → (h parent).child_n + 1 < u16_mod
    → current ≢ parent
    → (g : Branches) × (link h current parent at ≡ some g) × IsLink g h current parent at
unfolding link
link_lem {h} current parent at s small ne =
    let h1 = set_parent h current (some parent) in
    let kept : h1 parent ≡ h parent = rw (==_ne current parent ne) refl in
    let new = insert_at (clamp_pos at (h parent).child_n) current (kids h parent) in
    let made : childs_with (h1 parent) current at ≡ some new =
      rw kept (childs_with-insert_at (h parent) current at (s.sized parent) small) in
    (
      set_childs h1 parent (some new) (((h1 parent).child_n + 1) % u16_mod),
      rw made refl,
      record {
        parents = λ x. ground arith;
        arrays = λ x. ground arith;
        sizes = λ x. ground arith;
        totals = λ x. ground arith;
        frames = λ x. ground arith;
      },
    )

module _ {h g : Branches} (current parent : ℕ) (at : ℤ) (f : IsForest h)
    (new : IsLink g h current parent at) (root : parent_of h current ≡ none)
    (room : (h parent).child_n + 1 < u16_mod) where
  Shape-link : Rooted g parent → Shape g
  Shape-link r = record {
    linked = λ q c. ground (
      arith,
      new.arrays q,
      new.parents c,
      f.shape.linked q c,
      count-insert_at c (clamp_pos at (h parent).child_n) current (kids h q),
      root,
    );
    sized = λ q. ground (
      arith,
      new.sizes q,
      new.arrays q,
      f.shape.sized q,
      length-insert_at (clamp_pos at (h parent).child_n) current (kids h q),
    );
    small = λ q. ground (arith, new.sizes q, f.shape.small q);
    chains = λ x. Rooted-Linked current parent new.parents root r ((f.shape.chains x).1);
  }

  Counted-link : Counted g (some parent) ((total g current + 1) % u32_mod)
  Counted-link = record {
    bounded = λ q. ground (arith, new.totals q, f.counted.bounded q);
    counts = λ q. ground (
      arith,
      new.totals q,
      new.totals current,
      new.arrays q,
      f.counted.counts q,
      weight-same g h new.totals (kids g q),
      weight-insert_at h (clamp_pos at (h parent).child_n) current (kids h q),
    );
  }

-- What branch_add does, `us` being the ancestors of the new parent.
pub record IsAdded (g h : Branches) (current parent : ℕ) (at : ℤ) (us : List ℕ) : Type 0 where
  pub parents : Linked g h current parent
  pub arrays :
      (x : ℕ)
      → kids g x ≡ (
          if parent == x
          then insert_at (clamp_pos at (h parent).child_n) current (kids h x)
          else kids h x)
  pub sizes : (x : ℕ) → (g x).child_n ≡ (if parent == x then (h x).child_n + 1 else (h x).child_n)
  pub totals : (x : ℕ) → has x (parent ∷ us) ≡ false → total g x ≡ total h x
  pub frames : (x : ℕ) → frame (g x) ≡ frame (h x)
  -- The place that was asked for, or the end if there is no such place.
  pub within :
      (k : ℕ)
      → at ≡ pos k
      → k ≤ (h parent).child_n
      → kids g parent ≡ take k (kids h parent) ++ current ∷ drop k (kids h parent)
  pub beyond :
      (k : ℕ) → at ≡ pos k → (h parent).child_n < k → kids g parent ≡ kids h parent ++ current ∷ []
  pub negative : (k : ℕ) → at ≡ negsuc k → kids g parent ≡ kids h parent ++ current ∷ []

insert_at-take : (k x : ℕ) (l : List ℕ) → k ≤ length l → insert_at k x l ≡ take k l ++ x ∷ drop k l
insert_at-take zero x l low = refl
insert_at-take (suc k) x [] low = absurd (omega arith)
insert_at-take (suc k) x (y ∷ l) low = ap (λ t. y ∷ t) (insert_at-take k x l (omega arith))

insert_at-length : (x : ℕ) (l : List ℕ) → insert_at (length l) x l ≡ l ++ x ∷ []
insert_at-length x [] = refl
insert_at-length x (y ∷ l) = ap (λ t. y ∷ t) (insert_at-length x l)

-- On a well-formed heap, with room for one more child (less than 65535 so far), for a branch that
-- has no parent and is neither the new parent nor one of its ancestors, and with fuel for the walk
-- to the root: branch_add returns, the heap is well formed again (links, sizes, no cycle, every
-- total), the branch stands at the asked place among its parent's childs, or behind them all if the
-- place is negative or greater than their number, and no id, no other link and no total but those of
-- the parent and its ancestors is changed.
pub branch_add-IsForest :
    {h : Branches} (fuel current parent : ℕ) (at : ℤ) (us : List ℕ)
    → IsForest h
    → parent_of h current ≡ none
    → (h parent).child_n + 1 < u16_mod
    → Up h parent us
    → has current (parent ∷ us) ≡ false
    → length us + 1 < fuel
    → (g : Branches) × (branch_add fuel h current parent at ≡ some g)
      × IsForest g
      × IsAdded g h current parent at us
unfolding branch_add
branch_add-IsForest {h} fuel current parent at us f root room up apart enough =
    let (g, made, new) = link_lem current parent at f.shape room (ground arith) in
    let up' = Up-Linked_avoid current parent new.parents up apart in
    let shape = Shape-link current parent at f new root room (us, up') in
    let counted = Counted-link current parent at f new root room in
    let n = (total g current + 1) % u32_mod in
    let self : parent_of g current ≡ some parent = ground (arith, new.parents current) in
    let walk = increase_loop_lem fuel n 0 (climb self up') (omega arith) in
    let same = SameLinks-bump_all g n (parent ∷ us) in
    let size = f.shape.sized parent in
    let array : kids (bump_all g n (parent ∷ us)) parent
        ≡ insert_at (clamp_pos at (h parent).child_n) current (kids h parent) =
      ap elems (same.arrays parent) ∙ (new.arrays parent ∙ rw (==_self parent) refl) in
    let last : insert_at (h parent).child_n current (kids h parent)
        ≡ kids h parent ++ current ∷ [] =
      ap (λ k. insert_at k current (kids h parent)) size
      ∙ insert_at-length current (kids h parent) in
    let placed = λ (z : ℤ) (e : at ≡ z) (k : ℕ) (c : clamp_pos z (h parent).child_n ≡ k).
      array
      ∙ (ap (λ y. insert_at (clamp_pos y (h parent).child_n) current (kids h parent)) e
          ∙ ap (λ i. insert_at i current (kids h parent)) c) in
    (
      bump_all g n (parent ∷ us),
      rw made (rw walk refl),
      record { shape = Shape-same same shape; counted = Counted-bump_all us n up' shape counted },
      record {
        within = λ k e low.
            placed (pos k) e k (ground arith)
            ∙ insert_at-take k current (kids h parent) (omega (arith, size));
        beyond = λ k e high. placed (pos k) e (h parent).child_n (ground arith) ∙ last;
        negative = λ k e. placed (negsuc k) e (h parent).child_n refl ∙ last;
        parents = λ x. same.parents x ∙ new.parents x;
        arrays = λ x. ap elems (same.arrays x) ∙ new.arrays x;
        sizes = λ x. same.sizes x ∙ new.sizes x;
        totals = λ x out. total-bump_all_out g n (parent ∷ us) x out ∙ new.totals x;
        frames = λ x. same.frames x ∙ new.frames x;
      },
    )
