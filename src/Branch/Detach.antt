-- ===== src/Branch/Detach.antt =====
-- branch_detach (src/branch.c:102): on a well-formed heap it takes a branch out of its parent's
-- childs, and the heap stays well formed.
use treedb.Prelude.{
  ℕ, ◌+◌, ◌-◌, ◌%◌, ◌<◌, ◌≡◌, refl, ap, inl, inr, true, false, Option, none, some, List, ◌∷◌, arith,
  ◌==◌, leb, if◌then◌else◌, Bool-cases, length, count, has, remove, length-remove, count-remove,
  ◌∙◌, sym,
}
use treedb.Branch.{
  Branches, frame, elems, parent_of, kids, total, u16_mod, set_parent, set_childs, keep, drop_child,
  unlink, minus_total, branch_detach,
}
use treedb.Branch.Arrays.{keep-remove}
use treedb.Branch.Chain.{
  Up, climb, Up-acyclic, Up-Unlinked_avoid, Rooted-Unlinked, Unlinked, parent-ne_self,
}
use treedb.Branch.Forest.{weight-same, weight-remove, Shape, Counted, IsForest}
use treedb.Branch.Weight.{
  bump_all, increase_loop_lem, Counted-bump_all, Shape-same, SameLinks-bump_all, total-bump_all_out,
  total-bump_all_same,
}

-- The heap after the writes that follow the count, field by field.
record IsUnlink (g h : Branches) (b p : ℕ) : Type 0 where
  parents : Unlinked g h b
  arrays : (x : ℕ) → kids g x ≡ (if p == x then remove b (kids h x) else kids h x)
  sizes : (x : ℕ) → (g x).child_n ≡ (if p == x then (h x).child_n - 1 else (h x).child_n)
  totals : (x : ℕ) → total g x ≡ total h x
  frames : (x : ℕ) → frame (g x) ≡ frame (h x)

-- A branch with a parent stands once among its childs.
count-kids_parent :
    {h : Branches} (b p : ℕ) → Shape h → parent_of h b ≡ some p → count b (kids h p) ≡ 1
count-kids_parent b p s e = ground (arith, s.linked p b)

drop_child_lem :
    {h : Branches} (b p : ℕ)
    → Shape h
    → parent_of h b ≡ some p
    → (g : Branches) × (drop_child h b p ≡ some g) × IsUnlink g h b p
unfolding drop_child
drop_child_lem {h} b p s e =
    let once = count-kids_parent b p s e in
    let shorter = length-remove b (kids h p) in
    let size = s.sized p in
    let kept : keep (h p).child_n (kids h p) b ≡ some (remove b (kids h p)) =
      rw size (keep-remove (kids h p) b) in
    let fits : leb (length (remove b (kids h p))) ((h p).child_n - 1) ≡ true = ground arith in
    let filled : ((h p).child_n == 0) ≡ false = ground arith in
    let self = parent-ne_self (s.chains b) e in
    (
      set_parent
          (set_childs h p (if (h p).child_n == 0 then none else some (remove b (kids h p)))
            (((h p).child_n + (u16_mod - 1)) % u16_mod))
          b none,
      rw kept (rw fits refl),
      record {
        parents = λ x. ground arith;
        arrays = λ x. ground arith;
        sizes = λ x. ground (arith, s.small p);
        totals = λ x. ground arith;
        frames = λ x. ground arith;
      },
    )

unlink_lem :
    {h : Branches} (b p : ℕ)
    → Shape h
    → parent_of h b ≡ some p
    → (g : Branches) × (unlink h b ≡ some g) × IsUnlink g h b p
unfolding unlink
unlink_lem b p s e = let (g, made, new) = drop_child_lem b p s e in (g, ground arith, new)

module _ {h g : Branches} (b p : ℕ) (new : IsUnlink g h b p) (e : parent_of h b ≡ some p) where
  Shape-unlink : Shape h → Shape g
  Shape-unlink s = record {
    linked = λ q c.
        ground (arith, new.arrays q, new.parents c, s.linked q c, count-remove c b (kids h q));
    sized = λ q. ground (
      arith,
      new.sizes q,
      new.arrays q,
      s.sized q,
      length-remove b (kids h q),
      count-kids_parent b p s e,
    );
    small = λ q. ground (arith, new.sizes q, s.small q);
    chains = λ x. Rooted-Unlinked b new.parents ((s.chains x).1);
  }

  Counted-unlink : IsForest h → Counted g (some p) (minus_total h b)
  Counted-unlink f = record {
    bounded = λ q. ground (arith, new.totals q, f.counted.bounded q);
    counts = λ q.
        let once = count-kids_parent b p f.shape e in
        let sums = weight-remove h b (kids h q) in
        let same = weight-same g h new.totals (kids g q) in
        let low = f.counted.bounded b in
        elim (Bool-cases (p == q)) [
          | inl here ↦ ground (arith, new.totals q, new.arrays q, f.counted.counts q)
          | inr there ↦ ground (arith, new.totals q, new.arrays q, f.counted.counts q)
        ];
  }

Counted-same :
    (g h : Branches) {x : Option ℕ} {n : ℕ}
    → ((q : ℕ) → total g q ≡ total h q)
    → ((q : ℕ) → kids g q ≡ kids h q)
    → Counted h x n
    → Counted g x n
Counted-same g h totals arrays c = record {
  bounded = λ q. ground (arith, totals q, c.bounded q);
  counts = λ q. ground (arith, totals q, arrays q, weight-same g h totals (kids g q), c.counts q);
}

-- What branch_detach does, `p` being the parent and `us` its ancestors.
pub record IsDetached (g h : Branches) (b p : ℕ) (us : List ℕ) : Type 0 where
  pub parents : Unlinked g h b
  pub arrays : (x : ℕ) → kids g x ≡ (if p == x then remove b (kids h x) else kids h x)
  pub sizes : (x : ℕ) → (g x).child_n ≡ (if p == x then (h x).child_n - 1 else (h x).child_n)
  pub totals : (x : ℕ) → has x (p ∷ us) ≡ false → total g x ≡ total h x
  pub frames : (x : ℕ) → frame (g x) ≡ frame (h x)

-- On a well-formed heap, for a branch that has a parent, and with fuel for the walk to the root:
-- branch_detach returns, the heap is well formed again, the branch has left its parent's childs,
-- whose order stays, and no id, no other link and no total but those of its ancestors is changed.
pub branch_detach-IsForest :
    {h : Branches} (fuel b p : ℕ) (us : List ℕ)
    → IsForest h
    → parent_of h b ≡ some p
    → Up h p us
    → length us + 1 < fuel
    → (g : Branches) × (branch_detach fuel h b ≡ some g) × IsForest g × IsDetached g h b p us
unfolding branch_detach
branch_detach-IsForest {h} fuel b p us f e up enough =
    let n = minus_total h b in
    let h1 = bump_all h n (p ∷ us) in
    let same = SameLinks-bump_all h n (p ∷ us) in
    let walk = increase_loop_lem fuel n 0 (climb e up) (omega arith) in
    let shape1 = Shape-same same f.shape in
    let e1 : parent_of h1 b ≡ some p = same.parents b ∙ e in
    let (g, made, new) = unlink_lem b p shape1 e1 in
    let (u, _, plain) = unlink_lem b p f.shape e in
    let up_u = Up-Unlinked_avoid b plain.parents up (Up-acyclic (climb e up)) in
    let counted =
      Counted-bump_all us n up_u (Shape-unlink b p plain e f.shape)
        (Counted-unlink b p plain e f) in
    let u1 = bump_all u n (p ∷ us) in
    let same_u = SameLinks-bump_all u n (p ∷ us) in
    (
      g,
      rw walk made,
      record {
        shape = Shape-unlink b p new e1 shape1;
        counted =
            Counted-same g u1
              (λ q. new.totals q ∙ sym (total-bump_all_same u h n (p ∷ us) plain.totals q))
              (λ q. ground (
                arith,
                new.arrays q,
                plain.arrays q,
                ap elems (same.arrays q),
                ap elems (same_u.arrays q),
              ))
              counted;
      },
      record {
        parents = λ x. ground (arith, new.parents x, same.parents x);
        arrays = λ x. ground (arith, new.arrays x, ap elems (same.arrays x));
        sizes = λ x. ground (arith, new.sizes x, same.sizes x);
        totals = λ x out. new.totals x ∙ total-bump_all_out h n (p ∷ us) x out;
        frames = λ x. new.frames x ∙ same.frames x;
      },
    )
