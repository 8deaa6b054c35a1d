-- ===== src/Load/Tally.antt =====
-- One branch in the walk of branch_calculate (src/branch.c:232): its ancestors count it.
use treedb.Prelude.{
  ℕ, ◌+◌, ◌<◌, ◌≡◌, refl, ap, ◌∙◌, sym, subst, inl, inr, Bool, true, false, none, some, List, [],
  ◌∷◌, arith, ◌==◌, Bool-cases, Option-cases, length, eq_of_==,
}
use treedb.Branch.{Branches, elems, parent_of, kids, total, branch_increase}
use treedb.Branch.Chain.{Up, Up-parent, Up-root, Up-same}
use treedb.Branch.Forest.{weight, Shape, Counted, Counted-same, parent-kid}
use treedb.Branch.Weight.{
  bump_all, SameLinks, SameLinks-trans, SameLinks-bump_all, total-bump_all_same, increase_loop_lem,
  Counted-bump_all, Shape-same,
}
use treedb.Load.Pruned.{
  those, mark, those_none, pruned, Shape-pruned, Upward, Up-pruned, weight-those-mark,
}

-- The heap `h` has the links of `h0`, and the totals count the marked branches.
pub record IsPartial (h0 h : Branches) (done : ℕ → Bool) : Type 0 where
  pub links : SameLinks h h0
  pub counted : Counted (pruned h done) none 0
  pub upward : Upward h done

module _ {h0 h : Branches} {done : ℕ → Bool} (s : Shape h0) (k : IsPartial h0 h done) (b : ℕ)
    (fresh : done b ≡ false) where
  -- Nothing below an unmarked branch is counted.
  none_below : total h b ≡ 0
  none_below =
      let here = Shape-same k.links s in
      let bare : those done (kids h b) ≡ [] = those_none done (kids h b) (λ c m.
        elim (Bool-cases (done c)) [
          | inr out ↦ out
          | inl in_it ↦ let up = k.upward c b (parent-kid b c here m) in_it in absurd (cc)
        ]) in
      let sum = k.counted.counts b in
      let low = k.counted.bounded b in
      let empty : weight (pruned h done) (those done (kids h b)) ≡ 0 =
        ap (weight (pruned h done)) bare in
      omega arith

  Upward-mark : ((p : ℕ) → parent_of h b ≡ some p → done p ≡ true) → Upward h (mark done b)
  Upward-mark above c q f m = elim (Bool-cases (b == c)) [
    | inl same ↦ let in_it = above q (ap (parent_of h) (eq_of_== b c same) ∙ f) in ground arith
    | inr differ ↦ let old = k.upward c q f (ground arith) in ground arith
  ]

  -- With its mark the branch is missing at its parent.
  Counted-mark : {p : ℕ} → parent_of h b ≡ some p → Counted (pruned h (mark done b)) (some p) 1
  Counted-mark {p} e = record {
    bounded = λ q. k.counted.bounded q;
    counts = λ q.
        let linked = (Shape-same k.links s).linked q b in
        ground (
          arith,
          k.counted.counts q,
          weight-those-mark (pruned h done) (pruned h (mark done b)) done b (kids h q) fresh
              (λ x. refl),
          none_below,
        );
  }

  Counted-top : parent_of h b ≡ none → Counted (pruned h (mark done b)) none 0
  Counted-top e = record {
    bounded = λ q. k.counted.bounded q;
    counts = λ q.
        let linked = (Shape-same k.links s).linked q b in
        ground (
          arith,
          k.counted.counts q,
          weight-those-mark (pruned h done) (pruned h (mark done b)) done b (kids h q) fresh
              (λ x. refl),
          none_below,
        );
  }

-- From a state of the walk in which the branch is not counted, and its parent is: branch_increase
-- returns, and the branch is counted.
pub tally :
    {h0 h : Branches} {done : ℕ → Bool} {us : List ℕ} (up b : ℕ)
    → Shape h0
    → IsPartial h0 h done
    → done b ≡ false
    → ((p : ℕ) → parent_of h0 b ≡ some p → done p ≡ true)
    → Up h0 b us
    → length us < up
    → (g : Branches) × (n : ℕ) × (branch_increase up h b 1 ≡ some (g, n))
      × IsPartial h0 g (mark done b)
unfolding branch_increase bump_all
tally {h0} {h} {done} {us} up b s k fresh above chain room =
    let here = Up-same k.links.parents chain in
    let links = SameLinks-bump_all h 1 us in
    let now = Upward-mark s k b fresh (λ p e. above p (sym (k.links.parents b) ∙ e)) in
    let g = bump_all h 1 us in
    (
      g,
      0 + length us,
      increase_loop_lem up 1 0 here room,
      record {
        links = SameLinks-trans links k.links;
        counted = elim (Option-cases (parent_of h b)) [
          | inl e ↦
              rw (Up-root e here) (Counted-same (λ x. refl) (λ x. refl) (Counted-top s k b fresh e))
          | inr (p, e) ↦
              let in_it = above p (sym (k.links.parents b) ∙ e) in
              let (vs, high, eq) = Up-parent here e in
              let way = Up-pruned now (ground (arith, in_it)) high in
              let sums =
                Counted-bump_all vs 1 way (Shape-pruned (mark done b) (Shape-same k.links s))
                  (Counted-mark s k b fresh e) in
              let t = pruned h (mark done b) in
              subst (λ l. Counted (pruned (bump_all h 1 l) (mark done b)) none 0) (sym eq)
                (Counted-same
                  (λ x.
                    ap (λ l. those (mark done b) (elems l))
                      ((SameLinks-bump_all h 1 (p ∷ vs)).arrays x)
                    ∙ sym (ap elems ((SameLinks-bump_all t 1 (p ∷ vs)).arrays x)))
                  (total-bump_all_same h t 1 (p ∷ vs) (λ x. refl)) sums)
        ];
        upward = λ c q f m. now c q (sym (links.parents c) ∙ f) m;
      },
    )
