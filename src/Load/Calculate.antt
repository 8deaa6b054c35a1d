-- ===== src/Load/Calculate.antt =====
-- The walk of branch_calculate (src/branch.c:234) over a whole tree: each branch is counted once.
use treedb.Prelude.{
  ℕ, zero, suc, ◌+◌, ◌≤◌, ◌<◌, ◌≡◌, refl, ap, ◌∙◌, sym, subst, inl, inr, Bool, true, false, none,
  some, List, [], ◌∷◌, arith, Bool-cases, Option-cases, length, count, has, ==_ne, count_of_has,
}
use treedb.Branch.{Branches, elems, parent_of, kids, total, branch_increase}
use treedb.Branch.Chain.{Up, top, climb, parent-ne_self}
use treedb.Branch.Forest.{Shape, IsForest, parent-kid, Counted-same}
use treedb.Branch.Weight.{SameLinks, Shape-same}
use treedb.Load.{calculate_loop, branch_calculate}
use treedb.Load.Pruned.{mark, pruned, those_all, those_none}
use treedb.Load.Walked.{Walked, Walked-cons, Walked-mark, marked_kid}
use treedb.Load.Tally.{IsPartial, tally}

module _ {h0 : Branches} (s : Shape h0) where
  into_childs :
      (fuel up : ℕ) (h g g2 : Branches) (b m : ℕ) (l : List ℕ)
      → branch_increase up h b 1 ≡ some (g, m)
      → kids g b ≡ l
      → (g b).child_n ≡ length l
      → calculate_loop (branch_calculate fuel up) (length l) l g ≡ some g2
      → branch_calculate (suc fuel) up h b ≡ some g2
  unfolding branch_calculate
  into_childs fuel up h g g2 b m l counted same size made = elim (Option-cases ((g b).child_list)) [
    | inl e ↦
        let empty : [] ≡ l = sym (ap elems e) ∙ same in
        let now = rw (← empty) at made in rw (counted, e) (unfold calculate_loop in now)
    | inr (cl, e) ↦
        let whole : cl ≡ l = sym (ap elems e) ∙ same in rw (counted, e) (rw (size, whole) made)
  ]

  module _ (n up : ℕ) (room : n < up)
      (short : (b : ℕ) (us : List ℕ) → Up h0 b us → length us ≤ n) where
    -- What a call with this fuel does.
    Walks : ℕ → Type 0
    Walks fuel =
        (h : Branches) (a : ℕ → Bool) (b : ℕ) (us : List ℕ)
        → IsPartial h0 h a
        → a b ≡ false
        → ((p : ℕ) → parent_of h0 b ≡ some p → a p ≡ true)
        → Up h0 b us
        → n < fuel + length us
        → (g : Branches) × (d : ℕ → Bool) × (branch_calculate fuel up h b ≡ some g)
          × IsPartial h0 g d
          × Walked s a d (b ∷ [])

    childs_lem :
        (fuel b : ℕ) (us l : List ℕ) (h : Branches) (a : ℕ → Bool)
        → Walks fuel
        → Up h0 b us
        → n < fuel + suc (length us)
        → IsPartial h0 h a
        → a b ≡ true
        → ((c : ℕ) → has c l ≡ true → parent_of h0 c ≡ some b)
        → ((c : ℕ) → has c l ≡ true → a c ≡ false)
        → ((c : ℕ) → count c l ≤ 1)
        → (g : Branches) × (d : ℕ → Bool) × (calculate_loop
              (branch_calculate fuel up)
              (length l)
              l
              h
            ≡ some g)
          × IsPartial h0 g d
          × Walked s a d l
    unfolding calculate_loop Walks
    childs_lem fuel b us [] h a walks chain low k in_it below fresh once = (
      h,
      a,
      refl,
      k,
      record {
        grows = λ x e. e;
        listed = λ x m. absurd (ground arith);
        fresh = λ x e no_x. absurd (ground arith);
        closed = λ c p e m no_p. absurd (ground arith);
      },
    )
    childs_lem fuel b us (c ∷ l) h a walks chain low k in_it below fresh once =
        let up_c = below c (ground arith) in
        let (g1, a1, first, k1, w1) =
          walks h a c (b ∷ us) k (fresh c (ground arith))
            (λ p e. let same : p ≡ b = cc in ap a same ∙ in_it) (climb up_c chain) low in
        let (g, d, rest, k2, w2) =
          childs_lem fuel b us l g1 a1 walks chain low k1 (w1.grows b in_it)
            (λ x m. below x (ground arith))
            (λ x m. elim (Bool-cases (a1 x)) [
              | inr out ↦ out
              | inl early ↦ elim (w1.fresh x early (fresh x (ground arith))) [
                | inl same ↦ absurd (ground (arith, once x, count_of_has x l m))
                | inr (p, e, no_p) ↦
                    let up_x = below x (ground arith) in
                    let same : p ≡ b = cc in absurd (ground (arith, ap a same))
              ]
            ])
            (λ x. ground (arith, once x)) in
        (g, d, rw first rest, k2, Walked-cons s w1 w2)

    node_lem : (fuel : ℕ) → Walks fuel → Walks (suc fuel)
    unfolding Walks
    node_lem fuel walks h a b us k out above chain low =
        let (g, m, counted, k1) =
          tally up b s k out above chain (omega (arith, short b us chain)) in
        let same = ap elems (k1.links.arrays b) in
        let (g2, d, made, k2, w) =
          childs_lem fuel b us (kids h0 b) g (mark a b) walks chain (omega arith) k1 (ground arith)
            (λ c e. parent-kid b c s e)
            (λ c e. elim (Bool-cases (mark a b c)) [
              | inr no_c ↦ no_c
              | inl marked ↦
                  let up_c = parent-kid b c s e in
                  let apart = ==_ne b c (parent-ne_self (s.chains c) up_c) in
                  absurd (ground (arith, k.upward c b (k.links.parents c ∙ up_c)))
            ])
            (λ c. ground (arith, s.linked b c)) in
        (
          g2,
          d,
          into_childs fuel up h g g2 b m (kids h0 b) counted same (k1.links.sizes b ∙ s.sized b)
              made,
          k2,
          Walked-mark s out w,
        )

    -- With fuel for the longest way down, the walk returns.
    walks_lem : (fuel : ℕ) → Walks fuel
    unfolding Walks
    walks_lem zero = λ h a b us k out above chain low. absurd (omega (arith, short b us chain))
    walks_lem (suc fuel) = node_lem fuel (walks_lem fuel)

    -- From the root, with no total set, the walk makes a tree whose totals are right.
    pub branch_calculate-IsForest :
        (h : Branches) (live : ℕ → Bool) (r fuel : ℕ)
        → SameLinks h h0
        → ((x : ℕ) → total h x ≡ 0)
        → n < fuel
        → parent_of h0 r ≡ none
        → ((x : ℕ) → live x ≡ true → parent_of h0 x ≡ none → x ≡ r)
        → ((x p : ℕ) → parent_of h0 x ≡ some p → live p ≡ live x)
        → ((x : ℕ) → live x ≡ false → kids h0 x ≡ [])
        → (g : Branches) × (branch_calculate fuel up h r ≡ some g) × IsForest g × SameLinks g h0
    unfolding Walks
    branch_calculate-IsForest h live r fuel links zeroed low root only lineage bare =
        let (g, d, made, k, w) =
          walks_lem fuel h (λ x. false) r []
            (record {
              links = links;
              counted = record {
                bounded = λ q. ground (arith, zeroed q);
                counts =
                    λ q. ground (arith, zeroed q, those_none (λ x. false) (kids h q) (λ c m. refl));
              };
              upward = λ c p e m. absurd (cc);
            })
            refl (λ p e. absurd (cc)) (top root) (omega arith) in
        let all = λ (q c : ℕ) (m : has c (kids g q) ≡ true).
          marked_kid s (λ y. false) d r w only lineage bare q c
            (subst (λ l. has c l ≡ true) (ap elems (k.links.arrays q)) m) (λ y. refl) in
        (
          g,
          made,
          record {
            shape = Shape-same k.links s;
            counted =
                Counted-same {g = g} {h = pruned g d} (λ q. sym (those_all d (kids g q) (all q)))
                  (λ q. refl) k.counted;
          },
          k.links,
        )
