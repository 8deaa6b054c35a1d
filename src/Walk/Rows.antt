-- ===== src/Walk/Rows.antt =====
-- The loop of view_expand_to over the childs of a branch (src/view.c:282), with childs to hang, and the
-- climb with what it hangs.
use treedb.Prelude.{
  ℕ, ◌≤◌, ◌<◌, ◌≡◌, refl, ap, ◌∙◌, sym, subst, inl, inr, true, false, none, some, List, [], ◌∷◌,
  arith, ◌==◌, ==_self, Bool-cases, length, has, eq_of_==,
}
use treedb.Index.{Index}
use treedb.Branch.{elems, kids}
use treedb.View.{Vbranch, World}
use treedb.View.Frame.{Fits, SameTree}
use treedb.View.Mirror.{branches_of}
use treedb.Walk.{hang, join, siblings}
use treedb.Walk.Hang.{
  Leads-same, IsRow, IsRow-Grows, hang_self, hang-other, hang-Leads, SameLists, made_lem,
  siblings-none,
}

module _ {T : Type 0} ⦃ix : Index T⦄ where
  -- What the loop over the childs `cl` leaves, for childs to hang below the vbranch over one of them.
  pub record IsRowed (w1 w : World T) (u b0 low mid : ℕ) (cl l0 l : List ℕ) : Type 0 where
    pub tree : SameTree w1.branches w.branches
    pub fits : Fits w1.branches
    pub later : w.vnext ≤ w1.vnext
    pub kept : (x : ℕ) → x < w.vnext → has x l0 ≡ false → w1.vbranches x ≡ w.vbranches x
    pub lists : SameLists w1 w cl
    pub row : IsRow w1 u b0 low mid cl l

  pub siblings-some :
      (w : World T) (cl : List ℕ) (u b b0 low start mid : ℕ) (l0 : List ℕ)
      → Fits w.branches
      → low ≤ start
      → start ≤ mid
      → mid ≤ w.vnext
      → ((x : ℕ) → has x l0 ≡ true → x < mid)
      → IsRow w u b0 low start (kids w.branches b) l0
      → has b cl ≡ true
      → (w1 : World T) × (l : List ℕ) × (siblings (length cl) cl w u b (some l0) ≡ some (w1, l))
        × IsRowed w1 w u b0 low mid cl l0 l
  unfolding siblings join hang
  siblings-some w [] u b b0 low start mid l0 f le1 le2 le3 under row m = absurd (ground arith)
  siblings-some w (c ∷ cl) u b b0 low start mid l0 f le1 le2 le3 under row m =
      let y = w.vnext in
      let (w1, made, g1, next, cell, lists1) = made_lem w c none u f in
      let row1 = IsRow-Grows (omega (arith, le2, le3)) g1 row in
      let out : has y l0 ≡ false = elim (Bool-cases (has y l0)) [
        | inr no_y ↦ no_y
        | inl bad ↦ absurd (omega (arith, under y bad, le3))
      ] in
      elim (Bool-cases (c == b)) [
        | inl here ↦
            let w2 = hang w1 y l0 in
            let same_kids : kids w.branches b ≡ kids w1.branches b =
              sym (ap (λ t. elems t.3) (g1.tree b)) in
            let way =
              hang-Leads w1 u b0 low start mid b y l0 le1 under
                (λ x e. ground (arith, under x e, le3)) (λ x lo hi. ground (arith, hi, le2, le3))
                (subst (λ k. IsRow w1 u b0 low start k l0) same_kids row1) in
            let self = hang_self w1 y l0 out in
            let (w3, l, rest, g3, mirrors, cells, lists3) = siblings-none w2 cl u b g1.fits in
            let at = g3.kept y (omega (arith, next)) in
            (
              w3,
              y ∷ l,
              rw (siblings, made) (rw (here, rest) refl),
              record {
                tree = λ q. g3.tree q ∙ g1.tree q;
                fits = g3.fits;
                later = omega (arith, g3.later, next);
                kept = λ x lo no_x.
                    g3.kept x (omega (arith, lo, next))
                    ∙ (hang-other w1 y l0 out x no_x (ground arith) ∙ g1.kept x lo);
                lists = λ q no_q. lists3 q (ground arith) ∙ lists1 q (ground arith);
                row = record {
                  mirrors =
                      ap (λ t. t ∷ branches_of w3.vbranches l)
                        (ap (λ (t : Vbranch). t.branch) at
                          ∙ (ap (λ (t : Vbranch). t.branch) self
                              ∙ ap (λ (t : Vbranch). t.branch) cell))
                      ∙ ap (λ t. some c ∷ t) mirrors;
                  cells = λ x e. elim (Bool-cases (y == x)) [
                    | inl one ↦
                        subst (λ z. (mid ≤ z) × (z < w3.vnext) × ((w3.vbranches z).view ≡ some u))
                          (eq_of_== y x one)
                          (
                            le3,
                            omega (arith, next, g3.later),
                            ap (λ (t : Vbranch). t.view) at
                                ∙ (ap (λ (t : Vbranch). t.view) self
                                    ∙ ap (λ (t : Vbranch). t.view) cell),
                          )
                    | inr more ↦
                        let (lo, hi, sight) = cells x (ground arith) in
                        (omega (arith, lo, next, le3), hi, sight)
                  ];
                  first = y;
                  inside = rw (==_self y) refl;
                  way =
                      Leads-same (λ q. ap (λ t. elems t.3) (g3.tree q))
                        (λ x lo hi. g3.kept x (omega (arith, hi, le3, next)))
                        (ap (λ (t : Vbranch). t.branch) at) (ap (λ (t : Vbranch). t.child_list) at)
                        (ap (λ (t : Vbranch). t.child_n) at) way;
                };
              },
            )
        | inr other ↦
            let (w3, l, rest, r) =
              siblings-some w1 cl u b b0 low start mid l0 g1.fits le1 le2 (omega (arith, le3, next))
                under
                (subst (λ k. IsRow w1 u b0 low start k l0) (sym (ap (λ t. elems t.3) (g1.tree b)))
                  row1)
                (ground arith) in
            let at = r.kept y (omega (arith, next)) out in
            (
              w3,
              y ∷ l,
              rw (siblings, made) (rw (other, rest) refl),
              record {
                tree = λ q. r.tree q ∙ g1.tree q;
                fits = r.fits;
                later = omega (arith, r.later, next);
                kept = λ x lo no_x. r.kept x (omega (arith, lo, next)) no_x ∙ g1.kept x lo;
                lists = λ q no_q. r.lists q (ground arith) ∙ lists1 q (ground arith);
                row = record {
                  mirrors =
                      ap (λ t. t ∷ branches_of w3.vbranches l)
                        (ap (λ (t : Vbranch). t.branch) at ∙ ap (λ (t : Vbranch). t.branch) cell)
                      ∙ ap (λ t. some c ∷ t) r.row.mirrors;
                  cells = λ x e. elim (Bool-cases (y == x)) [
                    | inl one ↦
                        subst (λ z. (mid ≤ z) × (z < w3.vnext) × ((w3.vbranches z).view ≡ some u))
                          (eq_of_== y x one)
                          (
                            le3,
                            omega (arith, next, r.later),
                            ap (λ (t : Vbranch). t.view) at ∙ ap (λ (t : Vbranch). t.view) cell,
                          )
                    | inr more ↦ r.row.cells x (ground arith)
                  ];
                  first = r.row.first;
                  inside = ground (arith, r.row.inside);
                  way = r.row.way;
                };
              },
            )
      ]
