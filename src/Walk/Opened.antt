-- ===== src/Walk/Opened.antt =====
-- The childs that view_expand_to makes at its end (src/view.c:345).
use treedb.Prelude.{
  ℕ, ◌≤◌, ◌<◌, ◌≡◌, refl, ap, ◌∙◌, sym, subst, inl, inr, Bool, true, false, some, List, [], ◌∷◌,
  arith, ◌==◌, ==_self, Bool-cases, length, has, eq_of_==, ◌⊎◌, nil_of_length,
}
use treedb.Index.{Index}
use treedb.Branch.{kids}
use treedb.Branch.Forest.{Shape}
use treedb.View.{Vbranch, World}
use treedb.View.Frame.{Fits, Grows, Grows-refl, Grows-trans}
use treedb.View.Mirror.{branches_of, pointers}
use treedb.Walk.{set_vchilds, new_childs, open_childs, view_get_vbranch}
use treedb.Walk.Hang.{IsOpen, branches_of-same, made_lem}
use treedb.Walk.Hung.{found_lem}
use treedb.Walk.Keeps.{IsSound, Sees}

module _ {T : Type 0} ⦃ix : Index T⦄ where
  new_childs-row :
      (w : World T) (cl : List ℕ) (vb u : ℕ)
      → Fits w.branches
      → (w1 : World T) × (l : List ℕ) × (new_childs (length cl) cl w vb u ≡ some (w1, l))
        × Grows w1 w
        × (branches_of w1.vbranches l ≡ pointers cl)
        × ((x : ℕ)
            → has x l ≡ true
            → (w.vnext ≤ x)
              × ((w1.vbranches x).parent ≡ some vb)
              × ((w1.vbranches x).view ≡ some u))
  unfolding new_childs
  new_childs-row w [] vb u f = (w, [], refl, Grows-refl w f, refl, λ x m. absurd (ground arith))
  new_childs-row w (c ∷ cl) vb u f =
      let (w1, made, g1, next, cell, lists1) = made_lem w c (some vb) u f in
      let (w2, l, rest, g2, mirrors, cells) = new_childs-row w1 cl vb u g1.fits in
      let now = g2.kept w.vnext (omega (arith, next)) ∙ cell in
      (
        w2,
        w.vnext ∷ l,
        rw (new_childs, made, rest) refl,
        Grows-trans g2 g1,
        ap (λ t. t ∷ branches_of w2.vbranches l) (ap (λ (t : Vbranch). t.branch) now)
            ∙ ap (λ t. some c ∷ t) mirrors,
        λ x m. elim (Bool-cases (w.vnext == x)) [
          | inl here ↦
              subst
                (λ y.
                  (w.vnext ≤ y)
                  × ((w2.vbranches y).parent ≡ some vb)
                  × ((w2.vbranches y).view ≡ some u))
                (eq_of_== w.vnext x here)
                (omega arith, ap (λ (t : Vbranch). t.parent) now, ap (λ (t : Vbranch). t.view) now)
          | inr there ↦
              let (lo, parent, sight) = cells x (ground arith) in
              (omega (arith, lo, next), parent, sight)
        ],
      )

  -- The vbranch over `b` in the view has one new child for each child of `b`, in their order, and no
  -- other vbranch is changed.
  pub record IsFilled (w2 w1 : World T) (u b : ℕ) : Type 0 where
    pub over : ℕ
    pub found : view_get_vbranch w1 (some u) b ≡ some (some over)
    pub childs : List ℕ
    pub row : IsOpen w2.vbranches u over (kids w1.branches b) childs
    pub new : (x : ℕ) → has x childs ≡ true → w1.vnext ≤ x
    pub kept : (x : ℕ) → x < w1.vnext → (over == x) ≡ false → w2.vbranches x ≡ w1.vbranches x

  -- The end of view_expand_to with the flag, and without it.
  abbrev pub IsOpened : World T → World T → ℕ → ℕ → Bool → Type 0
  IsOpened w2 w1 u b false = w2 ≡ w1
  IsOpened w2 w1 u b true = ((kids w1.branches b ≡ []) × (w2 ≡ w1)) ⊎ IsFilled w2 w1 u b

  pub open_childs-IsOpened :
      (w w2 : World T) (u b : ℕ)
      → Shape w.branches
      → IsSound w
      → Sees w u b
      → open_childs w u b ≡ some w2
      → IsOpened w2 w u b true
  unfolding open_childs
  open_childs-IsOpened w w2 u b s sound (vb, e) made =
      elim (Bool-cases ((w.branches b).child_n == 0)) [
        | inl empty ↦
            let nothing : open_childs w u b ≡ some w = rw empty refl in
            let both = sym made ∙ nothing in
            let size = s.sized b in inl (nil_of_length (kids w.branches b) (ground arith), cc)
        | inr more ↦
            let (o, got, young) =
              found_lem w u b w.vnext [] sound.fits (λ q m x. sound.inside q x) in
            let same : o ≡ some vb = let two = sym got ∙ e in cc in
            let older = young vb same in
            let (w1, l, round, g, mirrors, cells) =
              new_childs-row w (kids w.branches b) vb u sound.fits in
            let v = set_vchilds w1.vbranches vb l in
            let w3 : World T = record w1 { vbranches = v } in
            let opened : open_childs w u b ≡ some w3 =
              rw (more, e)
                (rw (ap (λ n. new_childs n (kids w.branches b) w vb u) (s.sized b) ∙ round) refl) in
            let both = sym opened ∙ made in
            let world : w3 ≡ w2 = cc in
            let filled : IsFilled w3 w u b = record {
              over = vb;
              found = e;
              childs = l;
              row = record {
                array = rw (==_self vb) refl;
                size = rw (==_self vb) refl;
                mirrors =
                    branches_of-same w1.vbranches v l (λ x m.
                      let differ : (vb == x) ≡ false = ground (arith, (cells x m).0, older) in
                      rw differ refl)
                    ∙ mirrors;
                parents = λ x m.
                    let differ : (vb == x) ≡ false = ground (arith, (cells x m).0, older) in
                    (rw differ (cells x m).1, rw differ (cells x m).2);
              };
              new = λ x m. (cells x m).0;
              kept = λ x lo differ. rw differ (g.kept x lo);
            } in
            inr (subst (λ (z : World T). IsFilled z w u b) world filled)
      ]
