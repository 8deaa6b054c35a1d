-- ===== src/Walk/Hung.antt =====
-- The climb of view_expand_to (src/view.c:267) and the childs that it makes at the end: where the new
-- vbranches are in the view.
use treedb.Prelude.{
  ℕ, zero, suc, ◌≤◌, ◌<◌, ◌≡◌, refl, ap, ◌∙◌, sym, subst, inl, inr, true, false, Option, none, some,
  List, [], ◌∷◌, arith, ◌==◌, ==_self, Bool-cases, Option-cases, length, has, eq_of_==, ◌⊎◌,
}
use treedb.Index.{Index}
use treedb.Branch.{Branches, elems, kids, parent_of}
use treedb.Branch.Chain.{Up, top, climb, Up-same, Up-above, Up-unique, Up-parent}
use treedb.Branch.Forest.{Shape, parent-kid}
use treedb.Io.Heads.{has-kids_parent}
use treedb.View.{World}
use treedb.View.Frame.{Fits, Shape-SameTree}
use treedb.Walk.{hang, join, siblings, view_get_vbranch, climb_to}
use treedb.Walk.Find.{find_view_lem}
use treedb.Walk.Grow.{has-take}
use treedb.Walk.Keeps.{IsSound}
use treedb.Walk.Hang.{Leads, arrived, IsRow, hang-other, hang-Leads, siblings-none, pointer_in}
use treedb.Walk.Reach.{climb_to-missing}
use treedb.Walk.Rows.{siblings-some}

-- A child of `p` is not `p` and not above it.
above-kids :
    {h : Branches} (p q : ℕ) (us : List ℕ)
    → Shape h
    → Up h p us
    → has q (p ∷ us) ≡ true
    → has q (kids h p) ≡ false
above-kids {h} p q us s up m = elim (Bool-cases (has q (kids h p))) [
  | inr out ↦ out
  | inl child ↦
      let e = parent-kid p q s child in
      let (vs, way, short) : (vs : List ℕ) × Up h q vs × (length vs ≤ length us) =
        elim (Bool-cases (p == q)) [
          | inl here ↦ (us, subst (λ x. Up h x us) (eq_of_== p q here) up, omega arith)
          | inr there ↦ let (vs, v, less) = Up-above q up (ground arith) in (vs, v, omega arith)
        ] in
      let (ws, high, eq) = Up-parent way e in
      let same = ap (λ (l : List ℕ). length l) (Up-unique high up) in
      absurd (omega (arith, short, ap (λ (l : List ℕ). length l) eq, same))
]

module _ {T : Type 0} ⦃ix : Index T⦄ where
  -- The lists of vbranches of some branches have addresses below `low` only.
  abbrev Old : World T → ℕ → List ℕ → Type 0
  Old w low qs =
      (q : ℕ)
      → has q qs ≡ true
      → (x : ℕ) → has x (w.branches q).content.vbranch_list ≡ true
      → x < low

  -- The climb found the vbranch `r`, from which one comes down to `b`; of the vbranches that there were
  -- no other is changed.
  pub record IsHung (w1 w : World T) (u b low r : ℕ) : Type 0 where
    pub high : ℕ
    pub way : Leads w1.vbranches w1.branches u b low high r
    pub older : r < low
    pub kept : (x : ℕ) → x < low → (r == x) ≡ false → w1.vbranches x ≡ w.vbranches x

  pub found_lem :
      (w : World T) (u b low : ℕ) (qs : List ℕ)
      → Fits w.branches
      → Old w low (b ∷ qs)
      → (o : Option ℕ) × (view_get_vbranch w (some u) b ≡ some o)
        × ((vb : ℕ) → o ≡ some vb → vb < low)
  unfolding view_get_vbranch
  found_lem w u b low qs f old =
      let c = (w.branches b).content in
      let (o, found, is) = find_view_lem w.vbranches c.vbranch_n c.vbranch_list u (f b) in
      (
        o,
        found,
        λ vb e.
            old b (rw (==_self b) refl) vb
              (has-take vb c.vbranch_n c.vbranch_list (is.listed vb e)),
      )

  climb_to-found_prev :
      (fuel : ℕ) (w : World T) (u b vb : ℕ) (prev : Option (List ℕ))
      → view_get_vbranch w (some u) b ≡ some (some vb)
      → climb_to (suc fuel) w u b prev ≡ some (join w vb prev, some vb)
  unfolding climb_to
  climb_to-found_prev fuel w u b vb prev e = rw (climb_to, e) refl

  climb_to-root :
      (fuel : ℕ) (w : World T) (u b : ℕ) (prev : Option (List ℕ))
      → view_get_vbranch w (some u) b ≡ some none
      → parent_of w.branches b ≡ none
      → climb_to (suc fuel) w u b prev ≡ none
  unfolding climb_to
  climb_to-root fuel w u b prev missing e = ground arith

  fresh_lem :
      {w : World T} {u b0 low start : ℕ} {cl l : List ℕ}
      → IsRow w u b0 low start cl l
      → low ≤ start
      → (x : ℕ) → x < low
      → has x l ≡ false
  fresh_lem {l} row le x lo = elim (Bool-cases (has x l)) [
    | inr out ↦ out
    | inl m ↦ absurd (omega (arith, (row.cells x m).0, lo, le))
  ]

  IsHung-found :
      (fuel : ℕ) (w w' : World T) (u b b0 low start r vb : ℕ) (l : List ℕ)
      → low ≤ start
      → IsRow w u b0 low start (kids w.branches b) l
      → view_get_vbranch w (some u) b ≡ some (some vb)
      → vb < low
      → climb_to (suc fuel) w u b (some l) ≡ some (w', some r)
      → IsHung w' w u b0 low r
  unfolding join
  IsHung-found fuel w w' u b b0 low start r vb l le row found young made =
      let both = sym (climb_to-found_prev fuel w u b vb (some l) found) ∙ made in
      let world : hang w vb l ≡ w' = cc in
      let one : vb ≡ r = cc in
      let out = fresh_lem row le vb young in
      let hung : IsHung (hang w vb l) w u b0 low vb = record {
        high = w.vnext;
        way =
            hang-Leads w u b0 low start w.vnext b vb l le (λ x m. (row.cells x m).1)
              (λ x m. ground (arith, (row.cells x m).0, young, le))
              (λ x lo hi. ground (arith, lo, young)) row;
        older = young;
        kept = λ x lo other. hang-other w vb l out x (fresh_lem row le x lo) other;
      } in
      subst (λ y. IsHung w' w u b0 low y) one
        (subst (λ (v : World T). IsHung v w u b0 low vb) world hung)

  -- The climb with childs to hang.
  climb-IsHung :
      (fuel : ℕ) (w w' : World T) (u b b0 low start r : ℕ) {us : List ℕ} (l : List ℕ)
      → Shape w.branches
      → Fits w.branches
      → Up w.branches b us
      → Old w low (b ∷ us)
      → low ≤ start
      → start ≤ w.vnext
      → IsRow w u b0 low start (kids w.branches b) l
      → climb_to fuel w u b (some l) ≡ some (w', some r)
      → IsHung w' w u b0 low r
  unfolding climb_to
  climb-IsHung zero w w' u b b0 low start r l s f up old le1 le2 row made = absurd (cc)
  climb-IsHung (suc fuel) w w' u b b0 low start r l s f (top e) old le1 le2 row made =
      let (o, found, young) = found_lem w u b low [] f old in
      elim (Option-cases o) [
        | inr (vb, is) ↦
            IsHung-found fuel w w' u b b0 low start r vb l le1 row (found ∙ ap some is)
              (young vb is) made
        | inl gone ↦
            let never = sym (climb_to-root fuel w u b (some l) (found ∙ ap some gone) e) ∙ made in
            absurd (cc)
      ]
  climb-IsHung (suc fuel) w w' u b b0 low start r l s f (climb {p} {us} e up) old le1 le2 row made =
      let (o, found, young) = found_lem w u b low (p ∷ us) f old in
      elim (Option-cases o) [
        | inr (vb, is) ↦
            IsHung-found fuel w w' u b b0 low start r vb l le1 row (found ∙ ap some is)
              (young vb is) made
        | inl gone ↦
            let (w1, l1, round, is) =
              siblings-some w (kids w.branches p) u b b0 low start w.vnext l f le1 le2 (omega arith)
                (λ x m. (row.cells x m).1) row (has-kids_parent b p s e) in
            let size =
              ap (λ n. siblings n (kids w.branches p) w u b (some l)) (s.sized p) ∙ round in
            let next = climb_to-missing fuel w w1 u b p (some l) l1 (found ∙ ap some gone) e size in
            let hung =
              climb-IsHung fuel w1 w' u p b0 low w.vnext r l1 (Shape-SameTree is.tree s) is.fits
                (Up-same (λ x. ap (λ t. t.2) (is.tree x)) up)
                (λ q m x inside.
                  old q (ground (arith, m)) x
                    (ap (has x) (sym (is.lists q (above-kids p q us s up m))) ∙ inside))
                (omega (arith, le1, le2)) is.later
                (subst (λ k. IsRow w1 u b0 low w.vnext k l1) (sym (ap (λ t. elems t.3) (is.tree p)))
                  is.row)
                (sym next ∙ made) in
            record {
              high = hung.high;
              way = hung.way;
              older = hung.older;
              kept = λ x lo other.
                  hung.kept x lo other
                  ∙ is.kept x (omega (arith, lo, le1, le2)) (fresh_lem row le1 x lo);
            }
      ]

  -- What the climb did for the branch `b` and the vbranch `r`: nothing if `r` is over `b`, and else it
  -- hung the way to `b` below `r`.
  abbrev pub IsClimbed : World T → World T → ℕ → ℕ → ℕ → Type 0
  IsClimbed w1 w u b r =
      ((view_get_vbranch w (some u) b ≡ some (some r)) × (w1 ≡ w)) ⊎ IsHung w1 w u b w.vnext r

  IsClimbed-found :
      (fuel : ℕ) (w w' : World T) (u b r vb : ℕ)
      → view_get_vbranch w (some u) b ≡ some (some vb)
      → climb_to (suc fuel) w u b none ≡ some (w', some r)
      → IsClimbed w' w u b r
  unfolding join
  IsClimbed-found fuel w w' u b r vb found made =
      let both = sym (climb_to-found_prev fuel w u b vb none found) ∙ made in
      let world : w' ≡ w = cc in
      let one : vb ≡ r = cc in inl (found ∙ ap (λ y. some (some y)) one, world)

  pub climb_to-IsClimbed :
      (fuel : ℕ) (w w' : World T) (u b r : ℕ) {us : List ℕ}
      → Shape w.branches
      → IsSound w
      → Up w.branches b us
      → climb_to fuel w u b none ≡ some (w', some r)
      → IsClimbed w' w u b r
  unfolding climb_to
  climb_to-IsClimbed zero w w' u b r s sound up made = absurd (cc)
  climb_to-IsClimbed (suc fuel) w w' u b r s sound (top e) made =
      let (o, found, young) = found_lem w u b w.vnext [] sound.fits (λ q m x. sound.inside q x) in
      elim (Option-cases o) [
        | inr (vb, is) ↦ IsClimbed-found fuel w w' u b r vb (found ∙ ap some is) made
        | inl gone ↦
            let never = sym (climb_to-root fuel w u b none (found ∙ ap some gone) e) ∙ made in
            absurd (cc)
      ]
  climb_to-IsClimbed (suc fuel) w w' u b r s sound (climb {p} {us} e up) made =
      let (o, found, young) = found_lem w u b w.vnext [] sound.fits (λ q m x. sound.inside q x) in
      elim (Option-cases o) [
        | inr (vb, is) ↦ IsClimbed-found fuel w w' u b r vb (found ∙ ap some is) made
        | inl gone ↦
            let (w1, l1, round, g, mirrors, cells, lists) =
              siblings-none w (kids w.branches p) u b sound.fits in
            let (y, inside, over) =
              pointer_in w1.vbranches b l1 (kids w.branches p) mirrors (has-kids_parent b p s e) in
            let size = ap (λ n. siblings n (kids w.branches p) w u b none) (s.sized p) ∙ round in
            let next = climb_to-missing fuel w w1 u b p none l1 (found ∙ ap some gone) e size in
            let row : IsRow w1 u b w.vnext w.vnext (kids w.branches p) l1 = record {
              mirrors = mirrors;
              cells = cells;
              first = y;
              inside = inside;
              way = arrived over;
            } in
            let hung =
              climb-IsHung fuel w1 w' u p b w.vnext w.vnext r l1 (Shape-SameTree g.tree s) g.fits
                (Up-same (λ x. ap (λ t. t.2) (g.tree x)) up)
                (λ q m x listed.
                  sound.inside q x (ap (has x) (sym (lists q (above-kids p q us s up m))) ∙ listed))
                (omega arith) g.later
                (subst (λ k. IsRow w1 u b w.vnext w.vnext k l1)
                  (sym (ap (λ t. elems t.3) (g.tree p))) row)
                (sym next ∙ made) in
            inr (record {
              high = hung.high;
              way = hung.way;
              older = hung.older;
              kept = λ x lo other. hung.kept x lo other ∙ g.kept x lo;
            })
      ]
