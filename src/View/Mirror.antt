-- ===== src/View/Mirror.antt =====
-- The loop of expand (src/view.c:154): it finds or makes a vbranch for each child of a branch.
use treedb.Prelude.{
  ℕ, ◌≤◌, ◌<◌, ◌≡◌, refl, ap, sym, ◌∙◌, subst, inl, inr, true, false, Option, none, some, List, [],
  ◌∷◌, arith, ◌==◌, ==_self, ltb, Bool-cases, Option-cases, length, has, is_ptr, eq_of_is_ptr,
  eq_of_==,
}
use treedb.Index.{Index}
use treedb.View.{Vbranch, Vbranches, World, find_child, child_for, expand_loop}
use treedb.View.Frame.{Fits, Grows, Grows-refl, Grows-trans, new_child_lem}

-- The branches of a list of vbranches.
abbrev pub branches_of : Vbranches → List ℕ → List (Option ℕ)
branches_of v [] = []
branches_of v (x ∷ l) = (v x).branch ∷ branches_of v l

abbrev pub pointers : List ℕ → List (Option ℕ)
pointers [] = []
pointers (c ∷ l) = some c ∷ pointers l

find_child_lem :
    (v : Vbranches) (l : List ℕ) (b : ℕ)
    → (o : Option ℕ) × (find_child v (length l) l b ≡ some o)
      × ((x : ℕ) → o ≡ some x → (has x l ≡ true) × ((v x).branch ≡ some b))
      × (o ≡ none → (x : ℕ) → has x l ≡ true → is_ptr (v x).branch b ≡ false)
unfolding find_child
find_child_lem v [] b = (none, refl, λ x e. absurd cc, λ e x m. absurd (ground arith))
find_child_lem v (y ∷ l) b = elim (Bool-cases (is_ptr (v y).branch b)) [
  | inl here ↦ (
    some y,
    rw (here, find_child) refl,
    λ x e.
        let same : y ≡ x = cc in
        (
          ground (arith, ==_self x, ap (λ t. t == x) same),
          subst (λ t. (v t).branch ≡ some b) same (eq_of_is_ptr (v y).branch b here),
        ),
    λ e. absurd cc,
  )
  | inr there ↦
      let (o, found, is, absent) = find_child_lem v l b in
      (
        o,
        rw (there, find_child) found,
        λ x e. let (inside, branch) = is x e in (ground arith, branch),
        λ e x m. elim (Bool-cases (y == x)) [
          | inl same ↦ ap (λ t. is_ptr (v t).branch b) (sym (eq_of_== y x same)) ∙ there
          | inr other ↦ absent e x (ground arith)
        ],
      )
]

-- A child of the new list is one of the old list, or a new vbranch under `vb`.
pub record IsChild {T : Type 0} (w v : World T) (vb view : ℕ) (old : List ℕ) (x : ℕ) : Type 0 where
  pub below : x < w.vnext
  pub kept : x < v.vnext → has x old ≡ true
  pub under : v.vnext ≤ x → ((w.vbranches x).parent ≡ some vb) × ((w.vbranches x).view ≡ some view)
  pub reused :
      (z c : ℕ)
      → has z old ≡ true
      → (v.vbranches z).branch ≡ some c
      → (w.vbranches x).branch ≡ some c
      → has x old ≡ true

module _ {T : Type 0} ⦃ix : Index T⦄ (vb view : ℕ) (old : List ℕ) where
  -- One round of the loop.
  child_lem :
      (w : World T) (c : ℕ)
      → Fits w.branches
      → ((x : ℕ) → has x old ≡ true → x < w.vnext)
      → (o : Option ℕ) × (w1 : World T) × (r : ℕ) × (find_child w.vbranches (length old) old c
          ≡ some o)
        × (child_for w o c vb (some view) ≡ some (w1, r))
        × Grows w1 w
        × ((w1.vbranches r).branch ≡ some c)
        × IsChild w1 w vb view old r
  unfolding child_for
  child_lem w c f low =
      let (o, found, is, absent) = find_child_lem w.vbranches old c in
      elim (Option-cases o) [
        | inr (v, e) ↦
            let (inside, branch) = is v e in
            (
              o,
              w,
              v,
              found,
              rw e refl,
              Grows-refl w f,
              branch,
              record {
                below = low v inside;
                kept = λ lt. inside;
                under = λ le. absurd (omega (arith, low v inside));
                reused = λ z d m e f. inside;
              },
            )
        | inl e ↦
            let (w1, made, grows, more, cell) = new_child_lem w c (some vb) view f in
            (
              o,
              w1,
              w.vnext,
              found,
              rw e made,
              grows,
              ap (λ (t : Vbranch). t.branch) cell,
              record {
                below = more;
                kept = λ lt. absurd (omega arith);
                under =
                    λ le. (ap (λ (t : Vbranch). t.parent) cell, ap (λ (t : Vbranch). t.view) cell);
                reused = λ z d m old_branch new_branch.
                    let over : (w1.vbranches w.vnext).branch ≡ some c =
                      ap (λ (t : Vbranch). t.branch) cell in
                    let same : d ≡ c = cc in
                    let hit : is_ptr (w.vbranches z).branch c ≡ true =
                      rw old_branch (rw same (==_self c)) in
                    let miss = absent e z m in absurd cc;
              },
            )
      ]

  IsChild-later :
      {u v w : World T} (x : ℕ) → Grows w v → IsChild v u vb view old x → IsChild w u vb view old x
  IsChild-later x g c = record {
    below = omega (arith, c.below, g.later);
    kept = c.kept;
    under = λ le.
        let same = g.kept x c.below in
        let (parent, sight) = c.under le in
        (ap (λ (t : Vbranch). t.parent) same ∙ parent, ap (λ (t : Vbranch). t.view) same ∙ sight);
    reused =
        λ z d m e f. c.reused z d m e (sym (ap (λ (t : Vbranch). t.branch) (g.kept x c.below)) ∙ f);
  }

  IsChild-earlier :
      {u v w : World T} (x : ℕ)
      → Grows v u
      → ((y : ℕ) → has y old ≡ true → y < u.vnext)
      → IsChild w v vb view old x
      → IsChild w u vb view old x
  IsChild-earlier {u} {v} x g low c = record {
    below = c.below;
    kept = λ lt. c.kept (omega (arith, g.later));
    under = λ le. elim (Bool-cases (ltb x v.vnext)) [
      | inl young ↦ absurd (omega (arith, low x (c.kept (ground arith))))
      | inr newer ↦ c.under (ground arith)
    ];
    reused =
        λ z d m e f. c.reused z d m (ap (λ (t : Vbranch). t.branch) (g.kept z (low z m)) ∙ e) f;
  }

  -- The loop over the childs of the branch.
  pub expand_loop_lem :
      (w : World T) (cl : List ℕ)
      → Fits w.branches
      → ((x : ℕ) → has x old ≡ true → x < w.vnext)
      → (w' : World T) × (vs : List ℕ) × (expand_loop
            (length cl)
            cl
            w
            vb
            (some view)
            (length old)
            old
          ≡ some (w', vs))
        × Grows w' w
        × (branches_of w'.vbranches vs ≡ pointers cl)
        × (length vs ≡ length cl)
        × ((x : ℕ) → has x vs ≡ true → IsChild w' w vb view old x)
  unfolding expand_loop
  expand_loop_lem w [] f low =
      (w, [], refl, Grows-refl w f, refl, refl, λ x m. absurd (ground arith))
  expand_loop_lem w (c ∷ cl) f low =
      let (o, w1, r, found, made, g1, branch, child) = child_lem w c f low in
      let (w2, vs, rest, g2, listed, size, childs) =
        expand_loop_lem w1 cl g1.fits (λ x m. omega (arith, low x m, g1.later)) in
      let same = g2.kept r child.below in
      (
        w2,
        r ∷ vs,
        rw (found, made, rest) refl,
        Grows-trans g2 g1,
        ap (λ t. t ∷ branches_of w2.vbranches vs) (ap (λ (t : Vbranch). t.branch) same ∙ branch)
            ∙ ap (λ l. some c ∷ l) listed,
        omega (arith, size),
        λ x m. elim (Bool-cases (r == x)) [
          | inl here ↦
              subst (IsChild w2 w vb view old) (eq_of_== r x here) (IsChild-later r g2 child)
          | inr there ↦ IsChild-earlier x g1 low (childs x (ground arith))
        ],
      )
