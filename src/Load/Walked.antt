-- ===== src/Load/Walked.antt =====
-- The marks of a walk through a tree that goes to a branch before its childs, as branch_calculate
-- (src/branch.c:234) does.
use treedb.Prelude.{
  ℕ, ◌≡◌, ◌⊎◌, refl, ap, ◌∙◌, sym, inl, inr, Bool, true, false, none, some, List, [], ◌∷◌, arith,
  ◌==◌, Bool-cases, has, eq_of_==, has_of_count,
}
use treedb.Branch.{Branches, parent_of, kids}
use treedb.Branch.Chain.{Up, top, climb}
use treedb.Branch.Forest.{Shape, parent-kid}
use treedb.Load.Pruned.{mark}

module _ {h0 : Branches} (s : Shape h0) where
  -- What a walk from the branches of `l` adds to the marks.
  pub record Walked (old new : ℕ → Bool) (l : List ℕ) : Type 0 where
    pub grows : (x : ℕ) → old x ≡ true → new x ≡ true
    pub listed : (x : ℕ) → has x l ≡ true → new x ≡ true
    -- A new mark is one of `l`, or below a new mark.
    pub fresh :
        (x : ℕ)
        → new x ≡ true
        → old x ≡ false
        → (has x l ≡ true) ⊎ ((p : ℕ) × (parent_of h0 x ≡ some p) × (old p ≡ false))
    -- What is below a new mark is marked.
    pub closed : (c p : ℕ) → parent_of h0 c ≡ some p → new p ≡ true → old p ≡ false → new c ≡ true

  still :
      {old new : ℕ → Bool} (x : ℕ) {l : List ℕ} → Walked old new l → new x ≡ false → old x ≡ false
  still {old} x w out = elim (Bool-cases (old x)) [
    | inr e ↦ e
    | inl e ↦ absurd (ground (arith, w.grows x e))
  ]

  pub Walked-cons :
      {a b d : ℕ → Bool} {c : ℕ} {l : List ℕ}
      → Walked a b (c ∷ [])
      → Walked b d l
      → Walked a d (c ∷ l)
  Walked-cons {a} {b} {d} {c} {l} v w = record {
    grows = λ x e. w.grows x (v.grows x e);
    listed = λ x m. elim (Bool-cases (c == x)) [
      | inl here ↦ w.grows x (v.listed x (rw here refl))
      | inr there ↦ w.listed x (rw there at m)
    ];
    fresh = λ x e out. elim (Bool-cases (b x)) [
      | inl first ↦ elim (v.fresh x first out) [
        | inl m ↦ inl (ground arith)
        | inr below ↦ inr below
      ]
      | inr later ↦ elim (w.fresh x e later) [
        | inl m ↦ inl (ground arith)
        | inr (p, up, no_p) ↦ inr (p, up, still p v no_p)
      ]
    ];
    closed = λ x p up e out. elim (Bool-cases (b p)) [
      | inl first ↦ w.grows x (v.closed x p up first out)
      | inr later ↦ w.closed x p up e later
    ];
  }

  -- A branch that is marked, and then its childs.
  pub Walked-mark :
      {a d : ℕ → Bool} {b : ℕ} → a b ≡ false → Walked (mark a b) d (kids h0 b) → Walked a d (b ∷ [])
  Walked-mark {a} {d} {b} out w = record {
    grows = λ x e. w.grows x (ground arith);
    listed = λ x m. w.grows x (ground arith);
    fresh = λ x e no_x. elim (Bool-cases (b == x)) [
      | inl here ↦ inl (ground arith)
      | inr there ↦ elim (w.fresh x e (ground arith)) [
        | inl m ↦ inr (b, parent-kid b x s m, out)
        | inr (p, up, no_p) ↦ inr (p, up, ground arith)
      ]
    ];
    closed = λ c p up e no_p. elim (Bool-cases (b == p)) [
      | inl here ↦
          let same = eq_of_== b p here in
          let linked = s.linked b c in w.listed c (has_of_count c (kids h0 b) (ground arith))
      | inr there ↦ w.closed c p up e (ground arith)
    ];
  }

  -- Every branch of the map is below the root, so it is marked.
  reached :
      {live : ℕ → Bool} (a d : ℕ → Bool) (r : ℕ) {x : ℕ} {us : List ℕ}
      → Walked a d (r ∷ [])
      → ((y : ℕ) → live y ≡ true → parent_of h0 y ≡ none → y ≡ r)
      → ((y p : ℕ) → parent_of h0 y ≡ some p → live p ≡ live y)
      → live x ≡ true
      → Up h0 x us
      → ((y : ℕ) → a y ≡ false)
      → d x ≡ true
  reached a d r w only lineage lx (top {b} e) none_yet =
      rw (only b lx e) (w.listed r (ground arith))
  reached a d r w only lineage lx (climb {b} {p} e u) none_yet =
      w.closed b p e (reached a d r w only lineage (lineage b p e ∙ lx) u none_yet) (none_yet p)

  pub marked_kid :
      {live : ℕ → Bool} (a d : ℕ → Bool) (r : ℕ)
      → Walked a d (r ∷ [])
      → ((y : ℕ) → live y ≡ true → parent_of h0 y ≡ none → y ≡ r)
      → ((y p : ℕ) → parent_of h0 y ≡ some p → live p ≡ live y)
      → ((y : ℕ) → live y ≡ false → kids h0 y ≡ [])
      → (q c : ℕ) → has c (kids h0 q) ≡ true
      → ((y : ℕ) → a y ≡ false)
      → d c ≡ true
  marked_kid {live} a d r w only lineage bare q c m none_yet = elim (Bool-cases (live q)) [
    | inl lq ↦
        reached a d r w only lineage (sym (lineage c q (parent-kid q c s m)) ∙ lq) (s.chains c).1
          none_yet
    | inr gone ↦ absurd (ground (arith, ap (has c) (bare q gone)))
  ]
