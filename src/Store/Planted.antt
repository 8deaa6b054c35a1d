-- ===== src/Store/Planted.antt =====
-- The heap after insert (src/map.c:171) has allocated and linked a branch: which cells are of the
-- map, and what the index finds.
use treedb.Prelude.{
  ℕ, ◌+◌, ◌≤◌, ◌<◌, ◌≡◌, ◌⊎◌, ap, sym, ◌∙◌, subst, inl, inr, Bool, true, false, none, some, List,
  ◌∷◌, arith, ◌==◌, Bool-cases, has, eq_of_==,
}
use treedb.Prelude.Int.{ℤ}
use treedb.Codec.Utf8.{utf8slice}
use treedb.Index.{Index}
use treedb.Branch.{Text, Branch, Branches, elems, parent_of}
use treedb.Branch.Add.{IsAdded}
use treedb.Branch.Forest.{IsForest}
use treedb.Store.{Store, allocate}
use treedb.Store.Invariant.{IsStored, IsUnborn, not_live}
use treedb.Store.Plant.{with_new, old_cell, live_old, parents-allocate}

pub with_new-cases :
    (live : ℕ → Bool) (b x : ℕ) → with_new live b x ≡ true → (live x ≡ true) ⊎ (b ≡ x)
with_new-cases live b x m = ground arith

module _ {T : Type 0} ⦃ix : Index T⦄ {s : Store T} {live : ℕ → Bool} (inv : IsStored s live)
    (id : ℕ) (text : Text) (mark document : ℕ) {h : Branches} {pb : ℕ} {at : ℤ} {us : List ℕ}
    (f : IsForest h) (added : IsAdded h (allocate s id text mark document).branches s.next pb at us)
    (here : live pb ≡ true) (chain : (x : ℕ) → has x (pb ∷ us) ≡ true → live x ≡ true) where
  abbrev s0 : Store T
  s0 = allocate s id text mark document

  -- The cells of the other branches keep their ids and their places in the file.
  id_old : (x : ℕ) → live x ≡ true → (h x).id ≡ (s.branches x).id
  id_old x lx =
      ap (λ t. t.0) (added.frames x)
      ∙ ap (λ (c : Branch). c.id)
          (old_cell inv id text mark document x (live_old inv id text mark document x lx))

  pub findex_old : (x : ℕ) → live x ≡ true → (h x).findex ≡ (s.branches x).findex
  findex_old x lx =
      ap (λ t. t.1) (added.frames x)
      ∙ ap (λ (c : Branch). c.findex)
          (old_cell inv id text mark document x (live_old inv id text mark document x lx))

  pub id_new : (h s.next).id ≡ id
  unfolding allocate
  id_new = ap (λ t. t.0) (added.frames s.next) ∙ ground arith

  findex_new : (h s.next).findex ≡ s.branch_n
  unfolding allocate
  findex_new = ap (λ t. t.1) (added.frames s.next) ∙ ground arith

  pub text_new : (h s.next).content.text ≡ some (utf8slice text 5000)
  unfolding allocate
  text_new = ap (λ t. t.2) (added.frames s.next) ∙ ground arith

  pub lineage_new :
      (x p : ℕ) → parent_of h x ≡ some p → with_new live s.next p ≡ with_new live s.next x
  lineage_new x p e =
      let linked = inv.forest.shape.linked s.next x in
      let childless = (inv.unborn s.next (omega arith)).childless in
      ground (arith, added.parents x, parents-allocate inv id text mark document x, inv.lineage x p)

  pub placed_new : (x : ℕ) → with_new live s.next x ≡ true → (h x).findex < s.branch_n + 1
  placed_new x m = elim (with_new-cases live s.next x m) [
    | inl lx ↦ rw (findex_old x lx) (omega (arith, inv.placed x lx))
    | inr e ↦ subst (λ y. (h y).findex < s.branch_n + 1) e (rw findex_new (omega arith))
  ]

  pub apart_new :
      (a b : ℕ)
      → with_new live s.next a ≡ true
      → with_new live s.next b ≡ true
      → (h a).findex ≡ (h b).findex
      → a ≡ b
  apart_new a b la lb e = elim (with_new-cases live s.next a la) [
    | inl old_a ↦ elim (with_new-cases live s.next b lb) [
      | inl old_b ↦ inv.apart a b old_a old_b (sym (findex_old a old_a) ∙ (e ∙ findex_old b old_b))
      | inr new_b ↦ absurd (
          omega (
            arith,
            inv.placed a old_a,
            findex_old a old_a,
            e,
            ap (λ y. (h y).findex) new_b,
            findex_new,
          ))
    ]
    | inr new_a ↦ elim (with_new-cases live s.next b lb) [
      | inl old_b ↦ absurd (
          omega (
            arith,
            inv.placed b old_b,
            findex_old b old_b,
            e,
            ap (λ y. (h y).findex) new_a,
            findex_new,
          ))
      | inr new_b ↦ sym new_a ∙ new_b
    ]
  ]

  pub parent_new : parent_of h s.next ≡ some pb
  parent_new = ground (arith, added.parents s.next)

  pub IsUnborn-new : (x : ℕ) → s.next + 1 ≤ x → IsUnborn h x
  IsUnborn-new x old =
      let blank = inv.unborn x (omega arith) in
      let out = not_live inv x (omega arith) in
      let cell = old_cell inv id text mark document x (ground arith) in
      let off : has x (pb ∷ us) ≡ false = elim (Bool-cases (has x (pb ∷ us))) [
        | inl m ↦ absurd (ground (arith, chain x m))
        | inr o ↦ o
      ] in
      record {
        alone = ground (arith, added.parents x, ap (λ (c : Branch). c.parent) cell, blank.alone);
        childless =
            ground (
              arith,
              added.arrays x,
              ap (λ (c : Branch). elems c.child_list) cell,
              blank.childless,
            );
        no_childs =
            ground (arith, added.sizes x, ap (λ (c : Branch). c.child_n) cell, blank.no_childs);
        no_total = ground (
          arith,
          added.totals x off,
          ap (λ (c : Branch). c.content.total_branch_n) cell,
          blank.no_total,
        );
      }

  pub sound_new :
      (k b : ℕ)
      → ix.find (ix.replace s.branch_index (h s.next).id s.next) k ≡ some b
      → (with_new live s.next b ≡ true) × ((h b).id ≡ k)
  sound_new k b e =
      let look = ix.find-replace s.branch_index (h s.next).id s.next k in
      elim (Bool-cases ((h s.next).id == k)) [
        | inl same ↦
            let it : s.next ≡ b = ground arith in
            (ground arith, ap (λ y. (h y).id) (sym it) ∙ eq_of_== _ k same)
        | inr other ↦
            let old = inv.sound k b (ground arith) in (ground arith, id_old b old.0 ∙ old.1)
      ]

  pub complete_new :
      ix.find s.branch_index id ≡ none
      → (b : ℕ) → with_new live s.next b ≡ true
      → ix.find (ix.replace s.branch_index (h s.next).id s.next) (h b).id ≡ some b
  complete_new unused b m =
      let look = ix.find-replace s.branch_index (h s.next).id s.next (h b).id in
      elim (with_new-cases live s.next b m) [
        | inr e ↦ ground (arith, ap (λ y. (h y).id) e)
        | inl lb ↦
            let found = inv.complete b lb in
            let same = id_old b lb in
            elim (Bool-cases ((h s.next).id == (h b).id)) [
              | inr other ↦ ground arith
              | inl clash ↦
                  let e = eq_of_== _ _ clash in
                  let key : (s.branches b).id ≡ id = sym same ∙ (sym e ∙ id_new) in
                  absurd (ground (arith, ap (ix.find s.branch_index) key))
            ]
      ]
