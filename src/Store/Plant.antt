-- ===== src/Store/Plant.antt =====
-- insert (src/map.c:171) outside the views: a new branch keeps the map well formed.
use treedb.Prelude.{
  ℕ, ◌+◌, ◌<◌, ◌≡◌, refl, ap, sym, ◌∙◌, inl, inr, Bool, true, false, some, List, ◌∷◌, arith, ◌==◌,
  Bool-cases, has, ◌||◌, length_bounded, drop,
}
use treedb.Prelude.Int.{ℤ}
use treedb.Index.{Index}
use treedb.Branch.{Text, Branches, parent_of, kids, u16_mod, clamp_pos, branch_add}
use treedb.Branch.Add.{IsAdded, branch_add-IsForest}
use treedb.Branch.Arrays.{index_of}
use treedb.Branch.Chain.{Up-nodup}
use treedb.Branch.Forest.{Shape, IsForest, IsForest-same}
use treedb.Io.Heads.{head_at, head_at-same, has-kids_parent}
use treedb.Io.Places.{index_of-lt_of_drop, index_of-insert_at_lt}
use treedb.Io.Writes.{written_new}
use treedb.Store.{Store, to_int, fuel_of, allocate}
use treedb.Store.Invariant.{IsStored, live_above}

-- The record of a branch that io_branch_new leaves alone is as it was.
pub head_at-new :
    {g h : Branches} (b p : ℕ) (at : ℤ) (us : List ℕ) (x : ℕ)
    → Shape g
    → IsAdded g h b p at us
    → has x (written_new g b p) ≡ false
    → head_at g x ≡ head_at h x
head_at-new {g} {h} b p at us x s new out =
    let same = new.parents x in
    head_at-same g h x (ap (λ t. t.0) (new.frames x)) (ground (arith, new.sizes x)) (ground arith)
      (λ q e. (ap (λ t. t.0) (new.frames q), place q e))
  where
    place : (q : ℕ) → parent_of h x ≡ some q → index_of x (kids g q) ≡ index_of x (kids h q)
    place q e = elim (Bool-cases (p == q)) [
      | inr other ↦ ground (arith, new.arrays q)
      | inl here ↦
          let up : parent_of g x ≡ some p = ground (arith, new.parents x) in
          let behind : has x (drop (index_of b (kids g p)) (kids g p)) ≡ false = ground arith in
          let before =
            index_of-lt_of_drop x (index_of b (kids g p)) (kids g p) (has-kids_parent x p s up)
              behind in
          let array = new.arrays p in
          let k = clamp_pos at (h p).child_n in
          ground (arith, index_of-insert_at_lt x b k (kids h p))
    ]

pub next-allocate :
    {T : Type 0} ⦃ix : Index T⦄ (s : Store T) (id : ℕ) (text : Text) (mark document : ℕ)
    → (allocate s id text mark document).next ≡ s.next + 1
unfolding allocate
next-allocate s id text mark document = refl

-- The addresses of the map and one more.
abbrev pub with_new : (ℕ → Bool) → ℕ → ℕ → Bool
with_new live b x = live x || (b == x)

module _ {T : Type 0} ⦃ix : Index T⦄ {s : Store T} {live : ℕ → Bool} (inv : IsStored s live)
    (id : ℕ) (text : Text) (mark document : ℕ) where
  -- The new cell has no links and no total, as it had before.
  pub IsForest-allocate : IsForest (allocate s id text mark document).branches
  unfolding allocate
  IsForest-allocate =
      let blank = inv.unborn s.next (omega arith) in
      IsForest-same (λ x. ground (arith, blank.alone)) (λ x. ground (arith, blank.childless))
        (λ x. ground (arith, blank.no_childs)) (λ x. ground (arith, blank.no_total)) inv.forest

  pub parents-allocate :
      (x : ℕ) → parent_of (allocate s id text mark document).branches x ≡ parent_of s.branches x
  unfolding allocate
  parents-allocate x = ground (arith, (inv.unborn s.next (omega arith)).alone)

  pub old_cell :
      (x : ℕ) → (s.next == x) ≡ false → (allocate s id text mark document).branches x ≡ s.branches x
  unfolding allocate
  old_cell x other = ground arith

  pub live_old : (x : ℕ) → live x ≡ true → (s.next == x) ≡ false
  live_old x here = ground (arith, inv.in_use x here)

  -- branch_add finds what it needs.
  pub branch_add-allocate :
      (pb pos : ℕ)
      → live pb ≡ true
      → (s.branches pb).child_n + 1 < u16_mod
      → (h : Branches) × (us : List ℕ) × (branch_add
            (fuel_of (allocate s id text mark document))
            (allocate s id text mark document).branches
            s.next
            pb
            (to_int pos)
          ≡ some h)
        × IsForest h
        × IsAdded h (allocate s id text mark document).branches s.next pb (to_int pos) us
        × ((x : ℕ) → has x (pb ∷ us) ≡ true → live x ≡ true)
  branch_add-allocate pb pos here room =
      let s0 = allocate s id text mark document in
      let f0 = IsForest-allocate in
      let (us, up) = f0.shape.chains pb in
      let lineage = λ (c p : ℕ) (e : parent_of s0.branches c ≡ some p).
        inv.lineage c p (sym (parents-allocate c) ∙ e) in
      let all_live = λ (x : ℕ) (m : has x (pb ∷ us) ≡ true). live_above x lineage up here m in
      let low =
        length_bounded s.next us (λ x. Up-nodup x up)
          (λ x m. inv.in_use x (all_live x (ground arith))) in
      let next0 : s0.next ≡ s.next + 1 = next-allocate s id text mark document in
      let apart : has s.next (pb ∷ us) ≡ false = elim (Bool-cases (has s.next (pb ∷ us))) [
        | inl m ↦ absurd (omega (arith, inv.in_use s.next (all_live s.next m)))
        | inr out ↦ out
      ] in
      let alone = parents-allocate s.next ∙ (inv.unborn s.next (omega arith)).alone in
      let room0 : (s0.branches pb).child_n + 1 < u16_mod =
        rw (old_cell pb (live_old pb here)) room in
      let (h, made, f, added) =
        branch_add-IsForest (fuel_of s0) s.next pb (to_int pos) us f0 alone room0 up apart
          (omega arith) in
      (h, us, made, f, added, all_live)
