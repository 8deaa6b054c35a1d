-- ===== src/Store/Invariant.antt =====
-- The well-formed states of a map's tree, and what they give: bounds on the walks to the root and
-- different places in the file.
use treedb.Prelude.{
  ℕ, ◌*◌, ◌%◌, ◌≤◌, ◌<◌, ◌≡◌, ap, sym, ◌∙◌, subst, inl, inr, Bool, true, false, none, some, List,
  [], ◌∷◌, arith, ◌==◌, Bool-cases, length, has, length_bounded, eq_of_==,
}
use treedb.Index.{Index}
use treedb.Branch.{Branches, parent_of, kids, total, u32_mod}
use treedb.Branch.Chain.{Up, top, climb, Up-nodup}
use treedb.Branch.Forest.{parent-kid, IsForest}
use treedb.Io.{Disk, offset}
use treedb.Io.Heads.{head_at, save_all, heads-save_all}
use treedb.Store.{Store}

-- The records that fit under 2 ^ 32 bytes.
abbrev pub record_limit : ℕ
record_limit = 214748364

-- A cell that was never allocated.
pub record IsUnborn (h : Branches) (x : ℕ) : Type 0 where
  pub alone : parent_of h x ≡ none
  pub childless : kids h x ≡ []
  pub no_childs : (h x).child_n ≡ 0
  pub no_total : total h x ≡ 0

module _ {T : Type 0} ⦃ix : Index T⦄ where
  -- `live` says which addresses are branches of the map.
  pub record IsStored (s : Store T) (live : ℕ → Bool) : Type 0 where
    pub forest : IsForest s.branches
    pub in_use : (x : ℕ) → live x ≡ true → x < s.next
    pub unborn : (x : ℕ) → s.next ≤ x → IsUnborn s.branches x
    -- A branch and its parent are both of the map, or neither.
    pub lineage : (x p : ℕ) → parent_of s.branches x ≡ some p → live p ≡ live x
    -- The index holds the branches of the map under their ids, and nothing else.
    pub sound :
        (k b : ℕ) → ix.find s.branch_index k ≡ some b → (live b ≡ true) × ((s.branches b).id ≡ k)
    pub complete : (b : ℕ) → live b ≡ true → ix.find s.branch_index (s.branches b).id ≡ some b
    -- Each branch has a record of its own in the file, and the record is up to date.
    pub placed : (b : ℕ) → live b ≡ true → (s.branches b).findex < s.branch_n
    pub apart :
        (a b : ℕ)
        → live a ≡ true
        → live b ≡ true
        → (s.branches a).findex ≡ (s.branches b).findex
        → a ≡ b
    pub limited : s.branch_n ≤ record_limit
    pub on : s.disk.test ≡ false
    pub filed : (b : ℕ) → live b ≡ true → s.disk.heads (offset s.branches b) ≡ head_at s.branches b

-- Records below the limit are found back from their offsets.
pub offset_apart :
    (h : Branches) (a b : ℕ)
    → (h a).findex < record_limit
    → (h b).findex < record_limit
    → offset h a ≡ offset h b
    → (h a).findex ≡ (h b).findex
unfolding offset
offset_apart h a b la lb e = omega arith

pub offset-same : (g h : Branches) (x : ℕ) → (g x).findex ≡ (h x).findex → offset g x ≡ offset h x
unfolding offset
offset-same g h x e = ap (λ n. n * 20 % u32_mod) e

pub live_above :
    {h : Branches} {live : ℕ → Bool} {b : ℕ} {us : List ℕ} (x : ℕ)
    → ((c p : ℕ) → parent_of h c ≡ some p → live p ≡ live c)
    → Up h b us
    → live b ≡ true
    → has x (b ∷ us) ≡ true
    → live x ≡ true
live_above {live} x lineage (top {b} e) here m =
    ground (arith, ap live (eq_of_== b x (ground arith)))
live_above {live} x lineage (climb {b} {p} e u) here m = elim (Bool-cases (b == x)) [
  | inl same ↦ subst (λ y. live y ≡ true) (eq_of_== b x same) here
  | inr other ↦ live_above x lineage u (lineage b p e ∙ here) (rw other at m)
]

pub live_eq : (live : ℕ → Bool) (a b : ℕ) → (a == b) ≡ true → live a ≡ true → live b ≡ true
live_eq live a b e la = sym (ap live (eq_of_== a b e)) ∙ la

module _ {T : Type 0} ⦃ix : Index T⦄ {s : Store T} {live : ℕ → Bool} (inv : IsStored s live) where
  pub not_live : (x : ℕ) → s.next ≤ x → live x ≡ false
  not_live x old = elim (Bool-cases (live x)) [
    | inl lx ↦ absurd (omega (arith, inv.in_use x lx))
    | inr out ↦ out
  ]

  -- The walk from a branch of the map is bounded by the number of addresses.
  pub length-Up_le : {b : ℕ} {us : List ℕ} → live b ≡ true → Up s.branches b us → length us ≤ s.next
  length-Up_le {b} {us} here up =
      length_bounded s.next us (λ x. Up-nodup x up)
        (λ x m. inv.in_use x (live_above x inv.lineage up here (ground arith)))

  pub apart_offset :
      (a b : ℕ) → live a ≡ true → live b ≡ true → offset s.branches a ≡ offset s.branches b → a ≡ b
  apart_offset a b la lb e = inv.apart a b la lb (
      offset_apart s.branches a b (omega (arith, inv.placed a la, inv.limited))
        (omega (arith, inv.placed b lb, inv.limited)) e)

  -- The childs of a branch of the map are branches of the map.
  pub live_kid : (p c : ℕ) → live p ≡ true → has c (kids s.branches p) ≡ true → live c ≡ true
  live_kid p c lp m = sym (inv.lineage c p (parent-kid p c inv.forest.shape m)) ∙ lp

-- After the records `written` are saved every record of the map is up to date, if the others were.
pub filed_all :
    (h : Branches) (d : Disk) (live : ℕ → Bool) (written : List ℕ)
    → d.test ≡ false
    → ((x : ℕ) → live x ≡ true → (h x).findex < record_limit)
    → ((a b : ℕ) → live a ≡ true → live b ≡ true → (h a).findex ≡ (h b).findex → a ≡ b)
    → ((x : ℕ) → has x written ≡ true → live x ≡ true)
    → ((x : ℕ) → live x ≡ true → has x written ≡ false → d.heads (offset h x) ≡ head_at h x)
    → (x : ℕ) → live x ≡ true
    → (save_all h d written).heads (offset h x) ≡ head_at h x
filed_all h d live written on low apart inside old x lx =
    let saved =
      heads-save_all h d written x on (λ y m e.
        apart y x (inside y m) lx (offset_apart h y x (low y (inside y m)) (low x lx) e)) in
    elim (Bool-cases (has x written)) [
      | inl m ↦ ground arith
      | inr out ↦ ground (arith, old x lx out)
    ]
