-- ===== src/Store/Move.antt =====
-- move (src/map.c:783) outside the views: branch_detach, branch_add and the files together.
use treedb.Prelude.{
  ℕ, ◌+◌, ◌≤◌, ◌<◌, ◌≡◌, has-drop, refl, ap, sym, ◌∙◌, inl, inr, Bool, true, false, none, some,
  List, ◌∷◌, arith, ◌==◌, if◌then◌else◌, Bool-cases, has, has-append, eq_of_==, drop,
}
use treedb.Prelude.Int.{ℤ, pos}
use treedb.Index.{Index}
use treedb.Branch.{
  Branches, frame, parent_of, kids, total, u16_mod, clamp_pos, branch_add, branch_detach,
}
use treedb.Branch.Add.{branch_add-IsForest}
use treedb.Branch.Detach.{branch_detach-IsForest}
use treedb.Branch.Arrays.{index_of}
use treedb.Branch.Chain.{Up, Up-Unlinked_avoid}
use treedb.Branch.Forest.{parent-kid}
use treedb.Io.{offset}
use treedb.Io.Heads.{head_at, save_all, test-save_all, branch_get_pos_lem}
use treedb.Io.Writes.{written_moved, io_branch_moved_lem, to_u16-index_of}
use treedb.Store.{Store, fuel_of, relocate}
use treedb.Store.Invariant.{
  IsStored, IsUnborn, offset-same, filed_all, length-Up_le, live_above, live_eq, not_live,
}
use treedb.Store.Relocate.{IsMoved, head_at-moved}

module _ {T : Type 0} ⦃ix : Index T⦄ {s : Store T} {live : ℕ → Bool} (inv : IsStored s live)
    (b from to : ℕ) (at : ℤ) (us : List ℕ) (live_b : live b ≡ true) (live_to : live to ≡ true)
    (parent : parent_of s.branches b ≡ some from) (up : Up s.branches to us)
    (apart : has b (to ∷ us) ≡ false)
    (room : (if from == to then 0 else 1) + (s.branches to).child_n < u16_mod) where
  live_from : live from ≡ true
  live_from = inv.lineage b from parent ∙ live_b

  -- The two heap operations succeed.
  moved :
      (h1 h2 : Branches) × (branch_detach (fuel_of s) s.branches b ≡ some h1)
      × (branch_add (fuel_of s) h1 b to at ≡ some h2)
      × IsMoved h2 s.branches b from to
      × ((x : ℕ) → live x ≡ false → total h2 x ≡ total s.branches x)
  moved =
      let f = inv.forest in
      let (vs, up_from) = f.shape.chains from in
      let low_from = length-Up_le inv live_from up_from in
      let (h1, made1, f1, det) =
        branch_detach-IsForest (fuel_of s) b from vs f parent up_from (omega arith) in
      let up1 : Up h1 to us = Up-Unlinked_avoid b det.parents up apart in
      let low_to = length-Up_le inv live_to up in
      let alone : parent_of h1 b ≡ none = ground (arith, det.parents b) in
      let room1 : (h1 to).child_n + 1 < u16_mod = ground (arith, det.sizes to, f.shape.small to) in
      let (h2, made2, f2, add) =
        branch_add-IsForest (fuel_of s) b to at us f1 alone room1 up1 apart (omega arith) in
      (
        h1,
        h2,
        made1,
        made2,
        record {
          forest = f2;
          parents = λ x. ground (arith, add.parents x, det.parents x);
          left = kids h1;
          left_lem = det.arrays;
          place = clamp_pos at (h1 to).child_n;
          arrays = add.arrays;
          sizes = λ x e1 e2. ground (arith, add.sizes x, det.sizes x);
          frames = λ x. add.frames x ∙ det.frames x;
        },
        λ x dead.
            add.totals x (off us up live_to x dead)
            ∙ det.totals x (off vs up_from live_from x dead),
      )
    where
      off :
          {c : ℕ} (ws : List ℕ)
          → Up s.branches c ws
          → live c ≡ true
          → (x : ℕ) → live x ≡ false
          → has x (c ∷ ws) ≡ false
      off {c} ws u lc x dead = elim (Bool-cases (has x (c ∷ ws))) [
        | inl m ↦ absurd (ground (arith, live_above x inv.lineage u lc m))
        | inr o ↦ o
      ]

  -- The records that io_branch_moved writes are of branches of the map.
  module _ {h : Branches} (new : IsMoved h s.branches b from to)
      (dead : (x : ℕ) → live x ≡ false → total h x ≡ total s.branches x) where
    lineage_moved : (x p : ℕ) → parent_of h x ≡ some p → live p ≡ live x
    lineage_moved x p e = elim (Bool-cases (b == x)) [
      | inl here ↦
          let it : to ≡ p = ground (arith, new.parents x) in
          sym (ap live it) ∙ (live_to ∙ (sym live_b ∙ ap live (eq_of_== b x here)))
      | inr other ↦ inv.lineage x p (ground (arith, new.parents x))
    ]

    kid_live : (p y : ℕ) → live p ≡ true → has y (kids h p) ≡ true → live y ≡ true
    kid_live p y lp m = sym (lineage_moved y p (parent-kid p y new.forest.shape m)) ∙ lp

    abbrev written : List ℕ
    written = written_moved h b to from (index_of b (kids s.branches from))

    written_live : (y : ℕ) → has y written ≡ true → live y ≡ true
    written_live y m =
        let k = index_of b (kids h to) + 1 in
        let old = index_of b (kids s.branches from) in
        ground (
          arith,
          has-append y (drop k (kids h to)) (drop old (kids h from)),
          has-drop y k (kids h to),
          has-drop y old (kids h from),
          kid_live to y live_to,
          kid_live from y live_from,
          live_eq live b y,
          live_eq live to y,
          live_eq live from y,
          live_from,
        )

    id_moved : (x : ℕ) → (h x).id ≡ (s.branches x).id
    id_moved x = ap (λ t. t.0) (new.frames x)

    findex_moved : (x : ℕ) → (h x).findex ≡ (s.branches x).findex
    findex_moved x = ap (λ t. t.1) (new.frames x)

    filed_moved :
        (x : ℕ) → live x ≡ true → (save_all h s.disk written).heads (offset h x) ≡ head_at h x
    filed_moved x lx =
        filed_all h s.disk live written inv.on
          (λ y ly. omega (arith, findex_moved y, inv.placed y ly, inv.limited))
          (λ y z ly lz e. inv.apart y z ly lz (sym (findex_moved y) ∙ (e ∙ findex_moved z)))
          written_live
          (λ y ly out.
            ap s.disk.heads (offset-same h s.branches y (findex_moved y))
            ∙ (inv.filed y ly ∙ sym (head_at-moved new y out)))
          x lx

    IsUnborn-moved : (x : ℕ) → s.next ≤ x → IsUnborn h x
    IsUnborn-moved x old =
        let blank = inv.unborn x old in
        let out = not_live inv x old in
        let not_b : (b == x) ≡ false = ground (arith, live_eq live b x) in
        let not_to : (to == x) ≡ false = ground (arith, live_eq live to x) in
        let not_from : (from == x) ≡ false = ground (arith, live_eq live from x, live_from) in
        record {
          alone = ground (arith, new.parents x, blank.alone);
          childless = ground (arith, new.arrays x, new.left_lem x, blank.childless);
          no_childs = ground (arith, new.sizes x not_from not_to, blank.no_childs);
          no_total = ground (arith, dead x out, blank.no_total);
        }

    moved-IsStored : IsStored (record s { branches = h; disk = save_all h s.disk written }) live
    moved-IsStored = record {
      forest = new.forest;
      in_use = inv.in_use;
      unborn = IsUnborn-moved;
      lineage = lineage_moved;
      sound = λ k x e. let old = inv.sound k x e in (old.0, id_moved x ∙ old.1);
      complete = λ x lx. ap (ix.find s.branch_index) (id_moved x) ∙ inv.complete x lx;
      placed = λ x lx. rw (findex_moved x) (inv.placed x lx);
      apart = λ y z ly lz e. inv.apart y z ly lz (sym (findex_moved y) ∙ (e ∙ findex_moved z));
      limited = inv.limited;
      on = test-save_all h s.disk written ∙ inv.on;
      filed = filed_moved;
    }

-- On a well-formed map, for a branch `b` of the map under `from` and a new parent `to` of the map
-- that is not `b` and not below it, with room under `to`: the end of move returns, and the map is
-- well formed again: links, totals, no cycle, the index, and the record of every branch in the
-- file. The parent of `b` is now `to`, and no other parent, id, text or place in the file changes.
pub relocate-IsStored :
    {T : Type 0} ⦃ix : Index T⦄ {s : Store T} {live : ℕ → Bool} (b from to branch_pos : ℕ)
    (us : List ℕ)
    → IsStored s live
    → live b ≡ true
    → live to ≡ true
    → parent_of s.branches b ≡ some from
    → Up s.branches to us
    → has b (to ∷ us) ≡ false
    → (if from == to then 0 else 1) + (s.branches to).child_n < u16_mod
    → (t : Store T) × (relocate s b from to branch_pos ≡ some t)
      × IsStored t live
      × ((x : ℕ) → parent_of t.branches x ≡ (if b == x then some to else parent_of s.branches x))
      × ((x : ℕ) → frame (t.branches x) ≡ frame (s.branches x))
unfolding relocate
relocate-IsStored {s} {live} b from to branch_pos us inv live_b live_to parent up apart room =
    let at = pos branch_pos in
    let (h1, h2, made1, made2, new, dead) =
      moved inv b from to at us live_b live_to parent up apart room in
    let place = branch_get_pos_lem b from inv.forest.shape parent in
    let short = to_u16-index_of b from inv.forest.shape parent in
    let old_pos = index_of b (kids s.branches from) in
    let new_parent : parent_of h2 b ≡ some to = ground (arith, new.parents b) in
    let io = io_branch_moved_lem s.disk b to from old_pos new.forest.shape new_parent in
    (
      record s { branches = h2; disk = save_all h2 s.disk (written_moved h2 b to from old_pos) },
      rw (place, made1, made2, short, io) refl,
      moved-IsStored inv b from to at us live_b live_to parent up apart room new dead,
      new.parents,
      new.frames,
    )
