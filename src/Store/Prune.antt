-- ===== src/Store/Prune.antt =====
-- delete (src/map.c:916) outside the views: a deleted branch without childs leaves a well-formed
-- map.
use treedb.Prelude.{
  ℕ, ◌%◌, ◌^◌, ◌≤◌, ◌≡◌, refl, ap, sym, ◌∙◌, inl, inr, Bool, true, false, none, some, List, [],
  arith, ◌==◌, Bool-cases, eq_of_==,
}
use treedb.Index.{Index}
use treedb.Branch.{Branches, parent_of, kids}
use treedb.Branch.Detach.{IsDetached, branch_detach-IsForest}
use treedb.Branch.Arrays.{index_of}
use treedb.Branch.Chain.{Up}
use treedb.Branch.Forest.{IsForest}
use treedb.Io.{Bhead, offset}
use treedb.Io.Heads.{head_at, save_all, test-save_all, branch_get_pos_lem}
use treedb.Io.Writes.{io_branch_deleted_lem, to_u16-index_of}
use treedb.Store.{Store, fuel_of, prune}
use treedb.Store.Invariant.{IsStored, offset-same, filed_all, length-Up_le}
use treedb.Store.Cleared.{
  without, cleared, IsForest-cleared, lineage_cleared, id_cleared, findex_cleared, written,
  written_live, head_at-cleared, IsUnborn-cleared,
}

module _ {T : Type 0} ⦃ix : Index T⦄ {s : Store T} {live : ℕ → Bool} (inv : IsStored s live)
    (b from : ℕ) (us : List ℕ) (live_b : live b ≡ true)
    (parent : parent_of s.branches b ≡ some from) (leaf : kids s.branches b ≡ []) {h : Branches}
    (f : IsForest h) (new : IsDetached h s.branches b from us) (up : Up s.branches from us) where
  sound_cleared :
      (k x : ℕ)
      → ix.find (ix.delete s.branch_index (h b).id) k ≡ some x
      → (without live b x ≡ true) × (((cleared inv b from us live_b parent leaf f new up) x).id ≡ k)
  sound_cleared k x e =
      let look = ix.find-delete s.branch_index (h b).id k in
      let id_b : (h b).id ≡ (s.branches b).id = ap (λ t. t.0) (new.frames b) in
      let kept : ix.find s.branch_index k ≡ some x = ground arith in
      let old = inv.sound k x kept in
      let other : (b == x) ≡ false = elim (Bool-cases (b == x)) [
        | inr o ↦ o
        | inl it ↦ absurd (ground (arith, ap (λ y. (s.branches y).id) (eq_of_== b x it)))
      ] in
      (ground arith, ground (arith, (id_cleared inv b from us live_b parent leaf f new up) x))

  complete_cleared :
      (x : ℕ)
      → without live b x ≡ true
      → ix.find
          (ix.delete s.branch_index (h b).id)
          ((cleared inv b from us live_b parent leaf f new up) x).id
        ≡ some x
  complete_cleared x m =
      let look =
        ix.find-delete s.branch_index (h b).id
          ((cleared inv b from us live_b parent leaf f new up) x).id in
      let id_b : (h b).id ≡ (s.branches b).id = ap (λ t. t.0) (new.frames b) in
      let found_x = inv.complete x (ground arith) in
      let found_b = inv.complete b live_b in
      let same : ((cleared inv b from us live_b parent leaf f new up) x).id ≡ (s.branches x).id =
        ground (arith, (id_cleared inv b from us live_b parent leaf f new up) x) in
      elim (Bool-cases ((h b).id == ((cleared inv b from us live_b parent leaf f new up) x).id)) [
        | inr other ↦ ground arith
        | inl clash ↦
            let e : (h b).id ≡ ((cleared inv b from us live_b parent leaf f new up) x).id =
              eq_of_== _ _ clash in
            absurd (ground (arith, ap (ix.find s.branch_index) (sym id_b ∙ (e ∙ same))))
      ]

  abbrev pruned : ℕ → Store T
  pruned n = record s {
    branches = (cleared inv b from us live_b parent leaf f new up);
    branch_index = ix.delete s.branch_index (h b).id;
    disk =
        save_all (cleared inv b from us live_b parent leaf f new up) s.disk
          ((written inv b from us live_b parent leaf f new up) n);
  }

  filed_cleared :
      (n x : ℕ)
      → n ≤ index_of b (kids s.branches from)
      → live x ≡ true
      → (save_all
            (cleared inv b from us live_b parent leaf f new up)
            s.disk
            ((written inv b from us live_b parent leaf f new up) n)).heads
          (offset (cleared inv b from us live_b parent leaf f new up) x)
        ≡ head_at (cleared inv b from us live_b parent leaf f new up) x
  filed_cleared n x low lx =
      filed_all (cleared inv b from us live_b parent leaf f new up) s.disk live
        ((written inv b from us live_b parent leaf f new up) n) inv.on
        (λ y ly. omega (
          arith,
          (findex_cleared inv b from us live_b parent leaf f new up) y,
          inv.placed y ly,
          inv.limited,
        ))
        (λ y z ly lz e. inv.apart y z ly lz (
          sym ((findex_cleared inv b from us live_b parent leaf f new up) y)
          ∙ (e ∙ (findex_cleared inv b from us live_b parent leaf f new up) z)))
        ((written_live inv b from us live_b parent leaf f new up) n)
        (λ y ly out.
          ap s.disk.heads (
            offset-same (cleared inv b from us live_b parent leaf f new up) s.branches y
              ((findex_cleared inv b from us live_b parent leaf f new up) y))
          ∙ (inv.filed y ly
              ∙ sym ((head_at-cleared inv b from us live_b parent leaf f new up) n y low ly out)))
        x lx

  pruned-IsStored :
      (n : ℕ) → n ≤ index_of b (kids s.branches from) → IsStored (pruned n) (without live b)
  pruned-IsStored n low = record {
    forest = (IsForest-cleared inv b from us live_b parent leaf f new up);
    in_use = λ x m. inv.in_use x (ground arith);
    unborn = (IsUnborn-cleared inv b from us live_b parent leaf f new up);
    lineage = λ x p e.
        let (same, not_x, not_p) =
          (lineage_cleared inv b from us live_b parent leaf f new up) x p e in
        ground arith;
    sound = sound_cleared;
    complete = complete_cleared;
    placed = λ x m.
        rw ((findex_cleared inv b from us live_b parent leaf f new up) x)
          (inv.placed x (ground arith));
    apart = λ y z my mz e. inv.apart y z (ground arith) (ground arith) (
        sym ((findex_cleared inv b from us live_b parent leaf f new up) y)
        ∙ (e ∙ (findex_cleared inv b from us live_b parent leaf f new up) z));
    limited = inv.limited;
    on =
        test-save_all (cleared inv b from us live_b parent leaf f new up) s.disk
          ((written inv b from us live_b parent leaf f new up) n)
        ∙ inv.on;
    filed = λ x m. filed_cleared n x low (ground arith);
  }

  zero_id :
      (n : ℕ)
      → n ≤ index_of b (kids s.branches from)
      → ((pruned n).disk.heads (offset s.branches b)).id ≡ 0
  zero_id n low =
      let there = ap (pruned n).disk.heads (
        offset-same (cleared inv b from us live_b parent leaf f new up) s.branches b
          ((findex_cleared inv b from us live_b parent leaf f new up) b)) in
      ap (λ (r : Bhead). r.id) (sym there ∙ filed_cleared n b low live_b)
      ∙ ground (arith, (id_cleared inv b from us live_b parent leaf f new up) b)

-- On a well-formed map, for a branch of the map that has a parent and no childs: the end of delete
-- returns, and the map without the branch is well formed: links, totals, no cycle, the index, and
-- the record of every branch that is left in the file. The index no longer finds the branch's id,
-- and the branch's record in the file holds the id 0, by which io_load_map skips it.
pub prune-IsStored :
    {T : Type 0} ⦃ix : Index T⦄ {s : Store T} {live : ℕ → Bool} (b from : ℕ)
    → IsStored s live
    → live b ≡ true
    → parent_of s.branches b ≡ some from
    → kids s.branches b ≡ []
    → (t : Store T) × (prune s b ≡ some t)
      × IsStored t (without live b)
      × (ix.find t.branch_index (s.branches b).id ≡ none)
      × ((t.disk.heads (offset s.branches b)).id ≡ 0)
unfolding prune
prune-IsStored ⦃ix⦄ {s} {live} b from inv live_b parent leaf =
    let (us, up) = inv.forest.shape.chains from in
    let live_above_b = inv.lineage b from parent ∙ live_b in
    let (h, made, f, new) =
      branch_detach-IsForest (fuel_of s) b from us inv.forest parent up
        (omega (arith, length-Up_le inv live_above_b up)) in
    let place = branch_get_pos_lem b from inv.forest.shape parent in
    let short = to_u16-index_of b from inv.forest.shape parent in
    let old_pos = index_of b (kids s.branches from) in
    let n = old_pos % 2 ^ 8 in
    let low : n ≤ old_pos = omega arith in
    let shape = (IsForest-cleared inv b from us live_b parent leaf f new up).shape in
    let io = io_branch_deleted_lem s.disk b from n shape in
    let key : (h b).id ≡ (s.branches b).id = ap (λ t. t.0) (new.frames b) in
    (
      pruned inv b from us live_b parent leaf f new up n,
      rw (parent, prune) (rw (place, made, short, io) refl),
      pruned-IsStored inv b from us live_b parent leaf f new up n low,
      ground (arith, ix.find-delete s.branch_index (h b).id (s.branches b).id),
      zero_id inv b from us live_b parent leaf f new up n low,
    )
