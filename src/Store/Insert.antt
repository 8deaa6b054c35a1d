-- ===== src/Store/Insert.antt =====
-- insert (src/map.c:171) outside the views: the whole change, from the allocation to the files.
use treedb.Prelude.{
  ℕ, ◌+◌, ◌<◌, ◌≡◌, has-drop, refl, ap, sym, ◌∙◌, inl, inr, Bool, true, false, none, some, List, [],
  ◌∷◌, ◌++◌, arith, ◌==◌, Bool-cases, has, eq_of_==, insert_at,
}
use treedb.Prelude.Int.{ℤ}
use treedb.Codec.Utf8.{utf8slice}
use treedb.Index.{Index}
use treedb.Branch.{Text, Branch, Branches, elems, kids, u16_mod, clamp_pos, branch_add}
use treedb.Branch.Add.{IsAdded}
use treedb.Branch.Arrays.{index_of}
use treedb.Branch.Forest.{parent-kid, IsForest}
use treedb.Io.{Disk, offset, io_save_branch_data, io_branch_new}
use treedb.Io.Heads.{head_at, head_at-same, save_all, test-save_all}
use treedb.Io.Writes.{written_new, io_branch_new_lem}
use treedb.Store.{Store, to_int, fuel_of, allocate, plant}
use treedb.Store.Invariant.{IsStored, record_limit, offset-same, filed_all}
use treedb.Store.Plant.{with_new, old_cell, live_old, branch_add-allocate, head_at-new}
use treedb.Store.Planted.{
  findex_old, text_new, id_new, lineage_new, placed_new, apart_new, parent_new, IsUnborn-new,
  sound_new, complete_new,
}

io_save_branch_data_lem :
    (h : Branches) (d : Disk) (b : ℕ) (t : Text)
    → (h b).content.text ≡ some t
    → io_save_branch_data h d b
      ≡ some (record d {
        rows =
            d.rows ++ record { rowid = (h b).id; note_id = (h b).content.note_id; text = t } ∷ [];
      })
unfolding io_save_branch_data
io_save_branch_data_lem h d b t e = ground arith

module _ {T : Type 0} ⦃ix : Index T⦄ {s : Store T} {live : ℕ → Bool} (inv : IsStored s live)
    (id : ℕ) (text : Text) (mark document : ℕ) {h : Branches} {pb : ℕ} {at : ℤ} {us : List ℕ}
    (f : IsForest h) (added : IsAdded h (allocate s id text mark document).branches s.next pb at us)
    (here : live pb ≡ true) (chain : (x : ℕ) → has x (pb ∷ us) ≡ true → live x ≡ true) where
  -- What io_branch_new writes are records of branches of the map.
  written_live : (y : ℕ) → has y (written_new h s.next pb) ≡ true → with_new live s.next y ≡ true
  written_live y m = elim (Bool-cases (pb == y)) [
    | inl e ↦ ground (arith, ap live (eq_of_== pb y e))
    | inr other ↦
        let k = index_of s.next (kids h pb) in
        elim (Bool-cases (s.next == y)) [
          | inl e ↦ ground arith
          | inr old ↦
              let kid = has-drop y k (kids h pb) (ground arith) in
              sym (
                (lineage_new inv id text mark document f added here chain) y pb
                  (parent-kid pb y f.shape kid))
              ∙ ground arith
        ]
  ]

  filed_new :
      (x : ℕ)
      → s.branch_n < record_limit
      → with_new live s.next x ≡ true
      → (save_all h s.disk (written_new h s.next pb)).heads (offset h x) ≡ head_at h x
  filed_new x room m =
      filed_all h s.disk (with_new live s.next) (written_new h s.next pb) inv.on
        (λ y my. omega (arith, (placed_new inv id text mark document f added here chain) y my))
        (apart_new inv id text mark document f added here chain) written_live
        (λ y my out. untouched y (old_live y my out) out) x m
    where
      old_live :
          (y : ℕ)
          → with_new live s.next y ≡ true
          → has y (written_new h s.next pb) ≡ false
          → live y ≡ true
      old_live y my out = ground arith

      untouched :
          (y : ℕ)
          → live y ≡ true
          → has y (written_new h s.next pb) ≡ false
          → s.disk.heads (offset h y) ≡ head_at h y
      untouched y ly out =
          let same_cell = λ (z : ℕ) (lz : live z ≡ true).
            old_cell inv id text mark document z (live_old inv id text mark document z lz) in
          let cell = same_cell y ly in
          let record_old : head_at ((allocate s id text mark document).branches) y
              ≡ head_at s.branches y =
            head_at-same ((allocate s id text mark document).branches) s.branches y
              (ap (λ (c : Branch). c.id) cell) (ap (λ (c : Branch). c.child_n) cell)
              (ap (λ (c : Branch). c.parent) cell)
              (λ q e.
                let cell_q = same_cell q (inv.lineage y q e ∙ ly) in
                (
                  ap (λ (c : Branch). c.id) cell_q,
                  ap (λ (c : Branch). index_of y (elems c.child_list)) cell_q,
                )) in
          ap s.disk.heads (
            offset-same h s.branches y
              ((findex_old inv id text mark document f added here chain) y ly))
          ∙ (inv.filed y ly ∙ sym (head_at-new s.next pb at us y f.shape added out ∙ record_old))

  -- The state that plant leaves.
  abbrev planted : Store T
  planted = record (allocate s id text mark document) {
    branches = h;
    branch_index = ix.replace (allocate s id text mark document).branch_index (h s.next).id s.next;
    disk = record (save_all h s.disk (written_new h s.next pb)) {
      rows =
          (save_all h s.disk (written_new h s.next pb)).rows
          ++ record {
            rowid = (h s.next).id;
            note_id = (h s.next).content.note_id;
            text = utf8slice text 5000;
          }
            ∷ [];
    };
  }

  planted-IsStored :
      s.branch_n < record_limit
      → ix.find s.branch_index id ≡ none
      → IsStored planted (with_new live s.next)
  unfolding allocate
  planted-IsStored room unused = record {
    forest = f;
    in_use = λ x m. ground (arith, inv.in_use x);
    unborn = (IsUnborn-new inv id text mark document f added here chain);
    lineage = (lineage_new inv id text mark document f added here chain);
    sound = (sound_new inv id text mark document f added here chain);
    complete = (complete_new inv id text mark document f added here chain) unused;
    placed = λ b m. omega (arith, (placed_new inv id text mark document f added here chain) b m);
    apart = (apart_new inv id text mark document f added here chain);
    limited = omega arith;
    on = test-save_all h s.disk (written_new h s.next pb) ∙ inv.on;
    filed = λ b m. filed_new b room m;
  }

plant_lem :
    {T : Type 0} ⦃ix : Index T⦄ (s : Store T) (new_b pb branch_pos : ℕ) {h : Branches} {d : Disk}
    → branch_add (fuel_of s) s.branches new_b pb (to_int branch_pos) ≡ some h
    → io_branch_new h s.disk new_b ≡ some d
    → plant s new_b pb branch_pos
      ≡ some (record s {
        branches = h;
        branch_index = ix.replace s.branch_index (h new_b).id new_b;
        disk = d;
      })
unfolding plant
plant_lem s new_b pb branch_pos made io = rw (made, io) refl

-- On a well-formed map, for a parent `pb` of the map with room for a child, an id that no branch
-- has, and a file below its limit: the new branch is allocated and planted, and the map with the
-- new address is well formed: links, totals, no cycle, the index, and the record of every branch
-- in the file. The branch stands at the clamped place under `pb`, its text is the given text cut
-- to 5000 characters, and the index finds it.
pub plant-IsStored :
    {T : Type 0} ⦃ix : Index T⦄ {s : Store T} {live : ℕ → Bool} (id : ℕ) (text : Text)
    (mark document pb branch_pos : ℕ)
    → IsStored s live
    → live pb ≡ true
    → (s.branches pb).child_n + 1 < u16_mod
    → s.branch_n < record_limit
    → ix.find s.branch_index id ≡ none
    → (t : Store T) × (plant (allocate s id text mark document) s.next pb branch_pos ≡ some t)
      × IsStored t (with_new live s.next)
      × (kids t.branches pb
          ≡ insert_at
              (clamp_pos (to_int branch_pos) (s.branches pb).child_n)
              s.next
              (kids s.branches pb))
      × ((t.branches s.next).content.text ≡ some (utf8slice text 5000))
      × (ix.find t.branch_index id ≡ some s.next)
unfolding allocate
plant-IsStored ⦃ix⦄ {s} {live} id text mark document pb branch_pos inv here room low unused =
    let s0 = allocate s id text mark document in
    let (h, us, made, f, added, chain) =
      branch_add-allocate inv id text mark document pb branch_pos here room in
    let parent = parent_new inv id text mark document f added here chain in
    let words = text_new inv id text mark document f added here chain in
    let cell = old_cell inv id text mark document pb (live_old inv id text mark document pb here) in
    let io = io_branch_new_lem s.disk s.next pb f.shape parent in
    let row =
      io_save_branch_data_lem h (save_all h s.disk (written_new h s.next pb)) s.next
        (utf8slice text 5000) words in
    (
      planted inv id text mark document f added here chain,
      plant_lem s0 s.next pb branch_pos made (io ∙ row),
      planted-IsStored inv id text mark document f added here chain low unused,
      ground (
        arith,
        added.arrays pb,
        ap (λ (c : Branch). elems c.child_list) cell,
        ap (λ (c : Branch). c.child_n) cell,
      ),
      words,
      ground (
        arith,
        ix.find-replace s.branch_index (h s.next).id s.next id,
        id_new inv id text mark document f added here chain,
      ),
    )
