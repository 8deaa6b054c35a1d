-- ===== src/Session/BareInsert.antt =====
-- insert (src/map.c:117) where no view shows the map: it is then the change of the tree, with the
-- same checks.
use treedb.Prelude.{
  ℕ, ◌+◌, ◌<◌, ◌≡◌, refl, ap, sym, ◌∙◌, inl, inr, Bool, true, Option, none, some, Option-cases,
}
use treedb.Index.{Index}
use treedb.Branch.{Text, Branch, u16_mod}
use treedb.Io.{io_branch_new}
use treedb.Store.{Store, branch_index_get, branch_index_put, allocate, plant}
use treedb.Store.Invariant.{IsStored, record_limit}
use treedb.Store.Plant.{old_cell, live_old, branch_add-allocate}
use treedb.Map as Map
use treedb.Map.Requests.{IsInsertOf, insert-IsInsertOf}
use treedb.Session.{MapState}
use treedb.Session.Bare.{lift, no_views}
use treedb.Session.Insert.{expand_parent, spread_one, count_one, insert_below, insert}

module _ {T : Type 0} ⦃ix : Index T⦄ where
  -- How many vbranches a branch has in the tree that plant left.
  abbrev shown_in : ℕ → Option (Store T) → ℕ
  shown_in x none = 0
  shown_in x (some t) = (t.branches x).content.vbranch_n

  -- The change of the tree adds no vbranch to a branch of the map that has none.
  plant_shown :
      {s : Store T} {live : ℕ → Bool} (inv : IsStored s live) (id : ℕ) (text : Text)
      (mark document pb branch_pos x : ℕ)
      → live pb ≡ true
      → (s.branches pb).child_n + 1 < u16_mod
      → live x ≡ true
      → (s.branches x).content.vbranch_n ≡ 0
      → shown_in x (plant (allocate s id text mark document) s.next pb branch_pos) ≡ 0
  unfolding plant branch_index_put
  plant_shown {s = s} inv id text mark document pb branch_pos x here room lx bare =
      let (h, us, made, f, added, chain) =
        branch_add-allocate inv id text mark document pb branch_pos here room in
      let s0 = allocate s id text mark document in
      let kept : (h x).content.vbranch_n ≡ 0 =
        ap (λ t. t.5) (added.frames x)
        ∙ (ap (λ (c : Branch). c.content.vbranch_n)
              (old_cell inv id text mark document x (live_old inv id text mark document x lx))
            ∙ bare) in
      elim (Option-cases (io_branch_new h s0.disk s.next)) [
        | inl lost ↦ rw made (rw lost refl)
        | inr (d, saved) ↦ rw made (rw saved kept)
      ]

  insert_below-bare :
      (m : MapState T) {live : ℕ → Bool} (inv : IsStored m.store live)
      (pb parent_id id branch_pos : ℕ) (text : Text) (mark document : ℕ)
      → live pb ≡ true
      → (m.store.branches pb).child_n + 1 < u16_mod
      → (m.store.branches pb).content.vbranch_n ≡ 0
      → live m.branch ≡ true
      → (m.store.branches m.branch).content.vbranch_n ≡ 0
      → insert_below m none pb parent_id id branch_pos text mark document
        ≡ lift m (Map.insert_to m.store none (some pb) id branch_pos text mark document)
  unfolding insert_below expand_parent Map.insert_to
  insert_below-bare m {live = live} inv pb parent_id id branch_pos text mark document here room bare
        lr empty =
      let s0 = allocate m.store id text mark document in
      elim (Option-cases (plant s0 m.store.next pb branch_pos)) [
        | inl lost ↦ rw (insert_below, expand_parent, Map.insert_to, lost) refl
        | inr (t, made) ↦
            let m1 : MapState T = record m { store = t } in
            let shown =
              λ (x : ℕ) (lx : live x ≡ true) (none_at : (m.store.branches x).content.vbranch_n ≡ 0).
                ap (shown_in x) (sym made)
                ∙ plant_shown inv id text mark document pb branch_pos x here room lx none_at in
            let spread =
              no_views (spread_one none m.store.next parent_id branch_pos) pb m1
                (shown pb here bare) in
            let count = no_views (count_one none pb) m.branch m1 (shown m.branch lr empty) in
            rw (insert_below, expand_parent, Map.insert_to, made) (rw spread (rw count refl))
      ]

  -- On a well-formed map whose root is in no view, and for a request that comes from no view: for any
  -- ids, text and place, if the file is below its limit and the parent, where the index finds one, has
  -- room for a child and is in no view, insert with all that it does for the views returns what the
  -- change of the tree returns. The map keeps everything but the tree, its index and its files, so
  -- that no message goes out, and the tree is well formed, with the new branch if one is returned.
  pub insert-IsInsertOf_bare :
      (m : MapState T) {live : ℕ → Bool} (inv : IsStored m.store live) (parent_id id branch_pos : ℕ)
      (text : Text) (mark document : ℕ)
      → live m.branch ≡ true
      → (m.store.branches m.branch).content.vbranch_n ≡ 0
      → m.store.branch_n < record_limit
      → ((pb : ℕ)
          → ix.find m.store.branch_index parent_id ≡ some pb
          → ((m.store.branches pb).child_n + 1 < u16_mod)
            × ((m.store.branches pb).content.vbranch_n ≡ 0))
      → (t : Store T) × (o : Option ℕ) × (Map.insert m.store parent_id id branch_pos text mark
            document
          ≡ some (t, o))
        × (insert m none parent_id id branch_pos text mark document
            ≡ some (record m { store = t }, o))
        × IsInsertOf inv t o parent_id id
  unfolding insert Map.insert Map.insert_to branch_index_get
  insert-IsInsertOf_bare m inv parent_id id branch_pos text mark document lr empty low bare =
      let (t, o, made, is) =
        insert-IsInsertOf inv parent_id id branch_pos text mark document low
          (λ pb e. (bare pb e).0) in
      let lifted : insert m none parent_id id branch_pos text mark document
          ≡ lift m (Map.insert m.store parent_id id branch_pos text mark document) =
        elim (Option-cases (ix.find m.store.branch_index id)) [
          | inr (nb, taken) ↦ rw (insert, Map.insert, taken) refl
          | inl free ↦ elim (Option-cases (ix.find m.store.branch_index parent_id)) [
            | inl missing ↦ rw (insert, Map.insert, free) (rw missing refl)
            | inr (pb, target) ↦
                rw (insert, Map.insert, free)
                  (rw target (
                    insert_below-bare m inv pb parent_id id branch_pos text mark document
                      (inv.sound parent_id pb target).0 (bare pb target).0 (bare pb target).1 lr
                      empty))
          ]
        ] in
      (t, o, made, lifted ∙ ap (lift m) made, is)
