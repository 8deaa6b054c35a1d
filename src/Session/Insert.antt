-- ===== src/Session/Insert.antt =====
-- insert (src/map.c:117) with what it does for the views.
use treedb.Prelude.{ℕ, true, Option, none, some, not, ◌&&◌, ◌==◌, if◌then◌else◌, ◌>>=◌}
use treedb.Prelude.Int.{pos}
use treedb.Codec.Hex.{id2hex64}
use treedb.Index.{Index}
use treedb.Branch.{Text, parent_of}
use treedb.Store.{branch_index_get, allocate, plant}
use treedb.View.{new_child, vbranch_add}
use treedb.Walk.{same_ptr, each, view_get_vbranch, view_expand_to}
use treedb.Session.{
  MapState, world, put, up_fuel, send_insert, send_expanded, is_closed, count_above,
}

module _ {T : Type 0} ⦃ix : Index T⦄ where
  -- Lines 131 to 169: the view of the client is expanded down to the parent.
  unfoldable pub expand_parent : MapState T → Option ℕ → ℕ → ℕ → Option (MapState T)
  expand_parent m none pb branch_pos = some m
  expand_parent m (some view) pb branch_pos = view_get_vbranch (world m) (some view) pb >>= λ found.
      elim found [
        | some pvb ↦ some m
        | none ↦ view_expand_to (up_fuel m) (world m) view pb true >>= λ r. elim (r.1) [
          | none ↦ some (put m (r.0))
          | some expanded ↦ send_expanded (put m (r.0)) expanded branch_pos
        ]
      ]

  -- A new vbranch of `b` below `pvb`, among the childs of that by the place of `b`.
  unfoldable pub add_vbranch : MapState T → ℕ → ℕ → Option (MapState T × ℕ)
  unfolding new_child vbranch_add
  add_vbranch m b pvb = new_child (world m) b (some pvb) (m.vbranches pvb).view >>= λ r.
      vbranch_add (r.0) (r.1) pvb >>= λ w. some (put m w, r.1)

  -- The body of the loop of insert over the vbranches of the parent.
  unfoldable pub spread_one : Option ℕ → ℕ → ℕ → ℕ → ℕ → MapState T → Option (MapState T)
  unfolding add_vbranch
  spread_one view new_b parent_branch_id branch_pos pvb m =
      let own = same_ptr (m.vbranches pvb).view view in
      if not own && ((m.vbranches pvb).child_n == 0)
      then some m
      else (add_vbranch m new_b pvb >>= λ r.
          if own
          then some (r.0)
          else send_insert (r.0) (r.1) (id2hex64 parent_branch_id) branch_pos)

  -- The body of the loop of insert over the root's vbranches: views that do not show the parent's
  -- childs learn that there is one more branch.
  unfoldable pub count_one : Option ℕ → ℕ → ℕ → MapState T → Option (MapState T)
  count_one view pb vbr m =
      let of_view = (m.vbranches vbr).view in
      if same_ptr of_view view
      then some m
      else (view_get_vbranch (world m) of_view pb >>= λ found. elim found [
        | none ↦ elim (parent_of m.store.branches pb) [
          | none ↦ none
          | some p ↦ count_above m of_view p (pos 1)
        ]
        | some vb ↦
            is_closed m vb >>= λ closed. if closed then count_above m of_view pb (pos 1) else some m
      ])

  -- The loop over the vbranches of a branch, whose list the body leaves alone.
  unfoldable pub each_vbranch :
      (ℕ → MapState T → Option (MapState T)) → ℕ → MapState T → Option (MapState T)
  unfolding each
  each_vbranch f b m = let c = (m.store.branches b).content in each f c.vbranch_n c.vbranch_list m

  -- insert for an id that is free and a parent that was found; the new branch is the result.
  unfoldable pub insert_below :
      MapState T → Option ℕ → ℕ → ℕ → ℕ → ℕ → Text → ℕ → ℕ → Option (MapState T × Option ℕ)
  unfolding expand_parent each_vbranch spread_one count_one
  insert_below m view pb parent_branch_id branch_id branch_pos branch_text mark document =
      expand_parent m view pb branch_pos >>= λ m1.
      let new_b = m1.store.next in
      plant (allocate m1.store branch_id branch_text mark document) new_b pb branch_pos >>= λ s.
      each_vbranch (spread_one view new_b parent_branch_id branch_pos) pb (record m1 { store = s })
      >>= λ m2. each_vbranch (count_one view pb) m2.branch m2 >>= λ m3. some (m3, some new_b)

  unfoldable pub insert :
      MapState T → Option ℕ → ℕ → ℕ → ℕ → Text → ℕ → ℕ → Option (MapState T × Option ℕ)
  unfolding insert_below
  insert m view parent_branch_id branch_id branch_pos branch_text mark document =
      elim (branch_index_get m.store branch_id) [
        | some nb ↦ some (m, none)
        | none ↦ elim (branch_index_get m.store parent_branch_id) [
          | none ↦ some (m, none)
          | some pb ↦
              insert_below m view pb parent_branch_id branch_id branch_pos branch_text mark document
        ]
      ]
