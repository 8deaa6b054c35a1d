-- ===== src/Session/Delete.antt =====
-- delete (src/map.c:794) with what it does for the views.
use treedb.Prelude.{
  ℕ, zero, suc, ◌+◌, true, false, Option, none, some, ◌==◌, ltb, if◌then◌else◌, ◌>>=◌, get_elem?,
}
use treedb.Prelude.Int.{negsuc}
use treedb.Codec.Hex.{id2hex64, id2hex32}
use treedb.Index.{Index}
use treedb.Branch.{parent_of, kids, total}
use treedb.Store.{branch_index_get, prune}
use treedb.View.{vbranch_detach}
use treedb.Walk.{same_ptr, view_get_vbranch}
use treedb.Message.{map_delete, map_remove_mark}
use treedb.Session.{MapState, world, put, push, up_fuel, view_hexid, climb_ep, send_count}
use treedb.Session.Insert.{each_vbranch}
use treedb.Session.Move.{ep_vbranch, branch_at, move}

module _ {T : Type 0} ⦃ix : Index T⦄ where
  -- The loop over the childs, from place `i` on: each goes below the root, and the list that is read
  -- in the next round has lost it. `left` rounds may come.
  unfoldable pub move_childs : ℕ → ℕ → ℕ → MapState T → Option (MapState T)
  unfolding move
  move_childs zero i b m = none
  move_childs (suc left) i b m = elim (ltb i (m.store.branches b).child_n) [
    | false ↦ some m
    | true ↦ get_elem? (kids m.store.branches b) i >>= λ child.
        parent_of m.store.branches child >>= λ p.
        move m none (m.store.branches m.branch).id (m.store.branches p).id
          (m.store.branches child).id 9999
        >>= λ r. move_childs left (i + 1) b (r.0)
  ]

  -- The view showed the branch as `vb`.
  unfoldable pub vanish : MapState T → Option ℕ → ℕ → ℕ → Option (MapState T)
  unfolding vbranch_detach view_hexid
  vanish m view b vb = vbranch_detach (world m) vb >>= λ w.
      let m1 = put m w in
      let of_view = (m1.vbranches vb).view in
      if same_ptr of_view view
      then some m1
      else (view_hexid m1 of_view >>= λ v.
          some (push m1 (map_delete v (id2hex64 (m1.store.branches b).id))))

  -- The view did not show the branch, so it learns of another count.
  unfoldable pub uncount : MapState T → Option ℕ → ℕ → ℕ → Option (MapState T)
  unfolding climb_ep send_count
  uncount m of_view b parent = climb_ep (up_fuel m) m of_view parent >>= λ found. elim found [
    | none ↦ some m
    | some ep ↦
        send_count m of_view (branch_at m (ep_vbranch (some ep)))
          (negsuc (total m.store.branches b))
  ]

  -- The body of the loop of delete over the root's vbranches.
  unfoldable pub delete_one : Option ℕ → ℕ → ℕ → ℕ → MapState T → Option (MapState T)
  unfolding vanish uncount
  delete_one view b parent vbr m =
      let of_view = (m.vbranches vbr).view in
      view_get_vbranch (world m) of_view b >>= λ found. elim found [
        | some vb ↦ vanish m view b vb
        | none ↦ if same_ptr of_view view then some m else uncount m of_view b parent
      ]

  -- The message mapRemoveMark, for a branch with a note.
  unfoldable pub send_unmark : MapState T → ℕ → MapState T
  send_unmark m b =
      let c = m.store.branches b in
      if c.content.note_id == 0
      then m
      else push m (map_remove_mark (id2hex32 m.id) (id2hex64 c.content.note_id) (id2hex64 c.id))

  -- delete for a branch that was found and its parent.
  unfoldable pub delete_found : MapState T → Option ℕ → ℕ → ℕ → Option (MapState T)
  unfolding move_childs delete_one send_unmark
  delete_found m view b parent = move_childs ((m.store.branches b).child_n + 1) 0 b m >>= λ m1.
      each_vbranch (delete_one view b parent) m1.branch m1 >>= λ m2.
      let m3 = send_unmark m2 b in prune m3.store b >>= λ s. some (record m3 { store = s })

  -- It returns 0 always.
  unfoldable pub delete : MapState T → Option ℕ → ℕ → Option (MapState T)
  unfolding delete_found
  delete m view branch_id = elim (branch_index_get m.store branch_id) [
    | none ↦ some m
    | some b ↦ elim (parent_of m.store.branches b) [
      | none ↦ some m
      | some parent ↦ delete_found m view b parent
    ]
  ]
