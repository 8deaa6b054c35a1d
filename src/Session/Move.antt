-- ===== src/Session/Move.antt =====
-- move (src/map.c:437) with what it does for the views.
use treedb.Prelude.{
  ℕ, ◌+◌, Bool, true, false, Option, none, some, not, ◌||◌, ◌==◌, if◌then◌else◌, ◌>>=◌,
}
use treedb.Prelude.Int.{pos, negsuc}
use treedb.Codec.Hex.{id2hex64}
use treedb.Index.{Index}
use treedb.Branch.{parent_of, total, branch_get_pos}
use treedb.Store.{branch_index_get, relocate}
use treedb.View.{vbranch_add, vbranch_detach}
use treedb.Walk.{same_ptr, view_get_vbranch, view_expand_to}
use treedb.Message.{map_move}
use treedb.Map.{before_loop}
use treedb.Session.{
  MapState, world, put, push, up_fuel, view_hexid, send_insert, send_expanded, is_closed, climb_ep,
  send_count, count_above,
}
use treedb.Session.Insert.{add_vbranch, each_vbranch}

-- The vbranch of an endpoint that was found.
abbrev pub ep_vbranch : Option (ℕ × ℕ) → Option ℕ
ep_vbranch none = none
ep_vbranch (some (b, vb)) = some vb

module _ {T : Type 0} ⦃ix : Index T⦄ where
  -- vbranch_detach and vbranch_add: a vbranch goes below another.
  unfoldable pub shift : MapState T → ℕ → ℕ → Option (MapState T)
  unfolding vbranch_detach vbranch_add
  shift m vb vnpb =
      vbranch_detach (world m) vb >>= λ w. vbranch_add w vb vnpb >>= λ w1. some (put m w1)

  -- The message mapMove for the view of `vbr`, unless it is that of the client.
  unfoldable pub send_move : MapState T → Option ℕ → ℕ → ℕ → ℕ → ℕ → Option (MapState T)
  unfolding view_hexid
  send_move m view vbr npb b branch_pos =
      let of_view = (m.vbranches vbr).view in
      if same_ptr of_view view
      then some m
      else (view_hexid m of_view >>= λ v. some (
          push m (
            map_move v (id2hex64 (m.store.branches npb).id) (id2hex64 (m.store.branches b).id)
              (pos branch_pos) false)))

  -- Lines 565 to 633: the view shows the new place and not the old one.
  unfoldable pub appear : MapState T → ℕ → ℕ → ℕ → ℕ → ℕ → ℕ → Option (MapState T)
  unfolding count_above add_vbranch send_insert
  appear m vbr vnpb b opb new_parent_id branch_pos =
      count_above m (m.vbranches vbr).view opb (negsuc (total m.store.branches b)) >>= λ m1.
      add_vbranch m1 b vnpb >>= λ r. send_insert (r.0) (r.1) (id2hex64 new_parent_id) branch_pos

  -- Lines 635 to 695: the view shows the old place and not yet the new one.
  unfoldable pub follow : MapState T → Option ℕ → ℕ → ℕ → ℕ → ℕ → ℕ → Option (MapState T)
  unfolding send_expanded shift send_move
  follow m view vbr vb npb b branch_pos = (m.vbranches vbr).view >>= λ u.
      view_expand_to (up_fuel m) (world m) u npb true >>= λ r. elim (r.1) [
        | none ↦ some (put m (r.0))
        | some expanded ↦ send_expanded (put m (r.0)) expanded branch_pos >>= λ m1.
            view_get_vbranch (world m1) (m1.vbranches vbr).view npb >>= λ found.
            found >>= λ found_vb2.
            shift m1 vb found_vb2 >>= λ m2. send_move m2 view vbr npb b branch_pos
      ]

  -- The branch of a vbranch that may be NULL.
  abbrev pub branch_at : MapState T → Option ℕ → Option ℕ
  branch_at m vb = vb >>= λ x. (m.vbranches x).branch

  -- Lines 696 to 780: the view shows neither place, so it learns of other counts.
  unfoldable pub recount : MapState T → ℕ → ℕ → ℕ → ℕ → Option (MapState T)
  unfolding climb_ep send_count
  recount m vbr b opb npb =
      let of_view = (m.vbranches vbr).view in
      let n = total m.store.branches b in
      climb_ep (up_fuel m) m of_view opb >>= λ old. climb_ep (up_fuel m) m of_view npb >>= λ new.
      if same_ptr (ep_vbranch old) (ep_vbranch new)
      then some m
      else (send_count m of_view (branch_at m (ep_vbranch old)) (negsuc n) >>= λ m1.
          send_count m1 of_view (branch_at m1 (ep_vbranch new)) (pos (n + 1)))

  -- Is the new parent's vbranch there, and open? If so, it is the result.
  unfoldable pub open_at : MapState T → Option ℕ → Option (Option ℕ)
  unfolding is_closed
  open_at m none = some none
  open_at m (some vnpb) = is_closed m vnpb >>= λ closed. some (if closed then none else some vnpb)

  -- The four cases of the body, by the vbranch at the old place and the open one at the new place.
  unfoldable pub move_shown :
      MapState T → Option ℕ → ℕ → Option ℕ → Option ℕ → ℕ → ℕ → ℕ → ℕ → ℕ → Option (MapState T)
  unfolding shift send_move appear follow recount
  move_shown m view vbr (some vb) (some vnpb) b opb npb new_parent_id branch_pos =
      shift m vb vnpb >>= λ m1. send_move m1 view vbr npb b branch_pos
  move_shown m view vbr none (some vnpb) b opb npb new_parent_id branch_pos =
      if same_ptr (m.vbranches vbr).view view
      then some m
      else appear m vbr vnpb b opb new_parent_id branch_pos
  move_shown m view vbr (some vb) none b opb npb new_parent_id branch_pos =
      follow m view vbr vb npb b branch_pos
  move_shown m view vbr none none b opb npb new_parent_id branch_pos =
      if same_ptr (m.vbranches vbr).view view then some m else recount m vbr b opb npb

  -- The body of the loop of move over the root's vbranches.
  unfoldable pub move_one : Option ℕ → ℕ → ℕ → ℕ → ℕ → ℕ → ℕ → MapState T → Option (MapState T)
  unfolding move_shown open_at
  move_one view b opb npb new_parent_id branch_pos vbr m =
      let of_view = (m.vbranches vbr).view in
      view_get_vbranch (world m) of_view b >>= λ src.
      view_get_vbranch (world m) of_view npb >>= λ dest.
      open_at m dest >>= λ vnpb. move_shown m view vbr src vnpb b opb npb new_parent_id branch_pos

  -- Lines 474 to 494: the view of the client learns where the branch is.
  unfoldable pub refuse : MapState T → Option ℕ → ℕ → ℕ → Option (MapState T × Bool)
  refuse m none b opb = some (m, false)
  refuse m (some u) b opb = branch_get_pos m.store.branches b >>= λ at.
      view_hexid m (some u) >>= λ v. some (
        push m (
            map_move v (id2hex64 (m.store.branches opb).id) (id2hex64 (m.store.branches b).id) at
              true),
        false,
      )

  -- move for branches that were found, and the parent of the one to move.
  unfoldable pub move_found :
      MapState T → Option ℕ → ℕ → ℕ → ℕ → ℕ → ℕ → ℕ → Option (MapState T × Bool)
  unfolding refuse move_one
  move_found m view b opb npb new_parent_id old_parent_id branch_pos =
      before_loop (up_fuel m) m.store.branches b npb true >>= λ npb_before.
      if not ((m.store.branches opb).id == old_parent_id) || not npb_before
      then refuse m view b opb
      else (each_vbranch (move_one view b opb npb new_parent_id branch_pos) m.branch m >>= λ m1.
          relocate m1.store b opb npb branch_pos >>= λ s. some (record m1 { store = s }, true))

  unfoldable pub move_from :
      MapState T → Option ℕ → ℕ → Option ℕ → Option ℕ → ℕ → ℕ → ℕ → Option (MapState T × Bool)
  unfolding move_found
  move_from m view b none npb new_parent_id old_parent_id branch_pos = some (m, false)
  move_from m view b (some opb) none new_parent_id old_parent_id branch_pos = some (m, false)
  move_from m view b (some opb) (some npb) new_parent_id old_parent_id branch_pos =
      move_found m view b opb npb new_parent_id old_parent_id branch_pos

  -- The flag is the value that move returns.
  unfoldable pub move : MapState T → Option ℕ → ℕ → ℕ → ℕ → ℕ → Option (MapState T × Bool)
  unfolding move_from
  move m view new_parent_id old_parent_id branch_id branch_pos =
      elim (branch_index_get m.store branch_id) [
        | none ↦ some (m, false)
        | some b ↦
            move_from m view b (parent_of m.store.branches b)
              (branch_index_get m.store new_parent_id) new_parent_id old_parent_id branch_pos
      ]
