-- ===== src/Session/Show.antt =====
-- map_visible, map_invisible, map_expand_to and map_branch_unfold (src/map.c:1166): what a client
-- sees of the map. The view is there, as map_proc has checked.
use treedb.Prelude.{
  ℕ, zero, suc, Bool, true, false, Option, none, some, List, [], ◌∷◌, ◌==◌, if◌then◌else◌, ◌>>=◌,
}
use treedb.Index.{Index}
use treedb.Branch.{update}
use treedb.Store.{branch_index_get}
use treedb.View.{Vbranches, vbranch_index_get}
use treedb.Walk.{view_expand, view_expand_to}
use treedb.Session.{MapState, world, put, up_fuel, send_expanded}

abbrev pub set_visible : Vbranches → ℕ → Bool → Vbranches
set_visible v vb b = update v vb (record (v vb) { visible = b })

-- vbranch_make_visible_path; `fuel` bounds its rounds.
unfoldable pub vbranch_make_visible_path : ℕ → Vbranches → ℕ → Option Vbranches
vbranch_make_visible_path zero v vb = none
vbranch_make_visible_path (suc fuel) v vb =
    let v1 = set_visible v vb true in
    elim ((v vb).parent) [ none ↦ some v1 | some p ↦ vbranch_make_visible_path fuel v1 p ]

module _ {T : Type 0} ⦃ix : Index T⦄ where
  -- The loop of map_visible and map_invisible over the ids.
  unfoldable pub visible_loop : MapState T → ℕ → List ℕ → Bool → MapState T
  unfolding vbranch_index_get
  visible_loop m view [] b = m
  visible_loop m view (id ∷ ids) b =
      let m1 : MapState T = elim (vbranch_index_get (world m) view id) [
        | none ↦ m
        | some vb ↦ record m { vbranches = set_visible m.vbranches vb b }
      ] in
      visible_loop m1 view ids b

  unfoldable pub map_visible : MapState T → ℕ → List ℕ → MapState T
  unfolding visible_loop
  map_visible m view branch_ids = visible_loop m view branch_ids true

  unfoldable pub map_invisible : MapState T → ℕ → List ℕ → MapState T
  unfolding visible_loop
  map_invisible m view branch_ids = visible_loop m view branch_ids false

  -- The vbranch that was expanded goes to the client with the position 0.
  unfoldable pub send_if : MapState T → Option ℕ → Option (MapState T)
  unfolding send_expanded
  send_if m none = some m
  send_if m (some vb) = send_expanded m vb 0

  unfoldable pub map_expand_to : MapState T → ℕ → ℕ → Option (MapState T)
  unfolding send_if
  map_expand_to m view branch_id = elim (branch_index_get m.store branch_id) [
    | none ↦ some m
    | some b ↦ view_expand_to (up_fuel m) (world m) view b true >>= λ r. send_if (put m (r.0)) (r.1)
  ]

  -- The depth 1 is the level 2.
  unfoldable pub map_branch_unfold : MapState T → ℕ → ℕ → Option (MapState T)
  unfolding send_expanded
  map_branch_unfold m view branch_id = elim (vbranch_index_get (world m) view branch_id) [
    | none ↦ some m
    | some vb ↦ (m.vbranches vb).branch >>= λ b.
        if (m.vbranches vb).child_n == (m.store.branches b).child_n
        then some m
        else (view_expand 1 (world m) vb >>= λ w. send_expanded (put m w) vb 0)
  ]
