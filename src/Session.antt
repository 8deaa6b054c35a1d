-- ===== src/Session.antt =====
-- A map with its views and the queue to its clients (`map_t` of src/map.h and the handlers of
-- src/map.c): what the handlers share.
--
-- All views belong to the map, so the queue of `vb->view->map` is `out_q`. The time stamps of the
-- views are left out. A view takes the address `view_next`.
pub mod Insert
pub mod Move
pub mod Delete
pub mod Update
pub mod Show
pub mod Init
pub mod Proc
pub mod Visible
pub mod Bare
pub mod BareInsert
pub mod Climb
pub mod Counting
pub mod Adds
pub mod Spread
pub mod Rounds
pub mod BareDelete
pub mod Paths
pub mod Told
pub mod Viewed
pub mod Loops
pub mod Whole
pub mod Refused
use treedb.Prelude.{
  ℕ, zero, suc, ◌+◌, ◌-◌, Bool, true, false, Option, none, some, List, [], ◌∷◌, ◌++◌, not, ◌&&◌,
  ◌==◌, if◌then◌else◌, ◌>>=◌,
}
use treedb.Prelude.Int.{ℤ}
use treedb.Codec.Hex.{id2hex64, id2hex32}
use treedb.Index.{Index}
use treedb.Branch.{Text, Branches, update, parent_of}
use treedb.Store.{Store}
use treedb.View.{Vbranches, View, World}
use treedb.Walk.{view_get_vbranch}
use treedb.Message.{Node, Message, map_insert, map_count, vbranch_to_json}

-- `store` is the tree, its index and its files.
pub record MapState (T : Type 0) : Type 0 where
  pub store : Store T
  pub vbranches : Vbranches
  pub vnext : ℕ
  pub views : ℕ → View T
  pub view_next : ℕ
  pub view_index : T
  pub id : ℕ
  pub branch : ℕ
  pub out_q : List Message

module _ {T : Type 0} where
  -- The part of the map that the operations on views see, and its way back.
  abbrev pub world : MapState T → World T
  world m = record {
    branches = m.store.branches;
    vbranches = m.vbranches;
    vnext = m.vnext;
    views = m.views;
  }

  abbrev pub put : MapState T → World T → MapState T
  put m w = record m {
    store = record (m.store) { branches = w.branches };
    vbranches = w.vbranches;
    vnext = w.vnext;
    views = w.views;
  }

  -- queue_push_right of a dumped message.
  abbrev pub push : MapState T → Message → MapState T
  push m msg = record m { out_q = m.out_q ++ msg ∷ [] }

  -- Fuel for a walk up the tree, and for one down a view.
  abbrev pub up_fuel : MapState T → ℕ
  up_fuel m = m.store.next + 2

  abbrev pub down_fuel : MapState T → ℕ
  down_fuel m = m.vnext + 1

  -- The hexadecimal ids of a view and of a branch.
  unfoldable pub view_hexid : MapState T → Option ℕ → Option Text
  view_hexid m view = view >>= λ u. some (id2hex32 (m.views u).id)

  unfoldable pub branch_hexid : MapState T → Option ℕ → Option Text
  branch_hexid m b = b >>= λ x. some (id2hex64 (m.store.branches x).id)

  -- The message mapInsert for the vbranch `vb` and what is below it.
  unfoldable pub send_insert : MapState T → ℕ → Text → ℕ → Option (MapState T)
  unfolding view_hexid
  send_insert m vb parent_branch_hexid branch_pos = view_hexid m (m.vbranches vb).view >>= λ v.
      vbranch_to_json (down_fuel m) (world m) vb >>= λ branch.
      some (push m (map_insert v parent_branch_hexid branch_pos branch))

  -- The message mapInsert for a vbranch that was expanded: it names its own branch as the parent.
  unfoldable pub send_expanded : MapState T → ℕ → ℕ → Option (MapState T)
  unfolding send_insert branch_hexid
  send_expanded m vb branch_pos =
      branch_hexid m (m.vbranches vb).branch >>= λ parent. send_insert m vb parent branch_pos

  -- Has the vbranch no childs though its branch has some?
  unfoldable pub is_closed : MapState T → ℕ → Option Bool
  is_closed m vb = (m.vbranches vb).branch >>= λ b.
      some (not ((m.store.branches b).child_n == 0) && ((m.vbranches vb).child_n == 0))

module _ {T : Type 0} ⦃ix : Index T⦄ where
  -- The do loops that climb from `b` to the first branch that has a vbranch in the view: the two,
  -- if there are such.
  unfoldable pub climb_ep : ℕ → MapState T → Option ℕ → ℕ → Option (Option (ℕ × ℕ))
  unfolding view_get_vbranch
  climb_ep zero m view b = none
  climb_ep (suc fuel) m view b = view_get_vbranch (world m) view b >>= λ found. elim found [
    | some vb ↦ some (some (b, vb))
    | none ↦ elim (parent_of m.store.branches b) [
      | none ↦ some none
      | some p ↦ climb_ep fuel m view p
    ]
  ]

  -- The message mapCount about the branch `b` for a view.
  unfoldable pub send_count : MapState T → Option ℕ → Option ℕ → ℤ → Option (MapState T)
  unfolding view_hexid branch_hexid
  send_count m view b n =
      view_hexid m view >>= λ v. branch_hexid m b >>= λ x. some (push m (map_count v x n))

  -- The message mapCount about the first branch from `b` upwards that the view shows, if any.
  unfoldable pub count_above : MapState T → Option ℕ → ℕ → ℤ → Option (MapState T)
  unfolding climb_ep send_count
  count_above m view b n = climb_ep (up_fuel m) m view b >>= λ found. elim found [
    | none ↦ some m
    | some (b_ep, vb) ↦ send_count m view (some b_ep) n
  ]
