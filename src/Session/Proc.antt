-- ===== src/Session/Proc.antt =====
-- map_proc and map_event (src/map.c:1262): an operation that came from a client, from its text on.
--
-- A getter that returns 0 is the `goto error` of the code, which leaves the map as it is; the
-- answer ack goes out in any case. The events for the other thread are left out.
use treedb.Prelude.{
  ℕ, Bool, true, false, Option, none, some, List, [], ◌∷◌, ◌&&◌, ◌==◌, if◌then◌else◌, ◌>>=◌,
}
use treedb.Index.{Index}
use treedb.Branch.{Text}
use treedb.Io.{Row}
use treedb.Json.{
  Json, all_set, json_get_id32, json_get_id64, json_get_id64s, json_get_strs, json_get_str,
  json_get_int16,
}
use treedb.Json.Names.{
  key_branch_document_id, key_branch_id, key_branch_ids, key_branch_mark_id, key_branch_pos,
  key_branch_text, key_data, key_doc_id, key_endpoints, key_name, key_names, key_new_parent_id,
  key_old_parent_id, key_parent_branch_id, key_query, key_req_id, key_view_id, op_map_branch_unfold,
  op_map_delete, op_map_destroy_view, op_map_expand_to, op_map_init_view, op_map_insert,
  op_map_insert_in_path, op_map_invisible, op_map_move, op_map_move_to_path, op_map_update,
  op_map_visible,
}
use treedb.Message.{ack}
use treedb.Session.{MapState, push}
use treedb.Session.Delete.{delete}
use treedb.Session.Init.{view_index_get, view_destroy, map_init_view}
use treedb.Session.Insert.{insert}
use treedb.Session.Move.{move}
use treedb.Session.Show.{map_visible, map_invisible, map_expand_to, map_branch_unfold}
use treedb.Session.Update.{update, insert_in_path, move_to_path}

-- What SQLite finds in the rows: the ids for a query of the full-text index, and those for a note.
pub record Tables : Type 0 where
  pub matched : List Row → Text → List ℕ
  pub noted : List Row → ℕ → List ℕ

-- `!strcmp(s, t)`.
unfoldable pub same_name : Text → Text → Bool
same_name [] [] = true
same_name [] (d ∷ t) = false
same_name (c ∷ s) [] = false
same_name (c ∷ s) (d ∷ t) = (c == d) && same_name s t

-- A variable that a getter may leave 0.
abbrev pub or_0 : Option ℕ → ℕ
or_0 none = 0
or_0 (some n) = n

-- The rest of an operation with an argument that a getter gave, or the `goto error`.
abbrev pub need : {A S : Type 0} → Option A → S → (A → Option S) → Option S
need none m f = some m
need (some a) m f = f a

module _ {T : Type 0} ⦃ix : Index T⦄ where
  unfoldable pub map_destroy_view : MapState T → ℕ → Option (MapState T)
  unfolding view_destroy
  map_destroy_view m view = view_destroy m view

module _ {T J : Type 0} ⦃ix : Index T⦄ ⦃js : Json J⦄ where
  -- Lines 1290 to 1312.
  unfoldable pub proc_init_view : Tables → MapState T → ℕ → J → Option (MapState T)
  unfolding all_set map_init_view
  proc_init_view q m view_id fields = need (json_get_str fields key_query) m λ query.
      need (json_get_id64 fields key_req_id) m λ req_id.
        need (json_get_id64 fields key_doc_id) m λ doc_id.
          all_set (json_get_id64s fields key_endpoints) >>= λ endpoint_ids.
          map_init_view m view_id req_id (or_0 (json_get_id64 fields key_branch_id)) query doc_id
            endpoint_ids (q.matched m.store.disk.rows query) (q.noted m.store.disk.rows doc_id)

  -- Lines 1313 to 1336.
  unfoldable pub proc_insert_in_path : MapState T → J → Option (MapState T)
  unfolding all_set insert_in_path
  proc_insert_in_path m fields =
      need (json_get_id64 fields key_parent_branch_id) m λ parent_branch_id.
        need (json_get_id64 fields key_branch_id) m λ branch_id.
          need (json_get_str fields key_branch_text) m λ branch_text.
            need (json_get_id64 fields key_branch_document_id) m λ document.
              all_set (json_get_strs fields key_names) >>= λ names.
              insert_in_path m parent_branch_id names branch_id branch_text 1 document >>= λ r.
              some (r.0)

  -- Lines 1337 to 1353.
  unfoldable pub proc_move_to_path : MapState T → J → Option (MapState T)
  unfolding all_set move_to_path
  proc_move_to_path m fields =
      need (json_get_id64 fields key_parent_branch_id) m λ parent_branch_id.
        need (json_get_id64 fields key_branch_id) m λ branch_id.
          all_set (json_get_strs fields key_names) >>= λ names.
          move_to_path m parent_branch_id names branch_id

  -- Lines 1354 to 1362.
  unfoldable pub proc_delete : MapState T → Option ℕ → J → Option (MapState T)
  unfolding delete
  proc_delete m view fields =
      need (json_get_id64 fields key_branch_id) m λ branch_id. delete m view branch_id

  -- Lines 1363 to 1384.
  unfoldable pub proc_insert : MapState T → Option ℕ → J → Option (MapState T)
  unfolding insert
  proc_insert m view fields = need (json_get_id64 fields key_parent_branch_id) m λ parent_branch_id.
      need (json_get_id64 fields key_branch_id) m λ branch_id.
        need (json_get_int16 fields key_branch_pos) m λ branch_pos.
          need (json_get_str fields key_branch_text) m λ branch_text.
            need (json_get_id64 fields key_branch_document_id) m λ document.
              insert m view parent_branch_id branch_id branch_pos branch_text 1 document >>= λ r.
              some (r.0)

  -- Lines 1385 to 1403.
  unfoldable pub proc_update : MapState T → Option ℕ → J → Option (MapState T)
  unfolding update
  proc_update m view fields = need (json_get_id64 fields key_branch_id) m λ branch_id.
      update m view branch_id (json_get_str fields key_branch_text)
        (or_0 (json_get_id64 fields key_branch_mark_id))
        (or_0 (json_get_id64 fields key_branch_document_id))
      >>= λ r. some (r.0)

  -- Lines 1405 to 1415 and 1416 to 1426, for the two flags.
  unfoldable pub proc_visible : MapState T → ℕ → J → Bool → Option (MapState T)
  unfolding all_set map_visible map_invisible
  proc_visible m view fields shown = all_set (json_get_id64s fields key_branch_ids) >>= λ ids.
      some (if shown then map_visible m view ids else map_invisible m view ids)

  -- Lines 1429 to 1436.
  unfoldable pub proc_unfold : MapState T → ℕ → J → Option (MapState T)
  unfolding map_branch_unfold
  proc_unfold m view fields =
      need (json_get_id64 fields key_branch_id) m λ branch_id. map_branch_unfold m view branch_id

  -- Lines 1437 to 1445.
  unfoldable pub proc_expand_to : MapState T → ℕ → J → Option (MapState T)
  unfolding map_expand_to
  proc_expand_to m view fields =
      need (json_get_id64 fields key_branch_id) m λ branch_id. map_expand_to m view branch_id

  -- Lines 1446 to 1462.
  unfoldable pub proc_move : MapState T → ℕ → J → Option (MapState T)
  unfolding move
  proc_move m view fields = need (json_get_id64 fields key_new_parent_id) m λ new_parent_id.
      need (json_get_id64 fields key_old_parent_id) m λ old_parent_id.
        need (json_get_id64 fields key_branch_id) m λ branch_id.
          need (json_get_int16 fields key_branch_pos) m λ branch_pos.
            move m (some view) new_parent_id old_parent_id branch_id branch_pos >>= λ r. some (r.0)

  -- The operations that need a view; another name is passed over.
  unfoldable pub proc_view : MapState T → ℕ → Text → J → Option (MapState T)
  unfolding same_name
  proc_view m view name fields =
      if same_name name op_map_visible
      then proc_visible m view fields true
      else if same_name name op_map_invisible
      then proc_visible m view fields false
      else if same_name name op_map_destroy_view
      then map_destroy_view m view
      else if same_name name op_map_branch_unfold
      then proc_unfold m view fields
      else if same_name name op_map_expand_to
      then proc_expand_to m view fields
      else if same_name name op_map_move
      then proc_move m view fields
      else some m

  -- The chain of tests on the name.
  unfoldable pub dispatch : Tables → MapState T → ℕ → Text → J → Option (MapState T)
  unfolding same_name
  dispatch q m view_id name fields =
      let view = view_index_get m view_id in
      if same_name name op_map_init_view
      then proc_init_view q m view_id fields
      else if same_name name op_map_insert_in_path
      then proc_insert_in_path m fields
      else if same_name name op_map_move_to_path
      then proc_move_to_path m fields
      else if same_name name op_map_delete
      then proc_delete m view fields
      else if same_name name op_map_insert
      then proc_insert m view fields
      else if same_name name op_map_update
      then proc_update m view fields
      else elim view [ none ↦ some m | some u ↦ proc_view m u name fields ]

  -- The operation of a text that is JSON, up to the labels at the end.
  unfoldable pub run_op : Tables → MapState T → J → Option (MapState T)
  unfolding dispatch
  run_op q m root = need (json_get_id32 root key_view_id) m λ view_id.
      need (json_get_str root key_name) m λ name.
        need (js.object_get root key_data) m
          λ fields. if js.is_object fields then dispatch q m view_id name fields else some m

module _ {T : Type 0} ⦃ix : Index T⦄ (J : Type 0) ⦃js : Json J⦄ where
  unfoldable pub map_proc : Tables → MapState T → Text → Option (MapState T)
  unfolding run_op
  map_proc q m op = elim (js.loads op) [
    | none ↦ some m
    | some root ↦ run_op q m root >>= λ m1. some (push m1 ack)
  ]

  -- The queue of operations, the oldest first, is emptied.
  unfoldable pub map_event : Tables → MapState T → List Text → Option (MapState T)
  unfolding map_proc
  map_event q m [] = some m
  map_event q m (op ∷ in_q) = map_proc q m op >>= λ m1. map_event q m1 in_q
