-- ===== src/Session/Refused.antt =====
-- Operations that map_proc (src/map.c:1262) refuses before it calls a handler: a text that is not
-- JSON, a field that is missing, a name that is not known, or a view that is not there.
use treedb.Prelude.{
  ℕ, ◌≡◌, refl, ap, sym, ◌∙◌, Bool, true, false, Option, none, some, List, [], ◌∷◌, ◌++◌, not, ◌&&◌,
  ◌||◌, if◌then◌else◌, Option-cases, inl, inr, append-nil, append_assoc, drop, arith,
}
use treedb.Index.{Index}
use treedb.Branch.{Text}
use treedb.Json.{Json, json_get_id32, json_get_id64, json_get_str, json_get_int16}
use treedb.Json.Names.{
  key_branch_document_id, key_branch_id, key_branch_pos, key_branch_text, key_data, key_doc_id,
  key_name, key_new_parent_id, key_old_parent_id, key_parent_branch_id, key_query, key_req_id,
  key_view_id, op_map_branch_unfold, op_map_delete, op_map_destroy_view, op_map_expand_to,
  op_map_init_view, op_map_insert, op_map_insert_in_path, op_map_invisible, op_map_move,
  op_map_move_to_path, op_map_update, op_map_visible,
}
use treedb.Message.{Message, ack}
use treedb.Session.{MapState, push}
use treedb.Session.Init.{view_index_get}
use treedb.Session.Proc.{
  Tables, same_name, proc_init_view, proc_insert_in_path, proc_move_to_path, proc_delete,
  proc_insert, proc_update, proc_unfold, proc_expand_to, proc_move, proc_view, dispatch, run_op,
  map_proc, map_event,
}

-- A field that an operation cannot do without, with its kind.
pub data Field : Type 0 where
  id64 : Text → Field
  str : Text → Field
  int16 : Text → Field

-- An operation: its name, whether it is one on a view, and its fields.
pub record Entry : Type 0 where
  pub name : Text
  pub on_view : Bool
  pub fields : List Field

abbrev pub operations : List Entry
operations =
    record {
      name = op_map_init_view;
      on_view = false;
      fields = str key_query ∷ id64 key_req_id ∷ id64 key_doc_id ∷ [];
    }
    ∷ record {
      name = op_map_insert_in_path;
      on_view = false;
      fields =
          id64 key_parent_branch_id
          ∷ id64 key_branch_id
          ∷ str key_branch_text
          ∷ id64 key_branch_document_id
          ∷ [];
    }
    ∷ record {
      name = op_map_move_to_path;
      on_view = false;
      fields = id64 key_parent_branch_id ∷ id64 key_branch_id ∷ [];
    }
    ∷ record { name = op_map_delete; on_view = false; fields = id64 key_branch_id ∷ [] }
    ∷ record {
      name = op_map_insert;
      on_view = false;
      fields =
          id64 key_parent_branch_id
          ∷ id64 key_branch_id
          ∷ int16 key_branch_pos
          ∷ str key_branch_text
          ∷ id64 key_branch_document_id
          ∷ [];
    }
    ∷ record { name = op_map_update; on_view = false; fields = id64 key_branch_id ∷ [] }
    ∷ record { name = op_map_visible; on_view = true; fields = [] }
    ∷ record { name = op_map_invisible; on_view = true; fields = [] }
    ∷ record { name = op_map_destroy_view; on_view = true; fields = [] }
    ∷ record { name = op_map_branch_unfold; on_view = true; fields = id64 key_branch_id ∷ [] }
    ∷ record { name = op_map_expand_to; on_view = true; fields = id64 key_branch_id ∷ [] }
    ∷ record {
      name = op_map_move;
      on_view = true;
      fields =
          id64 key_new_parent_id
          ∷ id64 key_old_parent_id
          ∷ id64 key_branch_id
          ∷ int16 key_branch_pos
          ∷ [];
    }
    ∷ []

abbrev pub is_set : {A : Type 0} → Option A → Bool
is_set none = false
is_set (some a) = true

module _ {J : Type 0} ⦃js : Json J⦄ where
  abbrev pub is_given : J → Field → Bool
  is_given data_ (id64 k) = is_set (json_get_id64 data_ k)
  is_given data_ (str k) = is_set (json_get_str data_ k)
  is_given data_ (int16 k) = is_set (json_get_int16 data_ k)

  unfoldable pub all_given : J → List Field → Bool
  all_given data_ [] = true
  all_given data_ (f ∷ l) = is_given data_ f && all_given data_ l

  -- Is an operation of this name known, on a view that is there if it needs one, with its fields?
  unfoldable pub is_accepted : List Entry → Bool → Text → J → Bool
  unfolding all_given
  is_accepted [] found name data_ = false
  is_accepted (x ∷ l) found name data_ =
      if same_name name x.name
      then (not x.on_view || found) && all_given data_ x.fields
      else is_accepted l found name data_

  -- Does map_proc come to a handler for the value, where `seen` says which views there are?
  abbrev pub is_run : (ℕ → Bool) → J → Bool
  is_run seen root = elim (json_get_id32 root key_view_id) [
    | none ↦ false
    | some view_id ↦ elim (json_get_str root key_name) [
      | none ↦ false
      | some name ↦ elim (js.object_get root key_data) [
        | none ↦ false
        | some data_ ↦ js.is_object data_ && is_accepted operations (seen view_id) name data_
      ]
    ]
  ]

module _ {T J : Type 0} ⦃ix : Index T⦄ ⦃js : Json J⦄ where
  proc_view-same :
      (m : MapState T) (u : ℕ) (name : Text) (data_ : J)
      → is_accepted (drop 6 operations) true name data_ ≡ false
      → proc_view m u name data_ ≡ some m
  unfolding proc_view is_accepted all_given proc_unfold proc_expand_to proc_move
  proc_view-same m u name data_ e = ground arith

  dispatch-same :
      (q : Tables) (m : MapState T) (view_id : ℕ) (name : Text) (data_ : J)
      → is_accepted operations (is_set (view_index_get m view_id)) name data_ ≡ false
      → dispatch q m view_id name data_ ≡ some m
  unfolding dispatch is_accepted all_given proc_init_view proc_insert_in_path proc_move_to_path
      proc_delete proc_insert proc_update
  dispatch-same q m view_id name data_ e = elim (Option-cases (view_index_get m view_id)) [
    | inl gone ↦ ground (arith, gone, e)
    | inr (u, here) ↦ ground (arith, here, e, proc_view-same m u name data_)
  ]

  run_op-same :
      (q : Tables) (m : MapState T) (root : J)
      → is_run (λ v. is_set (view_index_get m v)) root ≡ false
      → run_op q m root ≡ some m
  unfolding run_op
  run_op-same q m root e = elim (Option-cases (json_get_id32 root key_view_id)) [
    | inl none_at ↦ ground arith
    | inr (v, at) ↦ elim (Option-cases (json_get_str root key_name)) [
      | inl none_at ↦ ground arith
      | inr (name, at2) ↦ elim (Option-cases (js.object_get root key_data)) [
        | inl none_at ↦ ground arith
        | inr (data_, at3) ↦ ground (arith, e, dispatch-same q m v name data_)
      ]
    ]
  ]

module _ {T : Type 0} ⦃ix : Index T⦄ where
  -- Which views there are.
  abbrev pub known_views : MapState T → ℕ → Bool
  known_views m view_id = is_set (view_index_get m view_id)

module _ (J : Type 0) ⦃js : Json J⦄ where
  -- Is a text no JSON, or JSON that no handler takes?
  abbrev pub is_refused : (ℕ → Bool) → Text → Bool
  is_refused seen op = elim (js.loads op) [ none ↦ true | some root ↦ not (is_run seen root) ]

  unfoldable pub all_refused : (ℕ → Bool) → List Text → Bool
  all_refused seen [] = true
  all_refused seen (op ∷ l) = is_refused seen op && all_refused seen l

  -- The answer to each text that is JSON.
  unfoldable pub answers : List Text → List Message
  answers [] = []
  answers (op ∷ l) = elim (js.loads op) [ none ↦ answers l | some root ↦ ack ∷ answers l ]

module _ {T : Type 0} ⦃ix : Index T⦄ (J : Type 0) ⦃js : Json J⦄ where
  map_proc-same :
      (q : Tables) (m : MapState T) (op : Text) (root : J)
      → js.loads op ≡ some root
      → is_run (known_views m) root ≡ false
      → map_proc J q m op ≡ some (push m ack)
  unfolding map_proc
  map_proc-same q m op root loaded e = rw (map_proc, loaded) (rw (run_op-same q m root e) refl)

  map_proc-garbled :
      (q : Tables) (m : MapState T) (op : Text) → js.loads op ≡ none → map_proc J q m op ≡ some m
  unfolding map_proc
  map_proc-garbled q m op lost = rw (map_proc, lost) refl

  -- On any map and for any queue of texts of which each is no JSON, or lacks the view, the name or the
  -- object of data, or names no operation, or one on a view that is not there, or has not all fields
  -- that its operation cannot do without: map_event returns the map as it was, and all that goes out
  -- is one answer for each text that is JSON, in their order.
  pub map_event-refused :
      (q : Tables) (m : MapState T) (in_q : List Text)
      → all_refused J (known_views m) in_q ≡ true
      → map_event J q m in_q ≡ some (record m { out_q = m.out_q ++ answers J in_q })
  unfolding map_event all_refused answers view_index_get
  map_event-refused q m [] e = ap (λ l. some (record m { out_q = l })) (sym (append-nil m.out_q))
  map_event-refused q m (op ∷ l) e = elim (Option-cases (js.loads op)) [
    | inl lost ↦
        rw (map_proc-garbled q m op lost)
          (rw (answers, lost) (map_event-refused q m l (ground arith)))
    | inr (root, loaded) ↦ rw (map_proc-same q m op root loaded (ground arith)) (
        rw (answers, loaded)
          (map_event-refused q (push m ack) l (ground arith)
            ∙ ap (λ t. some (record m { out_q = t }))
                (append_assoc m.out_q (ack ∷ []) (answers J l))))
  ]
