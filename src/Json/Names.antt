-- ===== src/Json/Names.antt =====
-- The texts that map_proc (src/map.c:1262) and onMessage (src/channel.c:21) look for: the names of
-- the fields of a message, and the names of the operations.
use treedb.Prelude.{[], ◌∷◌}
use treedb.Branch.{Text}

abbrev pub key_view_id : Text
key_view_id = b'v' ∷ b'i' ∷ b'e' ∷ b'w' ∷ b'I' ∷ b'd' ∷ []

abbrev pub key_name : Text
key_name = b'n' ∷ b'a' ∷ b'm' ∷ b'e' ∷ []

abbrev pub key_data : Text
key_data = b'd' ∷ b'a' ∷ b't' ∷ b'a' ∷ []

abbrev pub key_query : Text
key_query = b'q' ∷ b'u' ∷ b'e' ∷ b'r' ∷ b'y' ∷ []

abbrev pub key_req_id : Text
key_req_id = b'r' ∷ b'e' ∷ b'q' ∷ b'I' ∷ b'd' ∷ []

abbrev pub key_branch_id : Text
key_branch_id = b'b' ∷ b'r' ∷ b'a' ∷ b'n' ∷ b'c' ∷ b'h' ∷ b'I' ∷ b'd' ∷ []

abbrev pub key_doc_id : Text
key_doc_id = b'd' ∷ b'o' ∷ b'c' ∷ b'I' ∷ b'd' ∷ []

abbrev pub key_clone_view_id : Text
key_clone_view_id = b'c' ∷ b'l' ∷ b'o' ∷ b'n' ∷ b'e' ∷ b'V' ∷ b'i' ∷ b'e' ∷ b'w' ∷ b'I' ∷ b'd' ∷ []

abbrev pub key_endpoints : Text
key_endpoints = b'e' ∷ b'n' ∷ b'd' ∷ b'p' ∷ b'o' ∷ b'i' ∷ b'n' ∷ b't' ∷ b's' ∷ []

abbrev pub key_parent_branch_id : Text
key_parent_branch_id =
    b'p' ∷ b'a' ∷ b'r' ∷ b'e' ∷ b'n' ∷ b't' ∷ b'B' ∷ b'r' ∷ b'a' ∷ b'n' ∷ b'c' ∷ b'h' ∷ b'I' ∷ b'd'
    ∷ []

abbrev pub key_names : Text
key_names = b'n' ∷ b'a' ∷ b'm' ∷ b'e' ∷ b's' ∷ []

abbrev pub key_branch_text : Text
key_branch_text = b'b' ∷ b'r' ∷ b'a' ∷ b'n' ∷ b'c' ∷ b'h' ∷ b'T' ∷ b'e' ∷ b'x' ∷ b't' ∷ []

abbrev pub key_branch_document_id : Text
key_branch_document_id =
    b'b' ∷ b'r' ∷ b'a' ∷ b'n' ∷ b'c' ∷ b'h' ∷ b'D' ∷ b'o' ∷ b'c' ∷ b'u' ∷ b'm' ∷ b'e' ∷ b'n' ∷ b't'
    ∷ b'I' ∷ b'd' ∷ []

abbrev pub key_branch_mark_id : Text
key_branch_mark_id =
    b'b' ∷ b'r' ∷ b'a' ∷ b'n' ∷ b'c' ∷ b'h' ∷ b'M' ∷ b'a' ∷ b'r' ∷ b'k' ∷ b'I' ∷ b'd' ∷ []

abbrev pub key_branch_pos : Text
key_branch_pos = b'b' ∷ b'r' ∷ b'a' ∷ b'n' ∷ b'c' ∷ b'h' ∷ b'P' ∷ b'o' ∷ b's' ∷ []

abbrev pub key_branch_ids : Text
key_branch_ids = b'b' ∷ b'r' ∷ b'a' ∷ b'n' ∷ b'c' ∷ b'h' ∷ b'I' ∷ b'd' ∷ b's' ∷ []

abbrev pub key_new_parent_id : Text
key_new_parent_id = b'n' ∷ b'e' ∷ b'w' ∷ b'P' ∷ b'a' ∷ b'r' ∷ b'e' ∷ b'n' ∷ b't' ∷ b'I' ∷ b'd' ∷ []

abbrev pub key_old_parent_id : Text
key_old_parent_id = b'o' ∷ b'l' ∷ b'd' ∷ b'P' ∷ b'a' ∷ b'r' ∷ b'e' ∷ b'n' ∷ b't' ∷ b'I' ∷ b'd' ∷ []

abbrev pub key_map_id : Text
key_map_id = b'm' ∷ b'a' ∷ b'p' ∷ b'I' ∷ b'd' ∷ []

abbrev pub op_map_init_view : Text
op_map_init_view = b'm' ∷ b'a' ∷ b'p' ∷ b'I' ∷ b'n' ∷ b'i' ∷ b't' ∷ b'V' ∷ b'i' ∷ b'e' ∷ b'w' ∷ []

abbrev pub op_map_insert_in_path : Text
op_map_insert_in_path =
    b'm' ∷ b'a' ∷ b'p' ∷ b'I' ∷ b'n' ∷ b's' ∷ b'e' ∷ b'r' ∷ b't' ∷ b'I' ∷ b'n' ∷ b'P' ∷ b'a' ∷ b't'
    ∷ b'h' ∷ []

abbrev pub op_map_move_to_path : Text
op_map_move_to_path =
    b'm' ∷ b'a' ∷ b'p' ∷ b'M' ∷ b'o' ∷ b'v' ∷ b'e' ∷ b'T' ∷ b'o' ∷ b'P' ∷ b'a' ∷ b't' ∷ b'h' ∷ []

abbrev pub op_map_delete : Text
op_map_delete = b'm' ∷ b'a' ∷ b'p' ∷ b'D' ∷ b'e' ∷ b'l' ∷ b'e' ∷ b't' ∷ b'e' ∷ []

abbrev pub op_map_insert : Text
op_map_insert = b'm' ∷ b'a' ∷ b'p' ∷ b'I' ∷ b'n' ∷ b's' ∷ b'e' ∷ b'r' ∷ b't' ∷ []

abbrev pub op_map_update : Text
op_map_update = b'm' ∷ b'a' ∷ b'p' ∷ b'U' ∷ b'p' ∷ b'd' ∷ b'a' ∷ b't' ∷ b'e' ∷ []

abbrev pub op_map_visible : Text
op_map_visible = b'm' ∷ b'a' ∷ b'p' ∷ b'V' ∷ b'i' ∷ b's' ∷ b'i' ∷ b'b' ∷ b'l' ∷ b'e' ∷ []

abbrev pub op_map_invisible : Text
op_map_invisible =
    b'm' ∷ b'a' ∷ b'p' ∷ b'I' ∷ b'n' ∷ b'v' ∷ b'i' ∷ b's' ∷ b'i' ∷ b'b' ∷ b'l' ∷ b'e' ∷ []

abbrev pub op_map_destroy_view : Text
op_map_destroy_view =
    b'm' ∷ b'a' ∷ b'p' ∷ b'D' ∷ b'e' ∷ b's' ∷ b't' ∷ b'r' ∷ b'o' ∷ b'y' ∷ b'V' ∷ b'i' ∷ b'e' ∷ b'w'
    ∷ []

abbrev pub op_map_branch_unfold : Text
op_map_branch_unfold =
    b'm' ∷ b'a' ∷ b'p' ∷ b'B' ∷ b'r' ∷ b'a' ∷ b'n' ∷ b'c' ∷ b'h' ∷ b'U' ∷ b'n' ∷ b'f' ∷ b'o' ∷ b'l'
    ∷ b'd' ∷ []

abbrev pub op_map_expand_to : Text
op_map_expand_to = b'm' ∷ b'a' ∷ b'p' ∷ b'E' ∷ b'x' ∷ b'p' ∷ b'a' ∷ b'n' ∷ b'd' ∷ b'T' ∷ b'o' ∷ []

abbrev pub op_map_move : Text
op_map_move = b'm' ∷ b'a' ∷ b'p' ∷ b'M' ∷ b'o' ∷ b'v' ∷ b'e' ∷ []
