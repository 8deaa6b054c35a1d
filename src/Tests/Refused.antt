-- ===== src/Tests/Refused.antt =====
-- Operations without their fields, and one of no known name.
use treedb.Prelude.{◌≡◌, refl, true, Option, none, some, List, [], ◌∷◌, ◌++◌, if◌then◌else◌}
use treedb.Branch.{Text}
use treedb.Codec.Hex.{id2hex64, hex2id32}
use treedb.Index.{fun_index}
use treedb.Json.{Json, json_get_id32, json_get_id64, json_get_str}
use treedb.Json.Names.{
  key_data, key_name, key_parent_branch_id, key_view_id, op_map_insert, op_map_move,
}
use treedb.Session.Init.{view_index_get}
use treedb.Session.Proc.{Tables, same_name, map_event}
use treedb.Session.Refused.{
  all_given, is_accepted, known_views, all_refused, answers, map_event-refused,
}
use treedb.Tests.Spread.{two_views}

-- A message of the view 6 with a name, its data, and a text.
data Part : Type 0 where
  words : Text → Part
  message : Text → Part
  body : Part

abbrev get : Part → Text → Option Part
unfolding same_name
get (words t) key = none
get (message t) key =
    if same_name key key_view_id
    then some (words (b'0' ∷ b'0' ∷ b'0' ∷ b'0' ∷ b'0' ∷ b'0' ∷ b'0' ∷ b'6' ∷ []))
    else if same_name key key_name
    then some (words t)
    else if same_name key key_data
    then some body
    else none
get body key = if same_name key key_parent_branch_id then some (words (id2hex64 5)) else none

abbrev text_of : Part → Option Text
text_of (words t) = some t
text_of (message t) = none
text_of body = none

abbrev load : Text → Option Part
load [] = none
load (c ∷ t) = some (message (c ∷ t))

instance abbrev parts : Json Part
parts = record {
  loads = load;
  object_get = get;
  is_object = λ v. true;
  integer = λ v. none;
  string = text_of;
  array = λ v. none;
  string-integer = λ v t e. refl;
  string-array = λ v t e. refl;
}

abbrev no_rows : Tables
no_rows = record { matched = λ rows t. []; noted = λ rows n. [] }

abbrev in_q : List Text
in_q = op_map_insert ∷ [] ∷ op_map_move ∷ (b'x' ∷ []) ∷ []

all_refused-in_q : all_refused Part (known_views two_views) in_q ≡ true
unfolding all_refused is_accepted all_given same_name view_index_get json_get_id32 json_get_id64
    json_get_str hex2id32
all_refused-in_q = refl

map_event-refused_example :
    map_event Part no_rows two_views in_q
    ≡ some (record two_views { out_q = [] ++ answers Part in_q })
map_event-refused_example = map_event-refused Part no_rows two_views in_q all_refused-in_q
