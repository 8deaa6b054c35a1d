-- ===== src/Tests/Wire.antt =====
-- A small type of JSON values, an app with two maps, and a new map; and the theorems on messages, on
-- channels and on sequences of requests at these.
use treedb.Prelude.{
  ℕ, ◌≤◌, ◌≡◌, refl, Bool, true, false, Option, none, some, List, [], ◌∷◌, ◌++◌, arith, ◌==◌,
  if◌then◌else◌, length,
}
use treedb.Codec.Hex.{id2hex64, hex2id32}
use treedb.Index.{FunTable, fun_index}
use treedb.Branch.{Text, kids}
use treedb.Channel.{App, map_index_get, on_message, user_event_cb}
use treedb.Channel.Drain.{
  sent_all, emptied, IsWalk, user_event_cb-emptied, waiting, map_or, on_message-waiting,
}
use treedb.Json.{Json, all_set, json_get_id64, json_get_id64s}
use treedb.Json.Fields.{nothing, item, json_get_id64s-IsWritten}
use treedb.Load.{calloc_map, create_empty, blank_head}
use treedb.Load.Fresh.{create_empty-IsStored}
use treedb.Map.Runs.{Request, run, Fits, IsReached, created, IsReached-IsStored}
use treedb.Message.{ack}
use treedb.Session.{MapState}
use treedb.Store.{Store}
use treedb.Store.Invariant.{IsStored}
use treedb.Tests.Tree.{tree_store}

-- Texts, lists of texts, and an object that holds a text under each name of one byte and a list under
-- each longer one.
data Value : Type 0 where
  words : Text → Value
  words_list : List Text → Value
  object : Text → List Text → Value

abbrev all_words : List Text → List Value
all_words [] = []
all_words (t ∷ l) = words t ∷ all_words l

abbrev word : Text
word = b'0' ∷ b'0' ∷ b'0' ∷ b'0' ∷ b'0' ∷ b'0' ∷ b'0' ∷ b'4' ∷ []

abbrev get : Value → Text → Option Value
get (words t) name = none
get (words_list l) name = none
get (object t l) [] = none
get (object t l) (c ∷ []) = some (words_list l)
get (object t l) (c ∷ d ∷ name) = some (words t)

abbrev text_of : Value → Option Text
text_of (words t) = some t
text_of (words_list l) = none
text_of (object t l) = none

abbrev list_of : Value → Option (List Value)
list_of (words t) = none
list_of (words_list l) = some (all_words l)
list_of (object t l) = none

no_list : (v : Value) (t : Text) → text_of v ≡ some t → list_of v ≡ none
no_list (words s) t e = refl
no_list (words_list l) t e = absurd cc
no_list (object s l) t e = absurd cc

instance abbrev values : Json Value
values = record {
  loads = λ t. some (object word []);
  object_get = get;
  is_object = λ v. true;
  integer = λ v. none;
  string = text_of;
  array = list_of;
  string-integer = λ v t e. refl;
  string-array = no_list;
}

json_get_id64s-IsWritten_example :
    (json_get_id64 (object (id2hex64 77) (id2hex64 8 ∷ [])) (b'i' ∷ b'd' ∷ []) ≡ some 77)
    × (all_set (json_get_id64s (object (id2hex64 77) (id2hex64 8 ∷ [])) (b'l' ∷ []))
        ≡ some (8 ∷ []))
    × ((j : Value) (name : Text) → length (json_get_id64s j name) ≤ 10000)
json_get_id64s-IsWritten_example =
    json_get_id64s-IsWritten (object (id2hex64 77) (id2hex64 8 ∷ [])) (words (id2hex64 77))
      (words_list (id2hex64 8 ∷ [])) (b'i' ∷ b'd' ∷ []) (b'l' ∷ []) refl refl (omega arith) refl
      refl (item refl (omega arith) nothing) (omega arith)

-- A map with the id 4 and an answer for its client.
abbrev plain_map : MapState FunTable
plain_map = record {
  store = tree_store;
  vbranches = λ x. record {
    branch = none;
    visible = false;
    parent = none;
    child_list = none;
    child_n = 0;
    view = none;
  };
  vnext = 0;
  views = λ x. record { id = 0; vbranch = none; vbranch_index = λ k. none };
  view_next = 0;
  view_index = λ k. none;
  id = 4;
  branch = 0;
  out_q = ack ∷ [];
}

abbrev two_maps : App FunTable
two_maps = record {
  maps = λ x. plain_map;
  in_q = λ x. [];
  map_index = λ k. if k == 4 then some 0 else none;
  map_next = 2;
  published = [];
}

-- The traverser gives the one map of the table.
two_maps-IsWalk : IsWalk two_maps.map_index (0 ∷ [])
two_maps-IsWalk = record {
  each = λ k x e. ground arith;
  keyed = λ x m. (4, ground arith);
  once = λ x e. ground arith;
}

user_event_cb-emptied_example :
    ((k x : ℕ)
      → two_maps.map_index k ≡ some x
      → (user_event_cb (λ t. 0 ∷ []) two_maps).maps x ≡ emptied plain_map)
    × ((x : ℕ)
        → ((k : ℕ) → two_maps.map_index k ≡ some x → ⊥)
        → (user_event_cb (λ t. 0 ∷ []) two_maps).maps x ≡ plain_map)
    × ((user_event_cb (λ t. 0 ∷ []) two_maps).published ≡ [] ++ sent_all two_maps.maps (0 ∷ []))
    × ((user_event_cb (λ t. 0 ∷ []) two_maps).in_q ≡ two_maps.in_q)
    × ((user_event_cb (λ t. 0 ∷ []) two_maps).map_index ≡ two_maps.map_index)
user_event_cb-emptied_example =
    user_event_cb-emptied (λ t. 0 ∷ []) two_maps two_maps-IsWalk (λ k x e. ground arith)

on_message-waiting_example :
    (app : App FunTable) × (x : ℕ) × (on_message Value (λ t. some plain_map) two_maps (b'm' ∷ [])
      ≡ some app)
    × (map_index_get app (hex2id32 word) ≡ some x)
    × (app.in_q x ≡ waiting two_maps (map_index_get two_maps (hex2id32 word)) ++ (b'm' ∷ []) ∷ [])
    × (app.maps x ≡ map_or two_maps plain_map (map_index_get two_maps (hex2id32 word)))
    × ((y : ℕ) → (x == y) ≡ false → app.in_q y ≡ [])
unfolding hex2id32
on_message-waiting_example =
    on_message-waiting Value (λ t. some plain_map) two_maps (b'm' ∷ []) (object word [])
      (words word) word plain_map refl refl refl refl refl

create_empty-IsStored_example :
    (t : Store FunTable) × (create_empty
        (calloc_map (record { test = false; heads = λ n. blank_head; rows = [] }))
      ≡ some (t, 0))
    × IsStored t (λ x. x == 0)
    × (fun_index.find t.branch_index 1 ≡ some 0)
    × (kids t.branches 0 ≡ [])
    × (t.branch_n ≡ 1)
create_empty-IsStored_example = create_empty-IsStored (λ n. blank_head) []

-- The map that map_create_empty makes.
abbrev new_map : Store FunTable
new_map = (create_empty-IsStored {T = FunTable} (λ n. blank_head) []).0

new_map-IsReached : IsReached new_map
new_map-IsReached =
    created (λ n. blank_head) [] 0 (create_empty-IsStored {T = FunTable} (λ n. blank_head) []).1

IsReached-IsStored_example :
    (live : ℕ → Bool) × IsStored new_map live
    × ((r : Request)
        → Fits new_map r
        → (t : Store FunTable) × (run new_map r ≡ some t) × IsReached t)
IsReached-IsStored_example = IsReached-IsStored new_map new_map-IsReached
