-- ===== src/Channel.antt =====
-- src/channel.c and the table of maps (src/map.c:25): the messages of Redis go to the maps, and what
-- the maps have to say goes to Redis.
--
-- The queue of operations to a map is `in_q`. map_create_clone, which copies the files of another
-- map and loads them, is an argument; so is the list of the values of a table, which the library
-- gives one by one. The two threads run one after the other: a step is one call-back.
pub mod Drain
use treedb.Prelude.{
  ℕ, zero, suc, ◌+◌, Option, none, some, List, [], ◌∷◌, ◌++◌, ◌==◌, if◌then◌else◌, ◌>>=◌, map,
}
use treedb.Codec.Hex.{hex2id32, id2hex32}
use treedb.Index.{Index}
use treedb.Branch.{Text, update}
use treedb.Json.{Json}
use treedb.Json.Names.{key_map_id}
use treedb.Message.{Message}
use treedb.Session.{MapState}
use treedb.Session.Proc.{Tables, map_event}

-- The maps of an app_t with their queues of operations, and what went to each channel.
pub record App (T : Type 0) : Type 0 where
  pub maps : ℕ → MapState T
  pub in_q : ℕ → List Text
  pub map_index : T
  pub map_next : ℕ
  pub published : List (Text × Message)

abbrev pub channel_prefix : Text
channel_prefix = b'u' ∷ b's' ∷ b'e' ∷ b'r' ∷ b'.' ∷ []

-- The loop of map_each: the rest of the queue, and what went to the channels. queue_pop_left takes
-- the first entry of the queue.
unfoldable pub pop_loop :
    Text → List Message → List (Text × Message) → List Message × List (Text × Message)
pop_loop channel_id [] published = ([], published)
pop_loop channel_id (str ∷ out_q) published =
    pop_loop channel_id out_q (published ++ (channel_id, str) ∷ [])

module _ {T : Type 0} ⦃ix : Index T⦄ where
  unfoldable pub map_index_init : App T → App T
  map_index_init app = record app { map_index = ix.create }

  unfoldable pub map_index_put : App T → ℕ → App T
  map_index_put app map = record app { map_index = ix.replace app.map_index (app.maps map).id map }

  unfoldable pub map_index_get : App T → ℕ → Option ℕ
  map_index_get app id = ix.find app.map_index id

  -- The address of the map that a message is for, which is made if it is not there. `clone` is what
  -- map_create_clone gives for the id.
  unfoldable pub map_for : (Text → Option (MapState T)) → App T → Text → Option (App T × ℕ)
  unfolding map_index_put map_index_get
  map_for clone app map_hexid = elim (map_index_get app (hex2id32 map_hexid)) [
    | some map ↦ some (app, map)
    | none ↦ clone map_hexid >>= λ m. some (
      map_index_put
          (record app {
            maps = update app.maps app.map_next m;
            in_q = update app.in_q app.map_next [];
            map_next = app.map_next + 1;
          })
          app.map_next,
      app.map_next,
    )
  ]

  -- onMessage for the text of a message; one that is no JSON or names no map is passed over.
  unfoldable pub on_message :
      (J : Type 0) ⦃js : Json J⦄ → (Text → Option (MapState T)) → App T → Text → Option (App T)
  unfolding map_for
  on_message J ⦃js⦄ clone app str =
      elim (js.loads str >>= λ root. js.object_get root key_map_id >>= λ obj. js.string obj) [
        | none ↦ some app
        | some map_hexid ↦ map_for clone app map_hexid >>= λ r.
            let a = r.0 in some (record a { in_q = update a.in_q (r.1) (a.in_q (r.1) ++ str ∷ []) })
      ]

  -- The thread of a map empties its queue.
  unfoldable pub serve : (J : Type 0) ⦃js : Json J⦄ → Tables → App T → ℕ → Option (App T)
  unfolding map_event
  serve J q app map = map_event J q (app.maps map) (app.in_q map) >>= λ m.
      some (record app { maps = update app.maps map m; in_q = update app.in_q map [] })

  -- map_each: the queue of a map goes to the channel of its id.
  unfoldable pub map_each : App T → ℕ → App T
  unfolding pop_loop
  map_each app at =
      let m = app.maps at in
      let r = pop_loop (channel_prefix ++ id2hex32 m.id) m.out_q app.published in
      record app { maps = update app.maps at (record m { out_q = r.0 }); published = r.1 }

  -- The loop of map_index_traverse, for the maps that the traverser still has to give.
  unfoldable pub traverse_loop : (App T → ℕ → App T) → List ℕ → App T → App T
  traverse_loop cb [] app = app
  traverse_loop cb (map ∷ maps) app = traverse_loop cb maps (cb app map)

  -- `items` is what rb_t_init and rb_t_next give: the values of a table, one after the other.
  unfoldable pub map_index_traverse : (T → List ℕ) → (App T → ℕ → App T) → App T → App T
  unfolding traverse_loop
  map_index_traverse items cb app = traverse_loop cb (items app.map_index) app

  -- user_event_cb.
  unfoldable pub user_event_cb : (T → List ℕ) → App T → App T
  unfolding map_index_traverse map_each
  user_event_cb items app = map_index_traverse items map_each app
