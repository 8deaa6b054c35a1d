-- ===== src/Channel/Drain.antt =====
-- user_event_cb (src/channel.c:98): the queues of the maps go out, whole and in order; and onMessage
-- (src/channel.c:21): an operation reaches the queue of its map.
use treedb.Prelude.{
  append-nil, ℕ, ◌+◌, ◌≤◌, ◌≡◌, refl, ap, ◌∙◌, sym, inl, inr, true, false, Option, none, some, List,
  [], ◌∷◌, ◌++◌, arith, ◌==◌, ==_self, if◌then◌else◌, Bool-cases, Option-cases, has, count,
  count_of_has, map, eq_of_==,
}
use treedb.Codec.Hex.{hex2id32, id2hex32}
use treedb.Index.{Index}
use treedb.Branch.{Text, update}
use treedb.Json.{Json}
use treedb.Json.Names.{key_map_id}
use treedb.Message.{Message}
use treedb.Session.{MapState}
use treedb.Channel.{
  App, channel_prefix, map_index_put, map_index_get, map_for, on_message, map_each, pop_loop,
  traverse_loop, map_index_traverse, user_event_cb,
}

append_assoc : {A : Type 0} (xs ys zs : List A) → (xs ++ ys) ++ zs ≡ xs ++ (ys ++ zs)
append_assoc [] ys zs = refl
append_assoc (x ∷ xs) ys zs = ap (λ l. x ∷ l) (append_assoc xs ys zs)

module _ {T : Type 0} where
  -- The messages of a map on the channel user. with its id.
  abbrev pub sent : MapState T → List (Text × Message)
  sent m = map (λ str. (b'u' ∷ b's' ∷ b'e' ∷ b'r' ∷ b'.' ∷ id2hex32 m.id, str)) m.out_q

  abbrev pub sent_all : (ℕ → MapState T) → List ℕ → List (Text × Message)
  sent_all maps [] = []
  sent_all maps (x ∷ l) = sent (maps x) ++ sent_all maps l

  abbrev pub emptied : MapState T → MapState T
  emptied m = record m { out_q = [] }

pop_loop-map :
    (c : Text) (q : List Message) (p : List (Text × Message))
    → pop_loop c q p ≡ ([], p ++ map (λ str. (c, str)) q)
unfolding pop_loop
pop_loop-map c [] p = ap (λ l. ([], l)) (sym (append-nil p))
pop_loop-map c (str ∷ q) p =
    pop_loop-map c q (p ++ (c, str) ∷ [])
    ∙ ap (λ l. ([], l)) (append_assoc p ((c, str) ∷ []) (map (λ s. (c, s)) q))

module _ {T : Type 0} ⦃ix : Index T⦄ where
  maps-map_each :
      (app : App T) (at x : ℕ)
      → (map_each app at).maps x ≡ (if at == x then emptied (app.maps x) else app.maps x)
  unfolding map_each
  maps-map_each app at x =
      let m = app.maps at in
      let none_left : (pop_loop (channel_prefix ++ id2hex32 m.id) m.out_q app.published).0 ≡ [] =
        ap (λ r. r.0) (pop_loop-map (channel_prefix ++ id2hex32 m.id) m.out_q app.published) in
      elim (Bool-cases (at == x)) [
        | inl here ↦ rw here (
            ap (λ q. record (app.maps at) { out_q = q }) none_left
            ∙ ap (λ y. emptied (app.maps y)) (eq_of_== at x here))
        | inr there ↦ rw there refl
      ]

  sent_all-map_each :
      (app : App T) (at : ℕ) (l : List ℕ)
      → has at l ≡ false
      → sent_all (map_each app at).maps l ≡ sent_all app.maps l
  sent_all-map_each app at [] out = refl
  sent_all-map_each app at (x ∷ l) out =
      let other : (at == x) ≡ false = ground arith in
      let same : (map_each app at).maps x ≡ app.maps x = maps-map_each app at x ∙ rw other refl in
      ap (λ m. sent m ++ sent_all (map_each app at).maps l) same
      ∙ ap (λ t. sent (app.maps x) ++ t) (sent_all-map_each app at l (ground arith))

  published-map_each :
      (app : App T) (at : ℕ) → (map_each app at).published ≡ app.published ++ sent (app.maps at)
  unfolding map_each
  published-map_each app at =
      ap (λ r. r.1)
        (pop_loop-map (channel_prefix ++ id2hex32 (app.maps at).id) (app.maps at).out_q
          app.published)

  traverse_loop-emptied :
      (maps : List ℕ) (app : App T)
      → ((x : ℕ) → count x maps ≤ 1)
      → ((x : ℕ)
          → (traverse_loop map_each maps app).maps x
            ≡ (if has x maps then emptied (app.maps x) else app.maps x))
        × ((traverse_loop map_each maps app).published ≡ app.published ++ sent_all app.maps maps)
        × ((traverse_loop map_each maps app).in_q ≡ app.in_q)
        × ((traverse_loop map_each maps app).map_index ≡ app.map_index)
  unfolding traverse_loop map_each
  traverse_loop-emptied [] app once = (λ x. refl, sym (append-nil app.published), refl, refl)
  traverse_loop-emptied (at ∷ maps) app once =
      let (all, out, queues, table) =
        traverse_loop-emptied maps (map_each app at) (λ x. omega (arith, once x)) in
      let alone : has at maps ≡ false = ground (arith, once at, ==_self at, count_of_has at maps) in
      (
        λ x. all x ∙ ground (arith, maps-map_each app at x),
        out
            ∙ (ap (λ l. l ++ sent_all (map_each app at).maps maps) (published-map_each app at)
                ∙ (append_assoc app.published (sent (app.maps at))
                      (sent_all (map_each app at).maps maps)
                    ∙ ap (λ l. app.published ++ (sent (app.maps at) ++ l))
                        (sent_all-map_each app at maps alone))),
        queues,
        table,
      )

  -- What the traverser is relied on for: it gives each value of the table, and nothing else, and it
  -- gives a value once that stands under one key.
  pub record IsWalk (table : T) (l : List ℕ) : Type 0 where
    pub each : (k x : ℕ) → ix.find table k ≡ some x → has x l ≡ true
    pub keyed : (x : ℕ) → has x l ≡ true → (k : ℕ) × (ix.find table k ≡ some x)
    pub once :
        (x : ℕ)
        → ((j k : ℕ) → ix.find table j ≡ some x → ix.find table k ≡ some x → j ≡ k)
        → count x l ≤ 1

  -- Where the table has each map under its id, and the traverser gives what is in the table: after
  -- user_event_cb each map of the table has an empty queue, and a map that is not in the table is as it
  -- was; what was published is what was published before and then the queue of each map, whole and in
  -- order, on the channel of its id, a map after the other. The queues of operations and the table
  -- stay.
  pub user_event_cb-emptied :
      (items : T → List ℕ) (app : App T)
      → IsWalk app.map_index (items app.map_index)
      → ((k x : ℕ) → ix.find app.map_index k ≡ some x → (app.maps x).id ≡ k)
      → ((k x : ℕ)
          → ix.find app.map_index k ≡ some x
          → (user_event_cb items app).maps x ≡ emptied (app.maps x))
        × ((x : ℕ)
            → ((k : ℕ) → ix.find app.map_index k ≡ some x → ⊥)
            → (user_event_cb items app).maps x ≡ app.maps x)
        × ((user_event_cb items app).published
            ≡ app.published ++ sent_all app.maps (items app.map_index))
        × ((user_event_cb items app).in_q ≡ app.in_q)
        × ((user_event_cb items app).map_index ≡ app.map_index)
  unfolding user_event_cb map_index_traverse
  user_event_cb-emptied items app walk ids =
      let l = items app.map_index in
      let single =
        λ (x : ℕ) (j k : ℕ) (e : ix.find app.map_index j ≡ some x)
            (f : ix.find app.map_index k ≡ some x).
          sym (ids j x e) ∙ ids k x f in
      let (all, out, queues, table) = traverse_loop-emptied l app (λ x. walk.once x (single x)) in
      (
        λ k x e. all x ∙ rw (walk.each k x e) refl,
        λ x never. elim (Bool-cases (has x l)) [
          | inl given ↦ let (k, e) = walk.keyed x given in absurd (never k e)
          | inr out_of ↦ all x ∙ rw out_of refl
        ],
        out,
        queues,
        table,
      )

  -- The queue of operations and the state of the map that the table has under an id, or those of a
  -- map `m` that is made for it.
  abbrev pub waiting : App T → Option ℕ → List Text
  waiting app none = []
  waiting app (some x) = app.in_q x

  abbrev pub map_or : App T → MapState T → Option ℕ → MapState T
  map_or app m none = m
  map_or app m (some x) = app.maps x

  -- A message that is JSON and names a map, for which map_create_clone would give a map of that id:
  -- onMessage returns, and the table then has a map under the id, whose queue of operations ends
  -- with the message. Before the message stands the queue of the map that the table had, or nothing
  -- if it had none and the new map was made. The queues of the other maps stay.
  pub on_message-waiting :
      (J : Type 0) ⦃js : Json J⦄ (clone : Text → Option (MapState T)) (app : App T) (str : Text)
      (root obj : J) (map_hexid : Text) (m : MapState T)
      → js.loads str ≡ some root
      → js.object_get root key_map_id ≡ some obj
      → js.string obj ≡ some map_hexid
      → clone map_hexid ≡ some m
      → m.id ≡ hex2id32 map_hexid
      → (app' : App T) × (x : ℕ) × (on_message J clone app str ≡ some app')
        × (map_index_get app' (hex2id32 map_hexid) ≡ some x)
        × (app'.in_q x ≡ waiting app (map_index_get app (hex2id32 map_hexid)) ++ str ∷ [])
        × (app'.maps x ≡ map_or app m (map_index_get app (hex2id32 map_hexid)))
        × ((y : ℕ) → (x == y) ≡ false → app'.in_q y ≡ app.in_q y)
  unfolding on_message map_for map_index_get map_index_put
  on_message-waiting J' ⦃js⦄ clone app str root obj map_hexid m loaded field text cloned same =
      let id = hex2id32 map_hexid in
      elim (Option-cases (ix.find app.map_index id)) [
        | inr (x, known) ↦ (
          record app { in_q = update app.in_q x (app.in_q x ++ str ∷ []) },
          x,
          ground (arith, loaded, field, text, known),
          known,
          rw (==_self x, known) refl,
          rw known refl,
          λ y other. rw other refl,
        )
        | inl new ↦
            let x = app.map_next in
            let a : App T = record app {
              maps = update app.maps x m;
              in_q = update (update app.in_q x []) x (str ∷ []);
              map_index = ix.replace app.map_index id x;
              map_next = x + 1;
            } in
            (
              a,
              x,
              ground (arith, loaded, field, text, new, cloned, ==_self x, same),
              ix.find-replace app.map_index id x id ∙ rw (==_self id) refl,
              rw (==_self x, new) refl,
              rw (==_self x, new) refl,
              λ y other. rw other refl,
            )
      ]
