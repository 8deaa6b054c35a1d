-- ===== src/Session/Init.antt =====
-- The life of a view: view_create, view_create_clone and view_destroy of src/view.c, and
-- map_create_view and map_init_view of src/map.c.
--
-- What the full-text index finds for a query, and the table of notes for a note, are arguments.
use treedb.Prelude.{
  ℕ, ◌+◌, Bool, true, false, Option, none, some, List, [], ◌∷◌, ◌&&◌, ◌||◌, ◌==◌, if◌then◌else◌,
  ◌>>=◌, length,
}
use treedb.Codec.Hex.{id2hex64}
use treedb.Index.{Index}
use treedb.Branch.{Text, elems, update}
use treedb.Store.{branch_index_get}
use treedb.View.{Vbranches, new_child}
use treedb.Walk.{each, view_get_vbranch, view_expand_to, view_vbranch_clone, view_destroy_vbranch}
use treedb.Message.{map_init, vbranch_to_json}
use treedb.Search.{search_find, search_find2}
use treedb.Session.{MapState, world, put, push, up_fuel, down_fuel, view_hexid}
use treedb.Session.Show.{set_visible, vbranch_make_visible_path}

-- Does `s` begin with `t`?
unfoldable pub begins : Text → Text → Bool
begins s [] = true
begins [] (d ∷ t) = false
begins (c ∷ s) (d ∷ t) = (c == d) && begins s t

-- `strstr (s, t)` is not NULL.
unfoldable pub contains : Text → Text → Bool
unfolding begins
contains [] t = begins [] t
contains (c ∷ s) t = begins (c ∷ s) t || contains s t

abbrev pub note_current : Text
note_current =
    b'n' ∷ b'o' ∷ b't' ∷ b'e' ∷ b':' ∷ b'c' ∷ b'u' ∷ b'r' ∷ b'r' ∷ b'e' ∷ b'n' ∷ b't' ∷ []

-- The childs of the root's vbranch become visible.
unfoldable pub show_childs : ℕ → List ℕ → Vbranches → Option Vbranches
unfolding each
show_childs n l v = each (λ c v'. some (set_visible v' c true)) n l v

module _ {T : Type 0} ⦃ix : Index T⦄ where
  unfoldable pub view_index_put : MapState T → ℕ → MapState T
  view_index_put m view = record m { view_index = ix.replace m.view_index (m.views view).id view }

  unfoldable pub view_index_get : MapState T → ℕ → Option ℕ
  view_index_get m id = ix.find m.view_index id

  unfoldable pub view_index_remove : MapState T → ℕ → MapState T
  view_index_remove m id = record m { view_index = ix.delete m.view_index id }

  -- The new view is at the address `view_next` of the map before.
  unfoldable pub view_create : MapState T → ℕ → MapState T
  unfolding view_index_put
  view_create m id =
      view_index_put
        (record m {
          views =
              update m.views m.view_next
                (record { id = id; vbranch = none; vbranch_index = ix.create });
          view_next = m.view_next + 1;
        })
        m.view_next

  abbrev pub set_root : MapState T → ℕ → ℕ → MapState T
  set_root m view vb = record m {
    views = update m.views view (record (m.views view) { vbranch = some vb });
  }

  unfoldable pub view_create_clone : MapState T → ℕ → ℕ → Option (MapState T)
  unfolding view_create
  view_create_clone m view id =
      let m1 = view_create m id in
      (m1.views view).vbranch >>= λ root.
      view_vbranch_clone (down_fuel m1) (world m1) root none m.view_next >>= λ r.
      some (set_root (put m1 (r.0)) m.view_next (r.1))

  unfoldable pub view_destroy : MapState T → ℕ → Option (MapState T)
  unfolding view_index_remove
  view_destroy m view = (m.views view).vbranch >>= λ root.
      view_destroy_vbranch (down_fuel m) (world m) root >>= λ w.
      let m1 = put m w in some (view_index_remove m1 (m1.views view).id)

  -- A view with a vbranch of the root.
  unfoldable pub map_create_view : MapState T → ℕ → Option (MapState T)
  unfolding view_create new_child
  map_create_view m view_id =
      let m1 = view_create m view_id in
      new_child (world m1) m1.branch none (some m.view_next) >>= λ r.
      some (set_root (put m1 (r.0)) m.view_next (r.1))

  -- Expand a view down to a branch and make the way there visible.
  unfoldable pub show_branch : ℕ → ℕ → MapState T → Option (MapState T)
  unfolding vbranch_make_visible_path
  show_branch view b m = view_expand_to (up_fuel m) (world m) view b false >>= λ r.
      let m1 = put m (r.0) in
      view_get_vbranch (world m1) (some view) b >>= λ found. found >>= λ vb.
      vbranch_make_visible_path (down_fuel m1) m1.vbranches vb >>= λ v.
      some (record m1 { vbranches = v })

  -- show_branch for an id, if the index has it.
  unfoldable pub show_id : ℕ → ℕ → MapState T → Option (MapState T)
  unfolding show_branch
  show_id view id m = elim (branch_index_get m.store id) [
    | none ↦ some m
    | some b ↦ show_branch view b m
  ]

  unfoldable pub show_all :
      {A : Type 0}
      → (A → MapState T → Option (MapState T))
      → List A
      → MapState T
      → Option (MapState T)
  show_all f [] m = some m
  show_all f (x ∷ l) m = f x m >>= λ m1. show_all f l m1

  -- The branch that a search starts from.
  unfoldable pub filter_branch : MapState T → ℕ → ℕ
  filter_branch m branch_id = elim (branch_index_get m.store branch_id) [
    | none ↦ m.branch
    | some b ↦ b
  ]

  -- Lines 1004 to 1081, with the rows for the query and for the note.
  unfoldable pub show_found : ℕ → ℕ → Text → ℕ → List ℕ → List ℕ → MapState T → Option (MapState T)
  unfolding contains filter_branch show_branch show_all
  show_found view branch_id query doc_id rows note_rows m =
      if length query == 0
      then some m
      else if contains query note_current
      then (if doc_id == 0
          then some m
          else (show_branch view m.branch m >>= λ m1.
              search_find2 m1.store note_rows 30 >>= λ l. show_all (show_branch view) l m1))
      else (let b = filter_branch m branch_id in
          show_branch view b m >>= λ m1.
          search_find m1.store (m1.store.branches b).id rows 30 >>= λ l.
          show_all (show_branch view) l m1)

  -- The first block of map_init_view, for a request that names branches.
  unfoldable pub init_at :
      MapState T → ℕ → ℕ → Text → ℕ → List ℕ → List ℕ → List ℕ → Option (MapState T)
  unfolding map_create_view show_id show_found show_all
  init_at m view_id branch_id query doc_id endpoint_ids rows note_rows =
      let view = m.view_next in
      map_create_view m view_id >>= λ m1. show_id view branch_id m1 >>= λ m2.
      show_found view branch_id query doc_id rows note_rows m2 >>= λ m3.
      show_all (show_id view) endpoint_ids m3

  -- The second block, which opens the root.
  unfoldable pub init_root : MapState T → ℕ → Option (MapState T)
  unfolding map_create_view show_childs
  init_root m view_id =
      let view = m.view_next in
      map_create_view m view_id >>= λ m1. (m1.views view).vbranch >>= λ root.
      let m2 = record m1 { vbranches = set_visible m1.vbranches root true } in
      view_expand_to (up_fuel m2) (world m2) view m2.branch true >>= λ r.
      let m3 = put m2 (r.0) in
      show_childs (m3.vbranches root).child_n (elems (m3.vbranches root).child_list) m3.vbranches
      >>= λ v. some (record m3 { vbranches = v })

  -- The message mapInit.
  unfoldable pub send_init : MapState T → ℕ → ℕ → Option (MapState T)
  unfolding view_hexid
  send_init m view req_id = (m.views view).vbranch >>= λ root.
      vbranch_to_json (down_fuel m) (world m) root >>= λ map.
      view_hexid m (some view) >>= λ v. some (push m (map_init v (id2hex64 req_id) map))

  -- A view of the id that is there already is destroyed.
  unfoldable pub close_view : MapState T → ℕ → Option (MapState T)
  unfolding view_destroy
  close_view m view_id = elim (view_index_get m view_id) [
    | none ↦ some m
    | some view ↦ view_destroy m view
  ]

  unfoldable pub map_init_view :
      MapState T → ℕ → ℕ → ℕ → Text → ℕ → List ℕ → List ℕ → List ℕ → Option (MapState T)
  unfolding close_view init_at init_root send_init
  map_init_view m view_id req_id branch_id query doc_id endpoint_ids rows note_rows =
      close_view m view_id >>= λ m1.
      (if (length query == 0) && (doc_id == 0) && (length endpoint_ids == 0) && (branch_id == 0)
        then init_root m1 view_id
        else init_at m1 view_id branch_id query doc_id endpoint_ids rows note_rows)
      >>= λ m2. send_init m2 m1.view_next req_id
