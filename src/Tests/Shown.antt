-- ===== src/Tests/Shown.antt =====
-- A map over the tree of Tests/Tree.antt with one view, which shows the root, and without any; and
-- the theorems on what views and clients see at these maps.
use treedb.Prelude.{
  List, ℕ, ◌+◌, ◌<◌, ◌^◌, ◌≡◌, refl, Bool, true, false, Option, none, some, [], ◌∷◌, ◌++◌, arith,
  ◌==◌, if◌then◌else◌, take,
}
use treedb.Branch.{Text}
use treedb.Index.{FunTable, fun_index}
use treedb.Branch.{Branches}
use treedb.Store.{Store}
use treedb.View.{Vbranches, World, View, blank_vbranch, set_vbranch_list}
use treedb.Map as Map
use treedb.Map.Requests.{IsMoveOf, IsInsertOf}
use treedb.Search.{search_find}
use treedb.Search.Hits.{hits, search_find-hits}
use treedb.Session.{MapState}
use treedb.Session.Bare.{move-IsMoveOf_bare}
use treedb.Session.BareDelete.{IsDeleteOf, delete-IsDeleteOf}
use treedb.Session.Delete.{delete}
use treedb.Message.{Message}
use treedb.Session.BareInsert.{insert-IsInsertOf_bare}
use treedb.Session.Insert.{insert}
use treedb.Session.Move.{move}
use treedb.Session.Paths.{path_id_lem}
use treedb.Session.Show.{map_visible, map_invisible}
use treedb.Session.Told.{told, IsTextOf, with_text, update-told}
use treedb.Session.Update.{path_id, update}
use treedb.Session.Visible.{named, rest_of, map_visible-named}
use treedb.Tests.Tree.{tree, tree_store, tree_store-IsStored}

-- The tree with one vbranch over its root.
abbrev shown_tree : Branches
shown_tree = set_vbranch_list tree 0 (0 ∷ []) 1

abbrev over_root : Vbranches
over_root x =
    if x == 0 then record blank_vbranch { branch = some 0; view = some 0 } else blank_vbranch

abbrev one_view : ℕ → View FunTable
one_view v = record {
  id = 6;
  vbranch = some 0;
  vbranch_index = λ k. if k == 5 then some 0 else none;
}

abbrev root_world : World FunTable
root_world = record { branches = shown_tree; vbranches = over_root; vnext = 1; views = one_view }

search_find-hits_example :
    search_find tree_store 5 (9 ∷ 3 ∷ 7 ∷ []) 1
    ≡ some (take 1 (hits tree_store-IsStored 5 (9 ∷ 3 ∷ 7 ∷ [])))
search_find-hits_example = search_find-hits tree_store-IsStored 5 (9 ∷ 3 ∷ 7 ∷ []) 1

abbrev shown_map : MapState FunTable
shown_map = record {
  store = record tree_store { branches = shown_tree };
  vbranches = over_root;
  vnext = 1;
  views = one_view;
  view_next = 1;
  view_index = λ k. if k == 6 then some 0 else none;
  id = 4;
  branch = 0;
  out_q = [];
}

map_visible-named_example :
    ((x : ℕ)
      → (map_visible shown_map 0 (7 ∷ 5 ∷ [])).vbranches x ≡ (
          if named shown_map 0 (7 ∷ 5 ∷ []) x
          then record (over_root x) { visible = true }
          else over_root x))
    × ((x : ℕ)
        → (map_invisible shown_map 0 (7 ∷ 5 ∷ [])).vbranches x ≡ (
            if named shown_map 0 (7 ∷ 5 ∷ []) x
            then record (over_root x) { visible = false }
            else over_root x))
    × (rest_of (map_visible shown_map 0 (7 ∷ 5 ∷ [])) ≡ rest_of shown_map)
    × (rest_of (map_invisible shown_map 0 (7 ∷ 5 ∷ [])) ≡ rest_of shown_map)
map_visible-named_example = map_visible-named shown_map 0 (7 ∷ 5 ∷ [])

update-told_example :
    (m : MapState FunTable) × (t : Text) × (update shown_map none 5 (some (b'n' ∷ [])) 0 3
      ≡ some (m, true))
    × IsTextOf (some (b'r' ∷ [])) (some (b'n' ∷ [])) t
    × ((x : ℕ)
        → m.store.branches x ≡ (if 0 == x then with_text (shown_tree x) t 3 else shown_tree x))
    × (m.out_q ≡ [] ++ told m none 0 5 (0 ∷ []))
    × (m.store.disk.rows ≡ record { rowid = 5; note_id = 3; text = t } ∷ [])
    × (m.vbranches ≡ over_root)
update-told_example =
    update-told shown_map none 5 (some (b'n' ∷ [])) 0 3 0 refl (omega arith) (λ x m. ground arith)
      (λ e. absurd cc)

path_id_lem_example :
    (path_id 12 ≡ 2 ^ 32 + 12) × ((k : ℕ) → k < 2 ^ 32 → path_id k ≡ path_id 12 → k ≡ 12)
path_id_lem_example = path_id_lem 12 (omega arith)

-- The map without a view.
abbrev bare_map : MapState FunTable
bare_map = record shown_map { store = tree_store }

move-IsMoveOf_bare_example :
    (t : Store FunTable) × (r : Bool) × (Map.move tree_store 7 5 9 0 ≡ some (t, r))
    × (move bare_map none 7 5 9 0 ≡ some (record bare_map { store = t }, r))
    × IsMoveOf tree_store-IsStored t r
move-IsMoveOf_bare_example =
    move-IsMoveOf_bare bare_map tree_store-IsStored 7 5 9 0 refl (λ npb e. ground arith)

insert-IsInsertOf_bare_example :
    (t : Store FunTable) × (o : Option ℕ) × (Map.insert tree_store 5 11 1 (b'n' ∷ []) 0 0
      ≡ some (t, o))
    × (insert bare_map none 5 11 1 (b'n' ∷ []) 0 0 ≡ some (record bare_map { store = t }, o))
    × IsInsertOf tree_store-IsStored t o 5 11
insert-IsInsertOf_bare_example =
    insert-IsInsertOf_bare bare_map tree_store-IsStored 5 11 1 (b'n' ∷ []) 0 0 refl refl
      (omega arith) (λ pb e. (ground arith, ground arith))

delete-IsDeleteOf_example :
    (t : Store FunTable) × (q : List Message) × (delete bare_map none 7
      ≡ some (record bare_map { store = t; out_q = q }))
    × IsDeleteOf bare_map tree_store-IsStored 7 t q
delete-IsDeleteOf_example =
    delete-IsDeleteOf bare_map tree_store-IsStored 7 none refl (λ b e. ground arith)
