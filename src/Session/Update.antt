-- ===== src/Session/Update.antt =====
-- update, insert_path, insert_in_path and move_to_path (src/map.c:311).
--
-- strcasecmp folds the ASCII letters, as in the C locale.
use treedb.Prelude.{
  ℕ, zero, suc, ◌+◌, ◌-◌, ◌/◌, ◌%◌, Bool, true, false, Option, none, some, List, [], ◌∷◌, ◌++◌,
  ◌&&◌, ◌==◌, leb, ltb, if◌then◌else◌, ◌>>=◌,
}
use treedb.Codec.Hex.{hex2id64, id2hex64}
use treedb.Codec.Utf8.{utf8slice}
use treedb.Index.{Index}
use treedb.Branch.{Text, Branch, Branches, parent_of, kids}
use treedb.Branch as Tree
use treedb.Io.{io_save_branch_data}
use treedb.Store.{branch_index_get}
use treedb.Walk.{same_ptr}
use treedb.Message.{map_update, mark_of}
use treedb.Session.{MapState, push, view_hexid}
use treedb.Session.Insert.{each_vbranch, insert}
use treedb.Session.Move.{move}

-- The new content of the branch; a text that is NULL stays.
abbrev pub rewritten : Branch → Option Text → ℕ → Branch
rewritten b none document = record b { content = record (b.content) { note_id = document } }
rewritten b (some t) document = record b {
  content = record (b.content) { text = some (utf8slice t 5000); note_id = document };
}

-- tolower.
unfoldable pub lower : ℕ → ℕ
lower c = if leb b'A' c && leb c b'Z' then c + 32 else c

-- `!strcasecmp(s, t)`.
unfoldable pub same_text : Text → Text → Bool
unfolding lower
same_text [] [] = true
same_text [] (d ∷ t) = false
same_text (c ∷ s) [] = false
same_text (c ∷ s) (d ∷ t) = (lower c == lower d) && same_text s t

-- The loop that looks for a child of the name among the first `n`; a text that is NULL stops it.
unfoldable pub find_name : Branches → ℕ → List ℕ → Text → Option (Option ℕ)
unfolding same_text
find_name h zero cl name = some none
find_name h (suc n) [] name = none
find_name h (suc n) (c ∷ cl) name =
    let rest = find_name h n cl name in
    (h c).content.text >>= λ t. if same_text name t then some (some c) else rest

-- The upper case digits of %08X, from the highest.
unfoldable pub upper_digits : ℕ → ℕ → List ℕ
upper_digits zero n = []
upper_digits (suc k) n =
    upper_digits k (n / 16)
    ++ (if ltb (n % 16) 10 then b'0' + n % 16 else b'A' + (n % 16 - 10)) ∷ []

-- The id that insert_path makes for a new branch.
unfoldable pub path_id : ℕ → ℕ
unfolding upper_digits
path_id branch_n = hex2id64 (upper_digits 8 1 ++ upper_digits 8 branch_n)

module _ {T : Type 0} ⦃ix : Index T⦄ where
  -- The body of the loop of update over the vbranches of the branch.
  unfoldable pub send_update : Option ℕ → ℕ → ℕ → ℕ → MapState T → Option (MapState T)
  unfolding view_hexid
  send_update view b branch_id vb m =
      let of_view = (m.vbranches vb).view in
      let c = (m.store.branches b).content in
      if same_ptr of_view view
      then some m
      else (view_hexid m of_view >>= λ v.
          some (push m (map_update v (id2hex64 branch_id) c.text (mark_of c.note_id))))

  unfoldable pub update_found :
      MapState T → Option ℕ → ℕ → ℕ → Option Text → ℕ → Option (MapState T)
  unfolding each_vbranch send_update
  update_found m view b branch_id branch_text document =
      let h = m.store.branches in
      let s = record (m.store) {
        branches = Tree.update h b (rewritten (h b) branch_text document);
      } in
      each_vbranch (send_update view b branch_id) b (record m { store = s }) >>= λ m1.
      io_save_branch_data m1.store.branches m1.store.disk b >>= λ d.
      some (record m1 { store = record (m1.store) { disk = d } })

  -- The flag is the value that update returns.
  unfoldable pub update :
      MapState T → Option ℕ → ℕ → Option Text → ℕ → ℕ → Option (MapState T × Bool)
  unfolding update_found
  update m view branch_id branch_text mark document = elim (branch_index_get m.store branch_id) [
    | none ↦ some (m, false)
    | some b ↦ update_found m view b branch_id branch_text document >>= λ m1. some (m1, true)
  ]

  -- The loop of insert_path: `parent` is NULL once an insertion was refused.
  unfoldable pub path_loop : List Text → MapState T → Option ℕ → Option (MapState T × Option ℕ)
  unfolding find_name insert path_id
  path_loop [] m parent = some (m, parent)
  path_loop (name ∷ names) m none = some (m, none)
  path_loop (name ∷ names) m (some p) =
      find_name m.store.branches (m.store.branches p).child_n (kids m.store.branches p) name
      >>= λ found.
          (elim found as (λ o. Option (MapState T × Option ℕ)) [
            | some child ↦ some (m, some child)
            | none ↦
                insert m none (m.store.branches p).id (path_id m.store.branch_n) 999999 name 0 0
          ])
          >>= λ r. path_loop names (r.0) (r.1)

  unfoldable pub insert_path : MapState T → ℕ → List Text → Option (MapState T × Option ℕ)
  unfolding path_loop
  insert_path m parent_id names =
      elim (if parent_id == 0 then some m.branch else branch_index_get m.store parent_id) [
        | none ↦ some (m, none)
        | some p ↦ path_loop names m (some p)
      ]

  unfoldable pub insert_in_path :
      MapState T → ℕ → List Text → ℕ → Text → ℕ → ℕ → Option (MapState T × Option ℕ)
  unfolding insert_path
  insert_in_path m parent_id names branch_id branch_text mark document =
      insert_path m parent_id names >>= λ r. elim (r.1) [
        | none ↦ some (r.0, none)
        | some p ↦
            insert (r.0) none ((r.0).store.branches p).id branch_id 999999 branch_text mark document
      ]

  -- The branch moves if it is there and has a parent.
  unfoldable pub move_below : MapState T → ℕ → ℕ → Option (MapState T)
  unfolding move
  move_below m p branch_id = elim (branch_index_get m.store branch_id) [
    | none ↦ some m
    | some b ↦ elim (parent_of m.store.branches b) [
      | none ↦ some m
      | some q ↦ move m none (m.store.branches p).id (m.store.branches q).id branch_id 9999 >>= λ r.
          some (r.0)
    ]
  ]

  -- It returns NULL always.
  unfoldable pub move_to_path : MapState T → ℕ → List Text → ℕ → Option (MapState T)
  unfolding insert_path move_below
  move_to_path m parent_id names branch_id = insert_path m parent_id names >>= λ r. elim (r.1) [
    | none ↦ some (r.0)
    | some p ↦ move_below (r.0) p branch_id
  ]
