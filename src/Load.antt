-- ===== src/Load.antt =====
-- How a map comes to be: io_load_map and branch_load of src/io.c, branch_calculate of src/branch.c,
-- and the new roots of map_create_empty and map_create_test (src/map.c:1705). And the way back:
-- io_branch_walk_save and io_resave_map of src/io.c.
--
-- The records of the file that is read are a list, and what SELECT gives for an id is an argument. The
-- branch of record `i` is at the address `i`. An exit of the program is taken for a fault, and so
-- is a branch without a row, whose data stays NULL.
pub mod Back
pub mod Counts
pub mod Found
pub mod Fresh
pub mod Calculate
pub mod Pruned
pub mod Image
pub mod Kept
pub mod Loop
pub mod Made
pub mod Marks
pub mod Placed
pub mod Restored
pub mod Rounds
pub mod Tally
pub mod Walked
use treedb.Prelude.{
  ℕ, zero, suc, ◌+◌, ◌*◌, ◌%◌, ltb, Bool, true, false, Option, none, some, List, [], ◌∷◌, ◌==◌,
  if◌then◌else◌, ◌>>=◌, length, is_ptr,
}
use treedb.Index.{Index}
use treedb.Branch.{Text, Branch, Branches, elems, update, u32_mod, parent_of, kids, branch_increase}
use treedb.Io.{Bhead, Row, Disk, offset, head_of, io_save_branch_data, io_branch_new}
use treedb.Json.{all_set}
use treedb.Store.{Store, fuel_of, new_branch, branch_index_put, branch_index_get}

-- The map while it is loaded. `arrays` holds the child arrays: an entry that is as malloc made it
-- is none.
pub record Loading (T : Type 0) : Type 0 where
  pub store : Store T
  pub arrays : ℕ → List (Option ℕ)
  pub root : Option ℕ

-- A cell that is not allocated.
abbrev pub blank_branch : Branch
blank_branch = record (new_branch 0 0 [] 0) {
  content = record ((new_branch 0 0 [] 0).content) { text = none };
}

-- The array that malloc makes.
unfoldable pub unset : ℕ → List (Option ℕ)
unset zero = []
unset (suc n) = none ∷ unset n

-- The write of an entry, which must be inside the array.
unfoldable pub set_entry : List (Option ℕ) → ℕ → ℕ → Option (List (Option ℕ))
set_entry [] i b = none
set_entry (x ∷ l) zero b = some (some b ∷ l)
set_entry (x ∷ l) (suc i) b = set_entry l i b >>= λ r. some (x ∷ r)

abbrev pub my_map : Text
my_map = b'M' ∷ b'y' ∷ b' ' ∷ b'm' ∷ b'a' ∷ b'p' ∷ []

-- branch_calculate; `fuel` bounds the depth, and `up` the walks to the root.
unfoldable pub calculate_loop :
    (Branches → ℕ → Option Branches) → ℕ → List ℕ → Branches → Option Branches
calculate_loop f zero l h = some h
calculate_loop f (suc n) [] h = none
calculate_loop f (suc n) (c ∷ l) h = f h c >>= λ g. calculate_loop f n l g

unfoldable pub branch_calculate : ℕ → ℕ → Branches → ℕ → Option Branches
unfolding branch_increase calculate_loop
branch_calculate zero up h b = none
branch_calculate (suc fuel) up h b = branch_increase up h b 1 >>= λ r. elim ((r.0 b).child_list) [
  | none ↦ some (r.0)
  | some cl ↦ calculate_loop (branch_calculate fuel up) (r.0 b).child_n cl (r.0)
]

module _ {T : Type 0} ⦃ix : Index T⦄ where
  -- The body of the first loop of io_load_map, for a record that is not deleted.
  unfoldable pub make_branch : Loading T → ℕ → Bhead → Loading T
  unfolding branch_index_put unset
  make_branch l i bhead =
      let s = record (l.store) {
        branches = update l.store.branches i (record (new_branch i bhead.id [] 0) {
          content = record ((new_branch i bhead.id [] 0).content) { text = none };
          child_n = bhead.child_n;
        });
      } in
      record l { store = branch_index_put s i; arrays = update l.arrays i (unset bhead.child_n) }

  unfoldable pub make_all : List Bhead → ℕ → Loading T → Loading T
  unfolding make_branch
  make_all [] i l = l
  make_all (bhead ∷ bheads) i l =
      make_all bheads (i + 1) (if bhead.id == 0 then l else make_branch l i bhead)

  -- The branch takes its place below its parent, or becomes the root.
  unfoldable pub place_branch : Loading T → ℕ → Bhead → Option (Loading T)
  unfolding branch_index_get set_entry
  place_branch l i bhead =
      if bhead.parent_id == 0
      then some (record l { root = some i })
      else (branch_index_get l.store bhead.parent_id >>= λ p.
          set_entry (l.arrays p) bhead.place i >>= λ a.
          let h = l.store.branches in
          some (record l {
            store = record (l.store) { branches = update h i (record (h i) { parent = some p }) };
            arrays = update l.arrays p a;
          }))

  -- branch_load, with the note and the text of the row.
  unfoldable pub branch_load : (ℕ → Option (ℕ × Text)) → Loading T → ℕ → Option (Loading T)
  branch_load row l i =
      let h = l.store.branches in
      row (h i).id >>= λ r. some (record l {
        store = record (l.store) {
          branches =
              update h i (record (h i) { content = (new_branch i (h i).id (r.1) (r.0)).content });
        };
      })

  -- The second loop.
  unfoldable pub place_all :
      (ℕ → Option (ℕ × Text)) → List Bhead → ℕ → Loading T → Option (Loading T)
  unfolding place_branch branch_load
  place_all row [] i l = some l
  place_all row (bhead ∷ bheads) i l =
      (if bhead.id == 0 then some l else (place_branch l i bhead >>= λ l1. branch_load row l1 i))
      >>= λ l2. place_all row bheads (i + 1) l2

  -- The arrays go into the branches; an entry that no record filled is taken for a fault.
  unfoldable pub seal : List Bhead → ℕ → Loading T → Branches → Option Branches
  unfolding all_set
  seal [] i l h = some h
  seal (bhead ∷ bheads) i l h =
      (if bhead.id == 0
        then some h
        else (all_set (l.arrays i) >>= λ cl.
            some (update h i (record (h i) { child_list = some cl }))))
      >>= λ g. seal bheads (i + 1) l g

  -- The store is that of the map that calloc made, with the file on disk. The root may stay NULL.
  unfoldable pub io_load_map :
      (ℕ → Option (ℕ × Text)) → List Bhead → Store T → Option (Store T × Option ℕ)
  unfolding make_all place_all seal
  io_load_map row bheads s =
      let start : Loading T = record { store = s; arrays = λ x. []; root = none } in
      let made = make_all bheads 0 start in
      place_all row bheads 0 (record made {
        store = record (made.store) { branch_n = length bheads % u32_mod; next = length bheads };
      })
      >>= λ l.
          seal bheads 0 l l.store.branches >>= λ h. some (record (l.store) { branches = h }, l.root)

  -- The calls of map_load that make the tree.
  unfoldable pub load_tree : (ℕ → Option (ℕ × Text)) → List Bhead → Store T → Option (Store T × ℕ)
  unfolding io_load_map branch_calculate
  load_tree row bheads s = io_load_map row bheads s >>= λ r. r.1 >>= λ root.
      branch_calculate (fuel_of (r.0)) (fuel_of (r.0)) (r.0).branches root >>= λ h.
      some (record (r.0) { branches = h }, root)

  -- The map that calloc made, with an index.
  abbrev pub calloc_map : Disk → Store T
  calloc_map d = record {
    branches = λ x. blank_branch;
    branch_index = ix.create;
    branch_n = 0;
    disk = d;
    next = 0;
  }

  -- The root that map_create_empty and map_create_test make in a map without branches.
  unfoldable pub new_root : Store T → Store T
  unfolding branch_index_put
  new_root s =
      branch_index_put
        (record s {
          branches = update s.branches s.next (new_branch s.branch_n 1 my_map 0);
          branch_n = (s.branch_n + 1) % u32_mod;
          next = s.next + 1;
        })
        s.next

  -- map_create_empty, from the new root on.
  unfoldable pub create_empty : Store T → Option (Store T × ℕ)
  unfolding new_root branch_calculate
  create_empty s =
      let t = new_root s in
      io_branch_new t.branches t.disk s.next >>= λ d.
      branch_calculate (fuel_of t) (fuel_of t) t.branches s.next >>= λ h.
      some (record t { branches = h; disk = d }, s.next)

  -- map_create_test, whose flag `test` is set.
  unfoldable pub create_test : Store T → Option (Store T × ℕ)
  unfolding new_root branch_calculate
  create_test s =
      let t = new_root s in
      branch_calculate (fuel_of t) (fuel_of t) t.branches s.next >>= λ h.
      some (record t { branches = h; disk = record (t.disk) { test = true } }, s.next)

-- The loop of io_branch_walk_save over the childs.
unfoldable pub walk_loop : (Disk → ℕ → Option Disk) → ℕ → List ℕ → Disk → Option Disk
walk_loop f zero l d = some d
walk_loop f (suc n) [] d = none
walk_loop f (suc n) (c ∷ l) d = f d c >>= λ d1. walk_loop f n l d1

-- The record goes into the buffer of `size` bytes, as the file of `d`. `fuel` bounds the depth.
unfoldable pub io_branch_walk_save : ℕ → Branches → ℕ → Disk → ℕ → Option Disk
unfolding head_of walk_loop io_save_branch_data
io_branch_walk_save zero h size d b = none
io_branch_walk_save (suc fuel) h size d b =
    let at = (h b).findex * 20 in
    if ltb size (at + 20)
    then none
    else (head_of h b >>= λ head.
        io_save_branch_data h (record d { heads = update d.heads at head }) b >>= λ d1.
        walk_loop (io_branch_walk_save fuel h size) (h b).child_n (kids h b) d1)

-- The record that calloc makes.
abbrev pub blank_head : Bhead
blank_head = record { id = 0; parent_id = 0; place = 0; child_n = 0 }

unfoldable pub io_resave_map : {T : Type 0} → Store T → ℕ → Option (Store T)
unfolding io_branch_walk_save
io_resave_map s root =
    io_branch_walk_save (s.next + 2) s.branches (s.branch_n * 20 % u32_mod)
      (record (s.disk) { heads = λ n. blank_head }) root
    >>= λ d. some (record s { disk = d })
