-- ===== src/View.antt =====
-- src/vbranch.c, src/view.c and the vbranch lists of src/branch.c: the views that overlay a tree.
--
-- A vbranch is a node of a view over one branch. The vbranches and the views have heaps of their
-- own beside that of the branches, and a new vbranch takes the address `vnext`. time_updated and
-- the pointer from a view to its map are left out: no operation here reads them.
pub mod Frame
pub mod Stored
pub mod Mirror
pub mod Expand
pub mod Lists
pub mod Childs
use treedb.Prelude.{
  ℕ, zero, suc, ◌+◌, ◌-◌, ◌%◌, Bool, true, false, Option, none, some, List, [], ◌∷◌, ◌++◌, ◌==◌,
  leb, ltb, if◌then◌else◌, ◌>>=◌, length, take, get_elem?, is_ptr,
}
use treedb.Prelude.Int.{ℤ, pos, negsuc}
use treedb.Index.{Index}
use treedb.Branch.{
  Branch, Branches, elems, update, u16_mod, u32_mod, clamp_pos, fill, keep, pos_loop,
  branch_get_pos,
}

-- `vbranch_t`; child_n is an int, which stays above 0 here.
pub record Vbranch : Type 0 where
  pub branch : Option ℕ
  pub visible : Bool
  pub parent : Option ℕ
  pub child_list : Option (List ℕ)
  pub child_n : ℕ
  pub view : Option ℕ

abbrev pub Vbranches : Type 0
Vbranches = ℕ → Vbranch

-- `view_t`.
pub record View (T : Type 0) : Type 0 where
  pub id : ℕ
  pub vbranch : Option ℕ
  pub vbranch_index : T

-- The heaps that the operations on views share.
pub record World (T : Type 0) : Type 0 where
  pub branches : Branches
  pub vbranches : Vbranches
  pub vnext : ℕ
  pub views : ℕ → View T

-- The block that calloc makes.
abbrev pub blank_vbranch : Vbranch
blank_vbranch = record {
  branch = none;
  visible = false;
  parent = none;
  child_list = none;
  child_n = 0;
  view = none;
}

-- The new array of branch_attach_vbranch, from the `n` entries of the old one.
unfoldable pub attach_list : ℕ → List ℕ → ℕ → Option (List ℕ)
attach_list n l vb =
    if n == 0 then some (vb ∷ []) else if leb n (length l) then some (take n l ++ vb ∷ []) else none

abbrev pub set_vbranch_list : Branches → ℕ → List ℕ → ℕ → Branches
set_vbranch_list h b l n =
    update h b
      (record (h b) { content = record ((h b).content) { vbranch_list = l; vbranch_n = n } })

-- The new array of branch_detach_vbranch: it has n - 1 places.
unfoldable pub detach_list : ℕ → List ℕ → ℕ → Option (List ℕ)
unfolding keep
detach_list n l vb = keep n l vb >>= λ kept. if leb (length kept) (n - 1) then some kept else none

-- The new child array of vbranch_add, whose copying loop is that of branch_add. The place is that of
-- the branch among the childs of its parent.
unfoldable pub vchilds_with : Vbranch → ℕ → Option ℤ → Option (List ℕ)
vchilds_with parent current at =
    if parent.child_n == 0
    then some (current ∷ [])
    else at >>= λ k.
        fill (parent.child_n + 2) 0 (elems parent.child_list) current (clamp_pos k parent.child_n)
          (parent.child_n + 1)

unfoldable pub vbranch_get_pos : Vbranches → ℕ → Option ℤ
vbranch_get_pos v vb = elim ((v vb).parent) [
  | none ↦ none
  | some p ↦ pos_loop (v p).child_n 0 (elems (v p).child_list) vb
]

-- The first of `n` vbranches in `l` that is of the branch `b`.
unfoldable pub find_child : Vbranches → ℕ → List ℕ → ℕ → Option (Option ℕ)
find_child v zero l b = some none
find_child v (suc n) [] b = none
find_child v (suc n) (vb ∷ l) b =
    let rest = find_child v n l b in
    elim (is_ptr (v vb).branch b) [ true ↦ some (some vb) | false ↦ rest ]

module _ {T : Type 0} ⦃ix : Index T⦄ where
  unfoldable pub branch_attach_vbranch : World T → ℕ → ℕ → Option (World T)
  unfolding attach_list
  branch_attach_vbranch w b vb =
      let c = (w.branches b).content in
      attach_list c.vbranch_n c.vbranch_list vb >>= λ l. some (record w {
        branches = set_vbranch_list w.branches b l ((c.vbranch_n + 1) % u32_mod);
        vbranches = update w.vbranches vb (record (w.vbranches vb) { branch = some b });
      })

  unfoldable pub branch_detach_vbranch : World T → ℕ → Option (World T)
  unfolding detach_list
  branch_detach_vbranch w vb = elim ((w.vbranches vb).branch) [
    | none ↦ none
    | some b ↦
        let c = (w.branches b).content in
        detach_list c.vbranch_n c.vbranch_list vb >>= λ l. some (record w {
          branches = set_vbranch_list w.branches b l ((c.vbranch_n + (u32_mod - 1)) % u32_mod);
          vbranches = update w.vbranches vb (record (w.vbranches vb) { branch = none });
        })
  ]

  unfoldable pub vbranch_index_put : World T → ℕ → ℕ → Option (World T)
  vbranch_index_put w view vb = (w.vbranches vb).branch >>= λ b.
      let v = w.views view in
      some (record w {
        views =
            update w.views view
              (record v { vbranch_index = ix.replace v.vbranch_index (w.branches b).id vb });
      })

  unfoldable pub vbranch_index_get : World T → ℕ → ℕ → Option ℕ
  vbranch_index_get w view id = ix.find (w.views view).vbranch_index id

  unfoldable pub vbranch_index_remove : World T → ℕ → ℕ → World T
  vbranch_index_remove w view id =
      let v = w.views view in
      record w {
        views = update w.views view (record v { vbranch_index = ix.delete v.vbranch_index id });
      }

  -- The place is read only if the parent has childs.
  unfoldable pub vbranch_add : World T → ℕ → ℕ → Option (World T)
  unfolding vchilds_with
  vbranch_add w current parent =
      let v1 = update w.vbranches current (record (w.vbranches current) { parent = some parent }) in
      vchilds_with (v1 parent) current ((v1 current).branch >>= branch_get_pos w.branches) >>= λ l.
      some (record w {
        vbranches =
            update v1 parent
              (record (v1 parent) { child_list = some l; child_n = (v1 parent).child_n + 1 });
      })

  -- `b` leaves the childs of `p`. A parent without childs, which would be left with child_n = -1, is
  -- taken for a fault.
  unfoldable pub drop_vchild : World T → ℕ → ℕ → Option (World T)
  unfolding keep
  drop_vchild w b p =
      let n = (w.vbranches p).child_n in
      keep n (elems (w.vbranches p).child_list) b >>= λ kept.
      if ltb (length kept) n
      then (let v1 =
            update w.vbranches p
              (record (w.vbranches p) { child_list = some kept; child_n = n - 1 }) in
          some (record w { vbranches = update v1 b (record (v1 b) { parent = none }) }))
      else none

  unfoldable pub vbranch_detach : World T → ℕ → Option (World T)
  unfolding drop_vchild
  vbranch_detach w b = elim ((w.vbranches b).parent) [ none ↦ some w | some p ↦ drop_vchild w b p ]

  -- The blocks that expand and the walks down to a branch make: a vbranch of `b` in `view`.
  unfoldable pub new_child : World T → ℕ → Option ℕ → Option ℕ → Option (World T × ℕ)
  unfolding vbranch_index_put branch_attach_vbranch
  new_child w b parent view =
      let vb = w.vnext in
      let w1 = record w {
        vbranches =
            update w.vbranches vb
              (record blank_vbranch { branch = some b; parent = parent; view = view });
        vnext = vb + 1;
      } in
      (view >>= λ u. vbranch_index_put w1 u vb) >>= λ w2.
      branch_attach_vbranch w2 b vb >>= λ w3. some (w3, vb)

  -- The body of that loop, for the vbranch that was found.
  unfoldable pub child_for : World T → Option ℕ → ℕ → ℕ → Option ℕ → Option (World T × ℕ)
  unfolding new_child
  child_for w (some v) c vb view = some (w, v)
  child_for w none c vb view = new_child w c (some vb) view

  -- The loop of expand: `left` rounds over the childs `cl` of the branch.
  unfoldable pub expand_loop :
      ℕ → List ℕ → World T → ℕ → Option ℕ → ℕ → List ℕ → Option (World T × List ℕ)
  unfolding find_child child_for
  expand_loop zero cl w vb view old_n old = some (w, [])
  expand_loop (suc left) [] w vb view old_n old = none
  expand_loop (suc left) (c ∷ cl) w vb view old_n old =
      find_child w.vbranches old_n old c >>= λ found. child_for w found c vb view >>= λ r.
      expand_loop left cl r.0 vb view old_n old >>= λ q. some (q.0, r.1 ∷ q.1)

  -- The array under construction is not read before the loop is over, so it is written at the end.
  unfoldable pub expand : World T → ℕ → Option (World T)
  unfolding expand_loop
  expand w vb = (w.vbranches vb).branch >>= λ b. elim ((w.branches b).child_list) [
    | none ↦ some w
    | some cl ↦
        let n = (w.branches b).child_n in
        expand_loop n cl w vb (w.vbranches vb).view (w.vbranches vb).child_n
          (elems (w.vbranches vb).child_list)
        >>= λ r. some (record (r.0) {
          vbranches =
              update (r.0).vbranches vb
                (record ((r.0).vbranches vb) { child_list = some (r.1); child_n = n });
        })
  ]
