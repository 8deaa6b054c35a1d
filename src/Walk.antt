-- ===== src/Walk.antt =====
-- src/view.c above expand: opening a view below a vbranch and down to a branch, cloning a view and
-- taking it apart.
--
-- The vbranch of a branch in a view is looked for by its pointer to the view. A new vbranch is put
-- into the index and into the list of its branch as soon as it is made; the source writes some of
-- its fields first, which neither of the two reads.
pub mod Hang
pub mod Rows
pub mod Hung
pub mod Opened
pub mod Find
pub mod Grow
pub mod Keeps
pub mod Reach
pub mod Show
use treedb.Prelude.{
  ℕ, zero, suc, ◌+◌, ◌-◌, Bool, true, false, Option, none, some, List, [], ◌∷◌, ◌&&◌, ◌==◌, ltb,
  if◌then◌else◌, ◌>>=◌, length, get_elem?, is_ptr,
}
use treedb.Index.{Index}
use treedb.Branch.{Branches, elems, update, parent_of}
use treedb.View.{Vbranch, Vbranches, World, branch_detach_vbranch, vbranch_add, new_child, expand}

-- Are two nullable pointers the same?
abbrev pub same_ptr : Option ℕ → Option ℕ → Bool
same_ptr none none = true
same_ptr none (some q) = false
same_ptr (some p) q = is_ptr q p

abbrev pub not_null : {A : Type 0} → Option A → Bool
not_null none = false
not_null (some a) = true

-- The loops that look for the vbranch of a view in the first `n` entries of a branch's list.
unfoldable pub find_view : Vbranches → ℕ → List ℕ → Option ℕ → Option (Option ℕ)
find_view v zero l view = some none
find_view v (suc n) [] view = none
find_view v (suc n) (vb ∷ l) view =
    let rest = find_view v n l view in
    elim (same_ptr (v vb).view view) [ true ↦ some (some vb) | false ↦ rest ]

-- A for loop over the first `n` entries of an array that its body does not change.
unfoldable pub each : {S : Type 0} → (ℕ → S → Option S) → ℕ → List ℕ → S → Option S
each f zero l s = some s
each f (suc n) [] s = none
each f (suc n) (x ∷ l) s = f x s >>= λ t. each f n l t

-- `for (i = 0; i < vb->child_n; i++)` over the childs of a vbranch, both read anew in each round;
-- `left` rounds may come.
unfoldable pub each_child :
    {T : Type 0} → (World T → ℕ → Option (World T)) → ℕ → ℕ → World T → ℕ → Option (World T)
each_child f zero i w vb = if ltb i (w.vbranches vb).child_n then none else some w
each_child f (suc left) i w vb = elim (ltb i (w.vbranches vb).child_n) [
  | false ↦ some w
  | true ↦ get_elem? (elems (w.vbranches vb).child_list) i >>= λ c.
      f w c >>= λ w1. each_child f left (i + 1) w1 vb
]

abbrev pub set_vchilds : Vbranches → ℕ → List ℕ → Vbranches
set_vchilds v vb l = update v vb (record (v vb) { child_list = some l; child_n = length l })

abbrev pub set_vparent : Vbranches → ℕ → ℕ → Vbranches
set_vparent v vb p = update v vb (record (v vb) { parent = some p })

-- The loop that gives the vbranches `l` their parent.
unfoldable pub adopt : Vbranches → List ℕ → ℕ → Vbranches
adopt v [] p = v
adopt v (c ∷ l) p = adopt (set_vparent v c p) l p

-- `l` becomes the child list of `vb`.
unfoldable pub hang : {T : Type 0} → World T → ℕ → List ℕ → World T
unfolding adopt
hang w vb l = record w { vbranches = adopt (set_vchilds w.vbranches vb l) l vb }

module _ {T : Type 0} ⦃ix : Index T⦄ where
  unfoldable pub view_get_vbranch : World T → Option ℕ → ℕ → Option (Option ℕ)
  unfolding find_view
  view_get_vbranch w view b =
      let c = (w.branches b).content in find_view w.vbranches c.vbranch_n c.vbranch_list view

  -- Has the vbranch as many childs as its branch? The branch is read only if there is a child list.
  unfoldable pub is_open : World T → ℕ → Option Bool
  is_open w vb =
      let c = w.vbranches vb in
      if not_null c.child_list
      then (c.branch >>= λ b. some (c.child_n == (w.branches b).child_n))
      else some false

  -- `depth` is 3 - level.
  unfoldable pub view_expand : ℕ → World T → ℕ → Option (World T)
  unfolding is_open each_child
  view_expand zero w vb = some w
  view_expand (suc depth) w vb = is_open w vb >>= λ opened.
      (if opened then some w else expand w vb) >>= λ w1.
      each_child (view_expand depth) (w1.vbranches vb).child_n 0 w1 vb

  -- The childs that were made before, if any, get the vbranch over their parent.
  unfoldable pub join : World T → ℕ → Option (List ℕ) → World T
  unfolding hang
  join w vb none = w
  join w vb (some l) = hang w vb l

  -- The loop of view_expand_to over the childs of `pb`, which makes vbranches without a parent; the
  -- one over `b` gets the childs `prev` that were made before, once.
  unfoldable pub siblings :
      ℕ → List ℕ → World T → ℕ → ℕ → Option (List ℕ) → Option (World T × List ℕ)
  unfolding new_child join
  siblings zero cl w view b prev = some (w, [])
  siblings (suc left) [] w view b prev = none
  siblings (suc left) (c ∷ cl) w view b prev = new_child w c none (some view) >>= λ r.
      let given = if c == b then prev else none in
      siblings left cl (join (r.0) (r.1) given) view b (if c == b then none else prev) >>= λ q.
      some (q.0, r.1 ∷ q.1)

  -- The do loop of view_expand_to, from `b` upwards; `fuel` bounds its rounds.
  unfoldable pub climb_to : ℕ → World T → ℕ → ℕ → Option (List ℕ) → Option (World T × Option ℕ)
  unfolding view_get_vbranch siblings join
  climb_to zero w view b prev = none
  climb_to (suc fuel) w view b prev = view_get_vbranch w (some view) b >>= λ found. elim found [
    | some vb ↦ some (join w vb prev, some vb)
    | none ↦ elim (parent_of w.branches b) [
      | none ↦ none
      | some pb ↦
          siblings (w.branches pb).child_n (elems (w.branches pb).child_list) w view b prev >>= λ r.
          climb_to fuel (r.0) view pb (some (r.1))
    ]
  ]

  -- The loop at the end of view_expand_to: a new vbranch for each child of `b`.
  unfoldable pub new_childs : ℕ → List ℕ → World T → ℕ → ℕ → Option (World T × List ℕ)
  unfolding new_child
  new_childs zero cl w vb view = some (w, [])
  new_childs (suc left) [] w vb view = none
  new_childs (suc left) (c ∷ cl) w vb view = new_child w c (some vb) (some view) >>= λ r.
      new_childs left cl (r.0) vb view >>= λ q. some (q.0, r.1 ∷ q.1)

  -- The end of view_expand_to, for `with_children`.
  unfoldable pub open_childs : World T → ℕ → ℕ → Option (World T)
  unfolding view_get_vbranch new_childs
  open_childs w view b =
      let n = (w.branches b).child_n in
      if n == 0
      then some w
      else view_get_vbranch w (some view) b >>= λ found. elim found [
        | none ↦ some w
        | some vb ↦ new_childs n (elems (w.branches b).child_list) w vb view >>= λ r.
            some (record (r.0) { vbranches = set_vchilds (r.0).vbranches vb (r.1) })
      ]

  -- The part of view_expand_to above its label `done`.
  unfoldable pub reach : ℕ → World T → ℕ → ℕ → Option (World T × Option ℕ)
  unfolding climb_to
  reach fuel w view branch = elim (parent_of w.branches branch) [
    | none ↦ some (w, none)
    | some pb ↦ climb_to fuel w view branch none
  ]

  unfoldable pub view_expand_to : ℕ → World T → ℕ → ℕ → Bool → Option (World T × Option ℕ)
  unfolding reach open_childs
  view_expand_to fuel w view branch with_children = reach fuel w view branch >>= λ r.
      (if with_children then open_childs (r.0) view branch else some (r.0)) >>= λ w1. some (w1, r.1)

  -- vbranch_add of the vbranch that was made before, if there is one.
  unfoldable pub add_below : World T → Option ℕ → ℕ → Option (World T)
  unfolding vbranch_add
  add_below w none vb = some w
  add_below w (some child_vb) vb = vbranch_add w child_vb vb

  -- The do loop of view_expand_tox, which makes no siblings.
  unfoldable pub climb_tox : ℕ → World T → ℕ → ℕ → Option ℕ → Option (World T × Option ℕ)
  unfolding view_get_vbranch new_child add_below
  climb_tox zero w view b child_vb = none
  climb_tox (suc fuel) w view b child_vb = view_get_vbranch w (some view) b >>= λ found.
      elim found [
        | some vb ↦ add_below w child_vb vb >>= λ w1. some (w1, some vb)
        | none ↦ new_child w b none (some view) >>= λ r. add_below (r.0) child_vb (r.1) >>= λ w1.
            elim (parent_of w1.branches b) [
              | none ↦ some (w1, none)
              | some pb ↦ climb_tox fuel w1 view pb (some (r.1))
            ]
      ]

  unfoldable pub view_expand_tox : ℕ → World T → ℕ → ℕ → Option (World T × Option ℕ)
  unfolding climb_tox
  view_expand_tox fuel w view branch = climb_tox fuel w view branch none

  -- The loop of view_vbranch_clone over the childs, none of which is NULL.
  unfoldable pub clone_childs :
      (World T → ℕ → ℕ → Option (World T × ℕ))
      → ℕ
      → List ℕ
      → World T
      → ℕ
      → Option (World T × List ℕ)
  clone_childs clone zero l w cpvb = some (w, [])
  clone_childs clone (suc n) [] w cpvb = none
  clone_childs clone (suc n) (x ∷ l) w cpvb =
      clone w x cpvb >>= λ r. clone_childs clone n l (r.0) cpvb >>= λ q. some (q.0, r.1 ∷ q.1)

  -- view_vbranch_clone under the parent `cpvb`, if any. `fuel` bounds the depth.
  unfoldable pub view_vbranch_clone : ℕ → World T → ℕ → Option ℕ → ℕ → Option (World T × ℕ)
  unfolding new_child clone_childs
  view_vbranch_clone zero w vb cpvb new_view = none
  view_vbranch_clone (suc fuel) w vb cpvb new_view = (w.vbranches vb).branch >>= λ b.
      new_child w b cpvb (some new_view) >>= λ r.
      let w1 = record (r.0) {
        vbranches =
            update (r.0).vbranches (r.1)
              (record ((r.0).vbranches (r.1)) { visible = (w.vbranches vb).visible });
      } in
      let n = (w.vbranches vb).child_n in
      if n == 0
      then some (w1, r.1)
      else clone_childs (λ w' x p. view_vbranch_clone fuel w' x (some p) new_view) n
          (elems (w.vbranches vb).child_list) w1 (r.1)
        >>= λ q. some (record (q.0) { vbranches = set_vchilds (q.0).vbranches (r.1) (q.1) }, r.1)

  -- view_destroy_vbranch, which frees the vbranches that it leaves. `fuel` bounds the depth.
  unfoldable pub view_destroy_vbranch : ℕ → World T → ℕ → Option (World T)
  unfolding each branch_detach_vbranch
  view_destroy_vbranch zero w vb = none
  view_destroy_vbranch (suc fuel) w vb =
      each (λ c w'. view_destroy_vbranch fuel w' c) (w.vbranches vb).child_n
        (elems (w.vbranches vb).child_list) w
      >>= λ w1. branch_detach_vbranch w1 vb
