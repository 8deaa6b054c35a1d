-- ===== src/Session/Bare.antt =====
-- move (src/map.c:437) where no view shows the map: it is then the change of the tree, with the same
-- checks.
use treedb.Prelude.{
  ℕ, ◌+◌, ◌<◌, ◌≡◌, refl, ap, ◌∙◌, inl, inr, Bool, true, Option, none, some, not, ◌||◌, ◌==◌,
  Bool-cases, Option-cases, ◌>>=◌,
}
use treedb.Index.{Index}
use treedb.Branch.{parent_of, u16_mod}
use treedb.Store.{Store, branch_index_get, relocate}
use treedb.Store.Invariant.{IsStored}
use treedb.Map as Map
use treedb.Map.{before_loop}
use treedb.Map.Requests.{IsMoveOf, move-IsMoveOf}
use treedb.Walk.{each}
use treedb.Session.{MapState, up_fuel}
use treedb.Session.Insert.{each_vbranch}
use treedb.Session.Move.{move_one, move_found, move_from, move}

module _ {T : Type 0} ⦃ix : Index T⦄ where
  -- The map with another tree.
  abbrev pub with_store : {R : Type 0} → MapState T → Store T × R → MapState T × R
  with_store m r = (record m { store = r.0 }, r.1)

  abbrev pub lift : {R : Type 0} → MapState T → Option (Store T × R) → Option (MapState T × R)
  lift m o = o >>= λ r. some (with_store m r)

  pub no_views :
      (f : ℕ → MapState T → Option (MapState T)) (b : ℕ) (m : MapState T)
      → (m.store.branches b).content.vbranch_n ≡ 0
      → each_vbranch f b m ≡ some m
  unfolding each_vbranch each
  no_views f b m empty = rw (each_vbranch, empty) refl

  lift-relocate :
      (m : MapState T) (b opb npb branch_pos : ℕ)
      → (relocate m.store b opb npb branch_pos >>= λ s. some (record m { store = s }, true))
        ≡ lift m (relocate m.store b opb npb branch_pos >>= λ t. some (t, true))
  lift-relocate m b opb npb branch_pos =
      elim (Option-cases (relocate m.store b opb npb branch_pos)) [
        | inl lost ↦ rw lost refl
        | inr (s, made) ↦ rw made refl
      ]

  move_found-bare :
      (m : MapState T) (b opb npb new_parent_id old_parent_id branch_pos : ℕ)
      → (m.store.branches m.branch).content.vbranch_n ≡ 0
      → move_found m none b opb npb new_parent_id old_parent_id branch_pos
        ≡ lift m (Map.move_known m.store b opb npb old_parent_id branch_pos)
  unfolding move_found Map.move_known
  move_found-bare m b opb npb new_parent_id old_parent_id branch_pos empty =
      elim (Option-cases (before_loop (up_fuel m) m.store.branches b npb true)) [
        | inl lost ↦ rw lost refl
        | inr (before, walk) ↦
            elim (Bool-cases (not ((m.store.branches opb).id == old_parent_id) || not before)) [
              | inl stale ↦ rw walk (rw stale refl)
              | inr fine ↦
                  let skip =
                    no_views (move_one none b opb npb new_parent_id branch_pos) m.branch m empty in
                  rw walk (rw fine (rw skip (lift-relocate m b opb npb branch_pos)))
            ]
      ]

  move-lift :
      (m : MapState T) (new_parent_id old_parent_id branch_id branch_pos : ℕ)
      → (m.store.branches m.branch).content.vbranch_n ≡ 0
      → move m none new_parent_id old_parent_id branch_id branch_pos
        ≡ lift m (Map.move m.store new_parent_id old_parent_id branch_id branch_pos)
  unfolding move move_from Map.move Map.move_to branch_index_get
  move-lift m new_parent_id old_parent_id branch_id branch_pos empty =
      elim (Option-cases (ix.find m.store.branch_index branch_id)) [
        | inl missing ↦ rw (move, Map.move, missing) refl
        | inr (b, found) ↦ elim (Option-cases (parent_of m.store.branches b)) [
          | inl root ↦ rw (move, Map.move, found) (rw (move_from, Map.move_to, root) refl)
          | inr (opb, parent) ↦ elim (Option-cases (ix.find m.store.branch_index new_parent_id)) [
            | inl nowhere ↦
                rw (move, Map.move, found) (rw (move_from, Map.move_to, parent, nowhere) refl)
            | inr (npb, target) ↦
                rw (move, Map.move, found)
                  (rw (move_from, Map.move_to, parent, target)
                    (move_found-bare m b opb npb new_parent_id old_parent_id branch_pos empty))
          ]
        ]
      ]

  -- On a well-formed map whose root is in no view, and for a request that comes from no view: for any
  -- three ids and any place, if the new parent, where the index finds one, has room for a child, move
  -- with all that it does for the views returns what the change of the tree returns. The flag is the
  -- same, the map keeps everything but the tree, its index and its files, so that no message goes
  -- out, and the tree is well formed with the same branches.
  pub move-IsMoveOf_bare :
      (m : MapState T) {live : ℕ → Bool} (inv : IsStored m.store live)
      (new_parent_id old_parent_id branch_id branch_pos : ℕ)
      → (m.store.branches m.branch).content.vbranch_n ≡ 0
      → ((npb : ℕ)
          → ix.find m.store.branch_index new_parent_id ≡ some npb
          → (m.store.branches npb).child_n + 1 < u16_mod)
      → (t : Store T) × (r : Bool) × (Map.move m.store new_parent_id old_parent_id branch_id
            branch_pos
          ≡ some (t, r))
        × (move m none new_parent_id old_parent_id branch_id branch_pos
            ≡ some (record m { store = t }, r))
        × IsMoveOf inv t r
  move-IsMoveOf_bare m inv new_parent_id old_parent_id branch_id branch_pos empty room =
      let (t, r, made, is, placed) =
        move-IsMoveOf inv new_parent_id old_parent_id branch_id branch_pos room in
      let lifted = move-lift m new_parent_id old_parent_id branch_id branch_pos empty in
      (t, r, made, lifted ∙ ap (lift m) made, is)
