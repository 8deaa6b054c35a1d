-- ===== src/Session/Visible.antt =====
-- map_visible and map_invisible (src/map.c:1166): exactly which vbranches they change.
use treedb.Prelude.{
  ℕ, ◌≡◌, refl, ap, ◌∙◌, inl, inr, Bool, true, false, List, [], ◌∷◌, ◌||◌, arith, ◌==◌,
  if◌then◌else◌, Bool-cases, Option-cases, is_ptr, eq_of_==,
}
use treedb.Index.{Index}
use treedb.Store.{Store}
use treedb.View.{Vbranch, Vbranches, View, vbranch_index_get}
use treedb.Message.{Message}
use treedb.Session.{MapState}
use treedb.Session.Show.{set_visible, visible_loop, map_visible, map_invisible}

-- A vbranch with its flag set.
abbrev flagged : Vbranch → Bool → Vbranch
flagged vb b = record vb { visible = b }

-- All of a map but the vbranches.
abbrev pub rest_of :
    {T : Type 0} → MapState T → Store T × ℕ × (ℕ → View T) × ℕ × T × ℕ × ℕ × List Message
rest_of m = (m.store, m.vnext, m.views, m.view_next, m.view_index, m.id, m.branch, m.out_q)

set_visible-same :
    (v : Vbranches) (vb x : ℕ) (b : Bool)
    → set_visible v vb b x ≡ (if vb == x then flagged (v x) b else v x)
set_visible-same v vb x b = elim (Bool-cases (vb == x)) [
  | inl here ↦ rw here (ap (λ y. flagged (v y) b) (eq_of_== vb x here))
  | inr there ↦ rw there refl
]

module _ {T : Type 0} ⦃ix : Index T⦄ where
  -- Does the index of the view have the vbranch under one of the ids?
  abbrev pub named : MapState T → ℕ → List ℕ → ℕ → Bool
  named m view [] x = false
  named m view (id ∷ ids) x =
      is_ptr (ix.find (m.views view).vbranch_index id) x || named m view ids x

  visible_loop_lem :
      (m : MapState T) (view : ℕ) (ids : List ℕ) (b : Bool)
      → ((x : ℕ)
          → (visible_loop m view ids b).vbranches x
            ≡ (if named m view ids x then flagged (m.vbranches x) b else m.vbranches x))
        × (rest_of (visible_loop m view ids b) ≡ rest_of m)
  unfolding visible_loop vbranch_index_get
  visible_loop_lem m view [] b = (λ x. refl, refl)
  visible_loop_lem m view (id ∷ ids) b =
      elim (Option-cases (ix.find (m.views view).vbranch_index id)) [
        | inl out ↦
            let (flags, rest) = visible_loop_lem m view ids b in
            (λ x. rw (visible_loop, out) (flags x), rw (visible_loop, out) rest)
        | inr (vb, e) ↦
            let m1 : MapState T = record m { vbranches = set_visible m.vbranches vb b } in
            let (flags, rest) = visible_loop_lem m1 view ids b in
            (
              λ x.
                  rw (visible_loop, e)
                    (flags x ∙ ground (arith, set_visible-same m.vbranches vb x b)),
              rw (visible_loop, e) rest,
            )
      ]

  -- map_visible and map_invisible set the flag of exactly the vbranches that the index of the view
  -- has under one of the ids, to true and to false. The ids that it does not have are passed over,
  -- and nothing else of the map changes: no message goes out.
  pub map_visible-named :
      (m : MapState T) (view : ℕ) (ids : List ℕ)
      → ((x : ℕ)
          → (map_visible m view ids).vbranches x
            ≡ (if named m view ids x then flagged (m.vbranches x) true else m.vbranches x))
        × ((x : ℕ)
            → (map_invisible m view ids).vbranches x
              ≡ (if named m view ids x then flagged (m.vbranches x) false else m.vbranches x))
        × (rest_of (map_visible m view ids) ≡ rest_of m)
        × (rest_of (map_invisible m view ids) ≡ rest_of m)
  unfolding map_visible map_invisible
  map_visible-named m view ids =
      let (on, kept) = visible_loop_lem m view ids true in
      let (off, kept2) = visible_loop_lem m view ids false in (on, off, kept, kept2)
