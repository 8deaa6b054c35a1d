-- ===== src/Session/Viewed.antt =====
-- insert (src/map.c:117) with all views of the map, where the client's view shows the parent.
use treedb.Prelude.{
  ℕ, ◌+◌, ◌≤◌, ◌<◌, ◌≡◌, refl, ap, ◌∙◌, sym, inl, inr, Bool, true, Option, none, some, arith, ◌==◌,
  if◌then◌else◌, Bool-cases, Option-cases, length, take, has, count,
}
use treedb.Index.{Index}
use treedb.Branch.{Text, Branches, frame, parent_of, u16_mod}
use treedb.Io.{io_branch_new}
use treedb.Store.{Store, branch_index_put, allocate, plant}
use treedb.Store.Invariant.{IsStored}
use treedb.Store.Plant.{old_cell, live_old, parents-allocate, branch_add-allocate}
use treedb.View.Frame.{Fits}
use treedb.Session.{MapState}
use treedb.Session.Adds.{IsOwner}
use treedb.Session.Climb.{shown_as}

module _ {T : Type 0} ⦃ix : Index T⦄ where
  -- Each branch has different vbranches, which are over it, in a view, and have room for a child.
  pub record IsViewed (m : MapState T) (live : ℕ → Bool) : Type 0 where
    pub fits : Fits m.store.branches
    pub owners :
        (b x : ℕ) → live b ≡ true → has x (shown_as m b) ≡ true → IsOwner m.vnext x (m.vbranches x)
    pub over :
        (b x : ℕ) → live b ≡ true → has x (shown_as m b) ≡ true → (m.vbranches x).branch ≡ some b
    pub once : (b x : ℕ) → live b ≡ true → count x (shown_as m b) ≤ 1

  -- What the tree is after plant.
  pub record IsPlanted (s t : Store T) (s0 : Store T) (pb : ℕ) : Type 0 where
    pub frames : (x : ℕ) → frame (t.branches x) ≡ frame (s0.branches x)
    pub parents :
        (x : ℕ) → parent_of t.branches x ≡ (if s.next == x then some pb else parent_of s.branches x)

  pub plant-IsPlanted :
      {s : Store T} {live : ℕ → Bool} (inv : IsStored s live) (id : ℕ) (text : Text)
      (mark document pb branch_pos : ℕ) (t : Store T)
      → live pb ≡ true
      → (s.branches pb).child_n + 1 < u16_mod
      → plant (allocate s id text mark document) s.next pb branch_pos ≡ some t
      → IsPlanted s t (allocate s id text mark document) pb
  unfolding plant branch_index_put
  plant-IsPlanted {s} inv id text mark document pb branch_pos t here room planted =
      let (h, us, made, f, added, chain) =
        branch_add-allocate inv id text mark document pb branch_pos here room in
      let s0 = allocate s id text mark document in
      let branches_of : Option (Store T) → Branches =
        λ o. elim o [ none ↦ h | some x ↦ x.branches ] in
      let at : h ≡ t.branches = elim (Option-cases (io_branch_new h s0.disk s.next)) [
        | inl lost ↦ let never = rw (made, lost) at planted in absurd (cc)
        | inr (d, saved) ↦ ap branches_of (rw (made, saved) at planted)
      ] in
      record {
        frames = λ x. ap (λ (g : Branches). frame (g x)) (sym at) ∙ added.frames x;
        parents = λ x.
            ap (λ (g : Branches). parent_of g x) (sym at)
            ∙ (added.parents x
                ∙ ap (λ o. if s.next == x then some pb else o)
                    (parents-allocate inv id text mark document x));
      }

  module _ (m : MapState T) {live : ℕ → Bool} (inv : IsStored m.store live) (seen : IsViewed m live)
      (id branch_pos : ℕ) (text : Text) (mark document : ℕ) (t : Store T) (pb : ℕ)
      (here : live pb ≡ true)
      (is : IsPlanted m.store t (allocate m.store id text mark document) pb) where
    -- The lists of vbranches are not touched.
    list_of :
        (b : ℕ)
        → live b ≡ true
        → ((t.branches b).content.vbranch_list ≡ (m.store.branches b).content.vbranch_list)
          × ((t.branches b).content.vbranch_n ≡ (m.store.branches b).content.vbranch_n)
    list_of b lb =
        let old = old_cell inv id text mark document b (live_old inv id text mark document b lb) in
        (ap (λ x. x.4) (is.frames b ∙ ap frame old), ap (λ x. x.5) (is.frames b ∙ ap frame old))

    pub Fits-plant : Fits t.branches
    unfolding allocate
    Fits-plant b = elim (Bool-cases (m.store.next == b)) [
      | inl new ↦
          let s0 = allocate m.store id text mark document in
          let n : (s0.branches b).content.vbranch_n ≡ 0 = rw new refl in
          omega (arith, ap (λ x. x.5) (is.frames b), n)
      | inr old ↦
          let same = is.frames b ∙ ap frame (old_cell inv id text mark document b old) in
          omega (arith, ap (λ x. x.5) same, ap (λ x. length x.4) same, seen.fits b)
    ]

    pub shown_eq :
        (b : ℕ)
        → live b ≡ true
        → take (t.branches b).content.vbranch_n (t.branches b).content.vbranch_list ≡ shown_as m b
    shown_eq b lb =
        let (list, n) = list_of b lb in
        ap (λ k. take k (t.branches b).content.vbranch_list) n
        ∙ ap (take (m.store.branches b).content.vbranch_n) list
