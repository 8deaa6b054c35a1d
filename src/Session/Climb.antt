-- ===== src/Session/Climb.antt =====
-- The climb from a branch to the first one above it that a view shows, and the message about it
-- (src/map.c:240).
use treedb.Prelude.{
  ℕ, zero, suc, ◌≤◌, ◌<◌, ◌≡◌, refl, ap, ◌∙◌, sym, subst, inl, inr, Option, none, some, List, [],
  ◌∷◌, ◌++◌, arith, if◌then◌else◌, Bool-cases, Option-cases, length, take, append-nil,
}
use treedb.Prelude.Int.{pos}
use treedb.Codec.Hex.{id2hex32, id2hex64}
use treedb.Index.{Index}
use treedb.Branch.{parent_of}
use treedb.Branch.Chain.{Up, top, climb}
use treedb.View.Frame.{Fits}
use treedb.Walk.{same_ptr, find_view, view_get_vbranch}
use treedb.View.{Vbranches}
use treedb.Walk.Find.{IsFound, find_view_lem}
use treedb.Message.{Message, map_count}
use treedb.Session.{
  MapState, world, up_fuel, climb_ep, send_count, count_above, view_hexid, branch_hexid,
}

-- The first vbranch of a list that is of the view `u`.
abbrev pub first_in : Vbranches → ℕ → List ℕ → Option ℕ
first_in v u [] = none
first_in v u (x ∷ l) = if same_ptr (v x).view (some u) then some x else first_in v u l

find_view-first_in :
    (v : Vbranches) (n : ℕ) (l : List ℕ) (u : ℕ)
    → n ≤ length l
    → find_view v n l (some u) ≡ some (first_in v u (take n l))
unfolding find_view
find_view-first_in v zero l u low = refl
find_view-first_in v (suc n) [] u low = absurd (omega arith)
find_view-first_in v (suc n) (x ∷ l) u low = elim (Bool-cases (same_ptr (v x).view (some u))) [
  | inl own ↦ rw (find_view, own) refl
  | inr other ↦ rw (find_view, other) (find_view-first_in v n l u (omega arith))
]

abbrev pub branch_or : ℕ → Option ℕ → Option ℕ → Option ℕ
branch_or b rest none = rest
branch_or b rest (some vb) = some b

abbrev ep_of : Option (ℕ × ℕ) → Option ℕ
ep_of none = none
ep_of (some (b, vb)) = some b

module _ {T : Type 0} where
  -- The vbranches of a branch.
  abbrev pub shown_as : MapState T → ℕ → List ℕ
  shown_as m b =
      take (m.store.branches b).content.vbranch_n (m.store.branches b).content.vbranch_list

  -- The vbranch that a branch has in the view `u`, the first if there are more.
  abbrev pub seen_at : MapState T → ℕ → ℕ → Option ℕ
  seen_at m u b = first_in m.vbranches u (shown_as m b)

  -- The first of some branches that the view `u` shows.
  abbrev pub first_shown : MapState T → ℕ → List ℕ → Option ℕ
  first_shown m u [] = none
  first_shown m u (b ∷ l) = branch_or b (first_shown m u l) (seen_at m u b)

  -- The message for the view `u` that a branch has one branch more below it.
  abbrev pub count_at : MapState T → ℕ → Option ℕ → List Message
  count_at m u none = []
  count_at m u (some b) =
      map_count (id2hex32 (m.views u).id) (id2hex64 (m.store.branches b).id) (pos 1) ∷ []

module _ {T : Type 0} ⦃ix : Index T⦄ where
  pub get_lem :
      (m : MapState T) (u b : ℕ)
      → Fits m.store.branches
      → (view_get_vbranch (world m) (some u) b ≡ some (seen_at m u b))
        × IsFound m.vbranches
            (m.store.branches b).content.vbranch_n
            (m.store.branches b).content.vbranch_list
            u
            (seen_at m u b)
  unfolding view_get_vbranch
  get_lem m u b fits =
      let c = (m.store.branches b).content in
      let first = find_view-first_in m.vbranches c.vbranch_n c.vbranch_list u (fits b) in
      let (o, found, is) = find_view_lem m.vbranches c.vbranch_n c.vbranch_list u (fits b) in
      let same : o ≡ seen_at m u b = let both = sym found ∙ first in cc in
      (first, subst (λ r. IsFound m.vbranches c.vbranch_n c.vbranch_list u r) same is)

  climb_root :
      (fuel : ℕ) (m : MapState T) (view : Option ℕ) (b : ℕ)
      → view_get_vbranch (world m) view b ≡ some none
      → parent_of m.store.branches b ≡ none
      → climb_ep (suc fuel) m view b ≡ some none
  unfolding climb_ep
  climb_root fuel m view b found e =
      rw (climb_ep, found)
        (ap
          (λ (o : Option ℕ). elim o as (λ x. Option (Option (ℕ × ℕ))) [
            | none ↦ some none
            | some p ↦ climb_ep fuel m view p
          ])
          e)

  climb_on :
      (fuel : ℕ) (m : MapState T) (view : Option ℕ) (b p : ℕ)
      → view_get_vbranch (world m) view b ≡ some none
      → parent_of m.store.branches b ≡ some p
      → climb_ep (suc fuel) m view b ≡ climb_ep fuel m view p
  unfolding climb_ep
  climb_on fuel m view b p found e =
      rw (climb_ep, found)
        (ap
          (λ (o : Option ℕ). elim o as (λ x. Option (Option (ℕ × ℕ))) [
            | none ↦ some none
            | some q ↦ climb_ep fuel m view q
          ])
          e)

  climb_ep_lem :
      (m : MapState T) (u : ℕ) {b : ℕ} {us : List ℕ} (fuel : ℕ)
      → Fits m.store.branches
      → Up m.store.branches b us
      → length us < fuel
      → (o : Option (ℕ × ℕ)) × (climb_ep fuel m (some u) b ≡ some o)
        × (ep_of o ≡ first_shown m u (b ∷ us))
  unfolding climb_ep
  climb_ep_lem m u zero fits up low = absurd (omega arith)
  climb_ep_lem m u (suc fuel) fits (top {b} e) low =
      let (found, is) = get_lem m u b fits in
      elim (Option-cases (seen_at m u b)) [
        | inr (vb, here) ↦ (
          some (b, vb),
          rw (climb_ep, found ∙ ap some here) refl,
          ap (branch_or b none) (sym here),
        )
        | inl gone ↦ (
          none,
          climb_root fuel m (some u) b (found ∙ ap some gone) e,
          ap (branch_or b none) (sym gone),
        )
      ]
  climb_ep_lem m u (suc fuel) fits (climb {b} {p} {us} e up) low =
      let (found, is) = get_lem m u b fits in
      let (r, rest, first) = climb_ep_lem m u fuel fits up (omega arith) in
      elim (Option-cases (seen_at m u b)) [
        | inr (vb, here) ↦ (
          some (b, vb),
          rw (climb_ep, found ∙ ap some here) refl,
          ap (branch_or b (first_shown m u (p ∷ us))) (sym here),
        )
        | inl gone ↦ (
          r,
          climb_on fuel m (some u) b p (found ∙ ap some gone) e ∙ rest,
          first ∙ ap (branch_or b (first_shown m u (p ∷ us))) (sym gone),
        )
      ]

  pub count_above_lem :
      (m : MapState T) (u : ℕ) {b : ℕ} {us : List ℕ}
      → Fits m.store.branches
      → Up m.store.branches b us
      → length us < up_fuel m
      → count_above m (some u) b (pos 1)
        ≡ some (record m { out_q = m.out_q ++ count_at m u (first_shown m u (b ∷ us)) })
  unfolding count_above send_count view_hexid branch_hexid
  count_above_lem m u {b} {us} fits up low =
      let (o, climbed, first) = climb_ep_lem m u (up_fuel m) fits up low in
      let now = λ (r : Option ℕ) (e : r ≡ first_shown m u (b ∷ us)).
        ap (λ f. some (record m { out_q = m.out_q ++ count_at m u f })) e in
      elim (Option-cases o) [
        | inl gone ↦
            let sent : count_above m (some u) b (pos 1)
                ≡ some (record m { out_q = m.out_q ++ count_at m u none }) =
              rw (climbed ∙ ap some gone)
                (ap (λ q. some (record m { out_q = q })) (sym (append-nil m.out_q))) in
            sent ∙ now none (ap ep_of (sym gone) ∙ first)
        | inr ((b_ep, vb), here) ↦
            let sent : count_above m (some u) b (pos 1)
                ≡ some (record m { out_q = m.out_q ++ count_at m u (some b_ep) }) =
              rw (climbed ∙ ap some here) refl in
            sent ∙ now (some b_ep) (ap ep_of (sym here) ∙ first)
      ]
