-- ===== src/Session/Counting.antt =====
-- The second loop of insert (src/map.c:232): the views that do not show the new branch learn that
-- there is one more.
use treedb.Prelude.{
  ℕ, zero, suc, ◌≤◌, ◌<◌, ◌≡◌, refl, ap, ◌∙◌, sym, subst, inl, inr, true, false, Option, none, some,
  List, [], ◌∷◌, ◌++◌, not, ◌&&◌, arith, ◌==◌, ==_self, if◌then◌else◌, Bool-cases, Option-cases,
  length, take, has, append-nil, append_assoc,
}
use treedb.Prelude.Int.{pos}
use treedb.Index.{Index}
use treedb.Branch.{parent_of}
use treedb.Branch.Chain.{Up, Up-parent}
use treedb.View.Frame.{Fits}
use treedb.Walk.{same_ptr, each, view_get_vbranch}
use treedb.Walk.Find.{same_ptr_self}
use treedb.Message.{Message}
use treedb.Session.{MapState, world, up_fuel, count_above, is_closed}
use treedb.Session.Insert.{count_one}
use treedb.Session.Climb.{seen_at, branch_or, first_shown, count_at, get_lem, count_above_lem}

module _ {T : Type 0} where
  -- The message about the new branch below `pb`, whose ancestors are `us`, for the view `u`: it is about
  -- `pb` if the view shows `pb` and not its childs, and about the first ancestor that the view shows
  -- if it does not show `pb`.
  abbrev pub count_for : MapState T → ℕ → List ℕ → ℕ → Option ℕ → List Message
  count_for m pb us u none = count_at m u (first_shown m u us)
  count_for m pb us u (some vb) =
      if not ((m.store.branches pb).child_n == 0) && ((m.vbranches vb).child_n == 0)
      then count_at m u (some pb)
      else []

  abbrev pub count_news : MapState T → Option ℕ → ℕ → List ℕ → Option ℕ → List Message
  count_news m view pb us none = []
  count_news m view pb us (some u) =
      if same_ptr (some u) view then [] else count_for m pb us u (seen_at m u pb)

  -- The messages to the views of some vbranches, but that of the client.
  abbrev pub all_counts : MapState T → Option ℕ → ℕ → List ℕ → List ℕ → List Message
  all_counts m view pb us [] = []
  all_counts m view pb us (x ∷ l) =
      count_news m view pb us (m.vbranches x).view ++ all_counts m view pb us l

module _ {T : Type 0} ⦃ix : Index T⦄ where
  -- What the loop relies on: the lists of vbranches, the way from the parent to the root, and that the
  -- vbranches of the parent are over a branch and those of the root in a view.
  pub record IsCountable (m : MapState T) (pb : ℕ) : Type 0 where
    pub fits : Fits m.store.branches
    pub ups : List ℕ
    pub chain : Up m.store.branches pb ups
    pub short : length ups < up_fuel m
    pub top : parent_of m.store.branches pb ≡ none → pb ≡ m.branch
    pub over :
        (x : ℕ)
        → has x (
            take (m.store.branches pb).content.vbranch_n (m.store.branches pb).content.vbranch_list)
          ≡ true
        → (m.vbranches x).branch ≡ some pb
    pub owned :
        (x : ℕ)
        → has x (
            take
              (m.store.branches m.branch).content.vbranch_n
              (m.store.branches m.branch).content.vbranch_list)
          ≡ true
        → (u : ℕ) × ((m.vbranches x).view ≡ some u)

  count_own :
      (view : Option ℕ) (pb x : ℕ) (m : MapState T)
      → same_ptr (m.vbranches x).view view ≡ true
      → count_one view pb x m ≡ some m
  unfolding count_one
  count_own view pb x m own = rw own refl

  count_hidden :
      (view : Option ℕ) (pb p x : ℕ) (m : MapState T)
      → same_ptr (m.vbranches x).view view ≡ false
      → view_get_vbranch (world m) (m.vbranches x).view pb ≡ some none
      → parent_of m.store.branches pb ≡ some p
      → count_one view pb x m ≡ count_above m (m.vbranches x).view p (pos 1)
  unfolding count_one
  count_hidden view pb p x m other found e =
      rw (other, found)
        (ap
          (λ (o : Option ℕ). elim o as (λ y. Option (MapState T)) [
            | none ↦ none
            | some q ↦ count_above m (m.vbranches x).view q (pos 1)
          ])
          e)

  count_shown :
      (view : Option ℕ) (pb x vb : ℕ) (m : MapState T)
      → same_ptr (m.vbranches x).view view ≡ false
      → view_get_vbranch (world m) (m.vbranches x).view pb ≡ some (some vb)
      → (m.vbranches vb).branch ≡ some pb
      → count_one view pb x m ≡ (
          if not ((m.store.branches pb).child_n == 0) && ((m.vbranches vb).child_n == 0)
          then count_above m (m.vbranches x).view pb (pos 1)
          else some m)
  unfolding count_one is_closed
  count_shown view pb x vb m other found over =
      let closed = not ((m.store.branches pb).child_n == 0) && ((m.vbranches vb).child_n == 0) in
      let asked : is_closed m vb ≡ some closed = rw over refl in rw (other, found) (rw asked refl)

  count_one_lem :
      (view : Option ℕ) (pb x : ℕ) (m : MapState T)
      → (k : IsCountable m pb)
      → has x (
          take
            (m.store.branches m.branch).content.vbranch_n
            (m.store.branches m.branch).content.vbranch_list)
        ≡ true
      → count_one view pb x m
        ≡ some (record m { out_q = m.out_q ++ count_news m view pb k.ups (m.vbranches x).view })
  count_one_lem view pb x m k listed =
      let (u, sight) = k.owned x listed in
      let to = λ (l : List Message) (e : count_news m view pb k.ups (some u) ≡ l).
        ap (λ t. some (record m { out_q = m.out_q ++ t }))
          (sym (ap (count_news m view pb k.ups) sight ∙ e)) in
      let quiet : some m ≡ some (record m { out_q = m.out_q ++ [] }) =
        ap (λ q. some (record m { out_q = q })) (sym (append-nil m.out_q)) in
      let (found, is) = get_lem m u pb k.fits in
      let seen : view_get_vbranch (world m) (m.vbranches x).view pb ≡ some (seen_at m u pb) =
        ap (λ w. view_get_vbranch (world m) w pb) sight ∙ found in
      let by_view = λ (b : ℕ). ap (λ w. count_above m w b (pos 1)) sight in
      let own_of = ap (λ w. same_ptr w view) sight in
      elim (Bool-cases (same_ptr (m.vbranches x).view view)) [
        | inl own ↦
            let self = sym own_of ∙ own in
            count_own view pb x m own ∙ (quiet ∙ to [] (rw self refl))
        | inr other ↦
            let far = sym own_of ∙ other in
            elim (Option-cases (seen_at m u pb)) [
              | inl gone ↦ elim (Option-cases (parent_of m.store.branches pb)) [
                | inl root ↦
                    let at = k.top root in
                    let here = is.missing gone x (
                      subst
                        (λ (b : ℕ).
                          has x (
                            take (m.store.branches b).content.vbranch_n
                              (m.store.branches b).content.vbranch_list)
                          ≡ true)
                        (sym at) listed) in
                    let never =
                      sym (ap (λ w. same_ptr w (some u)) sight ∙ same_ptr_self u) ∙ here in
                    absurd (cc)
                | inr (p, e) ↦
                    let (vs, high, eq) = Up-parent k.chain e in
                    let shorter : length vs < up_fuel m =
                      omega (arith, k.short, ap (λ (t : List ℕ). length t) eq) in
                    count_hidden view pb p x m other (seen ∙ ap some gone) e
                    ∙ (by_view p
                        ∙ (count_above_lem m u k.fits high shorter
                            ∙ (ap
                                  (λ t. some (record m {
                                    out_q = m.out_q ++ count_at m u (first_shown m u t);
                                  }))
                                  (sym eq)
                                ∙ to (count_at m u (first_shown m u k.ups))
                                    (rw far (ap (count_for m pb k.ups u) gone)))))
              ]
              | inr (vb, here) ↦
                  let branch = k.over vb (is.listed vb here) in
                  let shown = count_shown view pb x vb m other (seen ∙ ap some here) branch in
                  let top_shown : first_shown m u (pb ∷ k.ups) ≡ some pb =
                    ap (branch_or pb (first_shown m u k.ups)) here in
                  elim (Bool-cases
                    (not ((m.store.branches pb).child_n == 0) && ((m.vbranches vb).child_n == 0))) [
                      | inl closed ↦
                          shown
                          ∙ (rw closed (by_view pb ∙ count_above_lem m u k.fits k.chain k.short)
                              ∙ (ap (λ f. some (record m { out_q = m.out_q ++ count_at m u f }))
                                    top_shown
                                  ∙ to (count_at m u (some pb))
                                      (rw far (ap (count_for m pb k.ups u) here ∙ rw closed refl))))
                      | inr opened ↦
                          shown
                          ∙ (rw opened quiet
                              ∙ to [] (rw far (ap (count_for m pb k.ups u) here ∙ rw opened refl)))
                    ]
            ]
      ]

  pub count_loop :
      (view : Option ℕ) (pb n : ℕ) (l : List ℕ) (m : MapState T)
      → n ≤ length l
      → (k : IsCountable m pb)
      → ((x : ℕ)
          → has x (take n l) ≡ true
          → has x (
              take
                (m.store.branches m.branch).content.vbranch_n
                (m.store.branches m.branch).content.vbranch_list)
            ≡ true)
      → each (count_one view pb) n l m
        ≡ some (record m { out_q = m.out_q ++ all_counts m view pb k.ups (take n l) })
  unfolding each
  count_loop view pb zero l m low k inside =
      ap (λ q. some (record m { out_q = q })) (sym (append-nil m.out_q))
  count_loop view pb (suc n) [] m low k inside = absurd (omega arith)
  count_loop view pb (suc n) (x ∷ l) m low k inside =
      let first = count_one_lem view pb x m k (inside x (rw (==_self x) refl)) in
      let one = count_news m view pb k.ups (m.vbranches x).view in
      let m1 : MapState T = record m { out_q = m.out_q ++ one } in
      let rest =
        count_loop view pb n l m1 (omega arith)
          (record {
            fits = k.fits;
            ups = k.ups;
            chain = k.chain;
            short = k.short;
            top = k.top;
            over = k.over;
            owned = k.owned;
          })
          (λ y h. inside y (ground arith)) in
      rw (each, first)
        (rest
          ∙ ap (λ t. some (record m { out_q = t }))
              (append_assoc m.out_q one (all_counts m view pb k.ups (take n l))))
