-- ===== src/Load/Loop.antt =====
-- The rounds of the second loop of io_load_map (src/io.c:243) for the branches with a parent, and the
-- whole loop.
use treedb.Prelude.{
  ℕ, zero, suc, ◌+◌, ◌≤◌, ◌<◌, ◌≡◌, refl, ap, ◌∙◌, sym, subst, inl, inr, Bool, true, false, Option,
  none, some, List, arith, ◌==◌, ==_self, ltb, if◌then◌else◌, Bool-cases, Option-cases, eq_of_==,
  map_opt, count,
}
use treedb.Index.{Index}
use treedb.Branch.{Text, Branch, kids, parent_of, update}
use treedb.Io.{Bhead}
use treedb.Io.Heads.{has-kids_parent, parent_id_of, place_of}
use treedb.Branch.Arrays.{index_of}
use treedb.Store.{Store, new_branch, branch_index_get}
use treedb.Store.Invariant.{IsStored, live_kid}
use treedb.Load.{Loading, set_entry, place_branch, place_all}
use treedb.Load.Made.{records}
use treedb.Load.Marks.{marks, set_entry-marks}
use treedb.Load.Placed.{
  at, head_in, IsFile, before, IsLoaded, head_in-at, apart_at, skip, same_array, advance,
}
use treedb.Load.Rounds.{round, round_lem, branch_load_lem, filled-after, round_root}

module _ {T : Type 0} ⦃ix : Index T⦄ {s : Store T} {live : ℕ → Bool} (inv : IsStored s live)
    {slot : ℕ → Option ℕ} {row : ℕ → Option (ℕ × Text)} {r : ℕ}
    (file : IsFile s live slot row r) where
  place_below :
      (l : Loading T) (i : ℕ) (bhead : Bhead) (p : ℕ) (a : List (Option ℕ))
      → (bhead.parent_id == 0) ≡ false
      → ix.find l.store.branch_index bhead.parent_id ≡ some p
      → set_entry (l.arrays p) bhead.place i ≡ some a
      → place_branch l i bhead
        ≡ some (record l {
          store = record (l.store) {
            branches = update l.store.branches i (record (l.store.branches i) { parent = some p });
          };
          arrays = update l.arrays p a;
        })
  unfolding place_branch branch_index_get
  place_below l i bhead p a kept found written = rw kept (rw found (rw written refl))

  array_below :
      (b p : ℕ) (l : Loading T)
      → live b ≡ true
      → live p ≡ true
      → parent_of s.branches b ≡ some p
      → IsLoaded s live r (at s live b) l
      → (c : ℕ) → live c ≡ true
      → update l.arrays
          (at s live p)
          (marks (at s live) (at s live b + 1) (kids s.branches p))
          (at s live c)
        ≡ marks (at s live) (at s live b + 1) (kids s.branches c)
  array_below b p l lb lp up k c lc = elim (Bool-cases (p == c)) [
    | inl same ↦
        subst
          (λ y.
            update l.arrays (at s live p) (marks (at s live) (at s live b + 1) (kids s.branches p))
              (at s live y)
            ≡ marks (at s live) (at s live b + 1) (kids s.branches y))
          (eq_of_== p c same) (rw (==_self (at s live p)) refl)
    | inr differ ↦
        let apart = apart_at inv p c lp lc differ in
        rw apart (
          k.arrays c lc
          ∙ sym (same_array inv file b c lb lc (λ e. absurd (ground (arith, ==_self p)))))
  ]

  root_below :
      (b p : ℕ) (l : Loading T)
      → live b ≡ true
      → parent_of s.branches b ≡ some p
      → IsLoaded s live r (at s live b) l
      → l.root ≡ (if ltb (at s live r) (at s live b + 1) then some (at s live r) else none)
  root_below b p l lb up k = elim (Bool-cases (r == b)) [
    | inl same ↦
        let top = subst (λ y. parent_of s.branches y ≡ none) (eq_of_== r b same) file.root_top in
        absurd cc
    | inr differ ↦
        let apart = apart_at inv r b file.root_live lb differ in let now = k.root in ground arith
  ]

  round_below :
      (b p : ℕ) (l : Loading T)
      → live b ≡ true
      → parent_of s.branches b ≡ some p
      → IsLoaded s live r (at s live b) l
      → (l1 : Loading T) × (round inv file (at s live b) l ≡ some l1)
        × IsLoaded s live r (at s live b + 1) l1
  round_below b p l lb up k =
      let i = at s live b in
      let lp : live p ≡ true = inv.lineage b p up ∙ lb in
      let (t, text, found) = file.rows b lb in
      let head = head_in-at inv b lb in
      let kept : ((head_in s live i).id == 0) ≡ false = rw head (file.ids b lb) in
      let cell : l.store.branches i ≡ before s live b = k.cells b lb ∙ ground arith in
      let parent_id : (head_in s live i).parent_id ≡ (s.branches p).id =
        ap (λ (x : Bhead). x.parent_id) head ∙ ap (λ o. parent_id_of s.branches o) up in
      let place : (head_in s live i).place ≡ index_of b (kids s.branches p) =
        ap (λ (x : Bhead). x.place) head ∙ ap (λ o. place_of s.branches b o) up in
      let listed = has-kids_parent b p inv.forest.shape up in
      let once : count b (kids s.branches p) ≤ 1 = ground (arith, inv.forest.shape.linked p b) in
      let a = marks (at s live) (i + 1) (kids s.branches p) in
      let written : set_entry (l.arrays (at s live p)) (head_in s live i).place i ≡ some a =
        rw (k.arrays p lp, place)
          (set_entry-marks (at s live) i b (kids s.branches p) listed once refl
            (λ c m e. inv.apart c b (live_kid inv p c lp m) lb e)) in
      let l0 : Loading T = record l {
        store = record (l.store) {
          branches =
              update l.store.branches i
                (record (l.store.branches i) { parent = some (at s live p) });
        };
        arrays = update l.arrays (at s live p) a;
      } in
      let placed =
        place_below l i (head_in s live i) (at s live p) a (rw parent_id (file.ids p lp))
          (ap (λ x. ix.find l.store.branch_index x) parent_id ∙ k.index p lp) written in
      let id : (l0.store.branches i).id ≡ (s.branches b).id =
        rw (==_self i) (ap (λ (c : Branch). c.id) cell) in
      let loaded =
        branch_load_lem inv file l0 i (s.branches b).content.note_id t (ap row id ∙ found) in
      let l1 : Loading T = record l0 {
        store = record (l0.store) {
          branches = update l0.store.branches i (record (l0.store.branches i) {
            content =
                (new_branch i (l0.store.branches i).id t (s.branches b).content.note_id).content;
          });
        };
      } in
      (
        l1,
        round_lem inv file i l l0 l1 kept placed loaded,
        advance inv file b l l1 lb k (λ x differ. rw differ refl)
            (rw (==_self i) (
              filled-after inv file b (some (at s live p)) t (l.store.branches i) cell
                (ap (λ o. map_opt (at s live) o) up) text))
            (array_below b p l lb lp up k) refl (root_below b p l lb up k),
      )

  round_any :
      (i : ℕ) (l : Loading T)
      → i < s.branch_n
      → IsLoaded s live r i l
      → (l1 : Loading T) × (round inv file i l ≡ some l1) × IsLoaded s live r (i + 1) l1
  round_any i l low k = elim (Option-cases (slot i)) [
    | inl gone ↦ (l, rw (file.free i low gone) refl, skip inv file i l gone k)
    | inr (b, e) ↦
        let (lb, same) = file.slot_live i b e in
        subst
          (λ x.
            IsLoaded s live r x l
            → (l1 : Loading T) × (round inv file x l ≡ some l1) × IsLoaded s live r (x + 1) l1)
          same
          (λ now. elim (Option-cases (parent_of s.branches b)) [
            | inl top ↦ round_root inv file b l lb top now
            | inr (p, up) ↦ round_below b p l lb up now
          ])
          k
  ]

  -- The loop over the records from `i` on.
  pub place_all_lem :
      (n i : ℕ) (l : Loading T)
      → i + n ≡ s.branch_n
      → IsLoaded s live r i l
      → (l1 : Loading T) × (place_all row (records (head_in s live) i n) i l ≡ some l1)
        × IsLoaded s live r s.branch_n l1
  unfolding place_all
  place_all_lem zero i l end k = (l, refl, subst (λ x. IsLoaded s live r x l) (omega arith) k)
  place_all_lem (suc n) i l end k =
      let (l1, made, k1) = round_any i l (omega arith) k in
      let (l2, rest, k2) = place_all_lem n (i + 1) l1 (omega arith) k1 in
      (l2, rw (place_all, made) rest, k2)
