-- ===== src/Load/Rounds.antt =====
-- A round of the second loop of io_load_map (src/io.c:243), and the round for the root.
use treedb.Prelude.{
  ℕ, ◌+◌, ◌≡◌, refl, ap, ◌∙◌, sym, Bool, true, false, Option, none, some, arith, ◌==◌, ==_self,
  if◌then◌else◌, map_opt, ◌>>=◌,
}
use treedb.Index.{Index}
use treedb.Branch.{Text, Branch, parent_of, update}
use treedb.Store.{Store, new_branch}
use treedb.Store.Invariant.{IsStored}
use treedb.Load.{Loading, blank_branch, place_branch, branch_load}
use treedb.Load.Placed.{
  at, head_in, IsFile, before, after, IsLoaded, head_in-at, same_array, advance,
}

module _ {T : Type 0} ⦃ix : Index T⦄ {s : Store T} {live : ℕ → Bool} (inv : IsStored s live)
    {slot : ℕ → Option ℕ} {row : ℕ → Option (ℕ × Text)} {r : ℕ}
    (file : IsFile s live slot row r) where
  -- One round of the loop for the record `i`.
  abbrev pub round : ℕ → Loading T → Option (Loading T)
  round i l =
      if (head_in s live i).id == 0
      then some l
      else (place_branch l i (head_in s live i) >>= λ l1. branch_load row l1 i)

  pub branch_load_lem :
      (l : Loading T) (i note : ℕ) (t : Text)
      → row (l.store.branches i).id ≡ some (note, t)
      → branch_load row l i
        ≡ some (record l {
          store = record (l.store) {
            branches = update l.store.branches i (record (l.store.branches i) {
              content = (new_branch i (l.store.branches i).id t note).content;
            });
          };
        })
  unfolding branch_load
  branch_load_lem l i note t found = rw found refl

  pub round_lem :
      (i : ℕ) (l l0 l1 : Loading T)
      → ((head_in s live i).id == 0) ≡ false
      → place_branch l i (head_in s live i) ≡ some l0
      → branch_load row l0 i ≡ some l1
      → round i l ≡ some l1
  round_lem i l l0 l1 kept placed loaded = rw kept (rw placed loaded)

  -- The branch with its parent and the text of its row.
  abbrev pub filled : ℕ → Option ℕ → Option Text → Branch → Branch
  filled b o t c = record c {
    parent = o;
    content = record (blank_branch.content) { text = t; note_id = (s.branches b).content.note_id };
  }

  pub filled-after :
      (b : ℕ) (o : Option ℕ) (t : Text) (c : Branch)
      → c ≡ before s live b
      → map_opt (at s live) (parent_of s.branches b) ≡ o
      → (s.branches b).content.text ≡ some t
      → filled b o (some t) c ≡ after s live b
  filled-after b o t c cell parent text =
      ap (λ x. filled b o (some t) x) cell
      ∙ (ap (λ x. filled b x (some t) (before s live b)) (sym parent)
          ∙ ap (λ x. filled b (map_opt (at s live) (parent_of s.branches b)) x (before s live b))
              (sym text))

  -- A cell whose parent is known already.
  refilled :
      (b : ℕ) (t : Text) (c : Branch)
      → c.parent ≡ none
      → record c {
        content = record (blank_branch.content) {
          text = some t;
          note_id = (s.branches b).content.note_id;
        };
      }
        ≡ filled b none (some t) c
  refilled b t c top = ap (λ o. filled b o (some t) c) top

  pub round_root :
      (b : ℕ) (l : Loading T)
      → live b ≡ true
      → parent_of s.branches b ≡ none
      → IsLoaded s live r (at s live b) l
      → (l1 : Loading T) × (round (at s live b) l ≡ some l1)
        × IsLoaded s live r (at s live b + 1) l1
  unfolding place_branch
  round_root b l lb top k =
      let i = at s live b in
      let (t, text, found) = file.rows b lb in
      let head = head_in-at inv b lb in
      let kept : ((head_in s live i).id == 0) ≡ false = rw head (file.ids b lb) in
      let cell : l.store.branches i ≡ before s live b = k.cells b lb ∙ ground arith in
      let l0 : Loading T = record l { root = some i } in
      let placed : place_branch l i (head_in s live i) ≡ some l0 = rw head (ground (arith, top)) in
      let id : (l0.store.branches i).id ≡ (s.branches b).id = ap (λ (c : Branch). c.id) cell in
      let loaded = branch_load_lem l0 i (s.branches b).content.note_id t (ap row id ∙ found) in
      let l1 : Loading T = record l0 {
        store = record (l0.store) {
          branches = update l0.store.branches i (record (l0.store.branches i) {
            content =
                (new_branch i (l0.store.branches i).id t (s.branches b).content.note_id).content;
          });
        };
      } in
      (
        l1,
        round_lem i l l0 l1 kept placed loaded,
        advance inv file b l l1 lb k (λ x differ. rw differ refl)
            (rw (==_self i) (
              refilled b t (l.store.branches i) (ap (λ (c : Branch). c.parent) cell)
              ∙ filled-after b none t (l.store.branches i) cell
                  (ap (λ o. map_opt (at s live) o) top) text))
            (λ c lc. k.arrays c lc ∙ sym (same_array inv file b c lb lc (λ e. absurd cc))) refl
            (let only = file.root_only b lb top in ground (arith, ap (at s live) only)),
      )
