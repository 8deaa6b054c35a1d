-- ===== src/Load/Back.antt =====
-- io_load_map (src/io.c:192) on the file of a well-formed map: it gives the tree again.
use treedb.Prelude.{
  ℕ, zero, suc, ◌+◌, ◌%◌, ◌≡◌, refl, ap, ◌∙◌, sym, subst, inl, inr, Bool, true, false, Option, none,
  some, [], arith, ◌==◌, ==_self, ltb, leb, if◌then◌else◌, Bool-cases, Option-cases, length,
  eq_of_==, map,
}
use treedb.Index.{Index}
use treedb.Branch.{Text, Branch, Branches, kids, update, u32_mod}
use treedb.Io.{Bhead, Disk}
use treedb.Store.{Store}
use treedb.Store.Invariant.{IsStored, live_kid}
use treedb.Load.{calloc_map, io_load_map, seal, make_branch, make_all, unset, Loading}
use treedb.Load.Made.{made_of, records}
use treedb.Load.Placed.{at, head_in, IsFile, after, IsLoaded, head_in-at, apart_at}
use treedb.Json.{all_set}
use treedb.Load.Loop.{place_all_lem}
use treedb.Load.Made.{in_file, branches-make_all, arrays-make_all, find-make_all}
use treedb.Load.Marks.{marks-zero, all_set-marks}

root-make_all :
    {T : Type 0} ⦃ix : Index T⦄ (f : ℕ → Bhead) (n i : ℕ) (l : Loading T)
    → (make_all (records f i n) i l).root ≡ l.root
unfolding make_all make_branch
root-make_all f zero i l = refl
root-make_all f (suc n) i l =
    root-make_all f n (i + 1) (if (f i).id == 0 then l else make_branch l i (f i)) ∙ ground arith

module _ {T : Type 0} ⦃ix : Index T⦄ {s : Store T} {live : ℕ → Bool} (inv : IsStored s live)
    {slot : ℕ → Option ℕ} {row : ℕ → Option (ℕ × Text)} {r : ℕ}
    (file : IsFile s live slot row r) where
  -- The record of a branch is read by the first loop.
  in_file-at : (b : ℕ) → live b ≡ true → in_file (head_in s live) 0 s.branch_n (at s live b) ≡ true
  in_file-at b lb =
      let low = inv.placed b lb in
      let id : ((head_in s live (at s live b)).id == 0) ≡ false =
        rw (head_in-at inv b lb) (file.ids b lb) in
      ground arith

  -- No other record has its id.
  only_record :
      (b x : ℕ)
      → live b ≡ true
      → in_file (head_in s live) 0 s.branch_n x ≡ true
      → ((head_in s live x).id == (s.branches b).id) ≡ true
      → x ≡ at s live b
  only_record b x lb there same = elim (Option-cases (slot x)) [
    | inl gone ↦ absurd (ground (arith, file.free x (ground arith) gone))
    | inr (c, e) ↦
        let (lc, place) = file.slot_live x c e in
        let id : (head_in s live x).id ≡ (s.branches c).id =
          ap (λ y. (head_in s live y).id) (sym place)
          ∙ ap (λ (h : Bhead). h.id) (head_in-at inv c lc) in
        let ids : (s.branches c).id ≡ (s.branches b).id =
          sym id ∙ eq_of_== (head_in s live x).id (s.branches b).id same in
        let found : some c ≡ some b =
          sym (inv.complete c lc) ∙ (ap (λ k. ix.find s.branch_index k) ids ∙ inv.complete b lb) in
        let one : c ≡ b = cc in sym place ∙ ap (at s live) one
  ]

  -- The state after the first loop.
  first_loop :
      (start : Loading T) (k n : ℕ)
      → start.root ≡ none
      → IsLoaded s live r 0 (
          let made = make_all (records (head_in s live) 0 s.branch_n) 0 start in
          record made { store = record (made.store) { branch_n = k; next = n } })
  first_loop start k n top = record {
    cells = λ b lb.
        let none_yet : ltb (at s live b) 0 ≡ false = ground arith in
        branches-make_all (head_in s live) s.branch_n 0 (at s live b) start
        ∙ rw (in_file-at b lb, none_yet) (ap (made_of (at s live b)) (head_in-at inv b lb));
    arrays = λ b lb.
        arrays-make_all (head_in s live) s.branch_n 0 (at s live b) start
        ∙ rw (in_file-at b lb) (
            ap (λ (h : Bhead). unset h.child_n) (head_in-at inv b lb)
            ∙ (ap unset (inv.forest.shape.sized b)
                ∙ sym (marks-zero (at s live) (kids s.branches b))));
    index = λ b lb.
        find-make_all (head_in s live) s.branch_n 0 (s.branches b).id (at s live b) start
          (in_file-at b lb) (rw (head_in-at inv b lb) (==_self (s.branches b).id))
          (λ x m e. only_record b x lb m e);
    root =
        let none_yet : ltb (at s live r) 0 ≡ false = ground arith in
        root-make_all (head_in s live) s.branch_n 0 start ∙ rw none_yet top;
  }

  -- What a round does to the branch `c`, when it is about `b`.
  IsSealedAt : ℕ → ℕ → Branches → ℕ → Type 0
  IsSealedAt i b g c =
      let g1 =
        update g i (record (g i) { child_list = some (map (at s live) (kids s.branches b)) }) in
      (if leb (i + 1) (at s live c)
        then record (g1 (at s live c)) { child_list = some (map (at s live) (kids s.branches c)) }
        else g1 (at s live c))
      ≡ (if leb i (at s live c)
          then record (g (at s live c)) { child_list = some (map (at s live) (kids s.branches c)) }
          else g (at s live c))

  sealed_here : (i b : ℕ) (g : Branches) → at s live b ≡ i → IsSealedAt i b g b
  unfolding IsSealedAt
  sealed_here i b g same =
      let hit : (i == at s live b) ≡ true = ground arith in
      let past : leb (i + 1) (at s live b) ≡ false = ground arith in
      let now : leb i (at s live b) ≡ true = ground arith in
      rw (past, now, hit)
        (ap (λ x. record (g x) { child_list = some (map (at s live) (kids s.branches b)) })
          (sym same))

  -- The loop that gives the branches their arrays.
  seal_lem :
      (n i : ℕ) (l : Loading T) (g : Branches)
      → i + n ≡ s.branch_n
      → IsLoaded s live r s.branch_n l
      → (h : Branches) × (seal (records (head_in s live) i n) i l g ≡ some h)
        × ((b : ℕ)
            → live b ≡ true
            → h (at s live b) ≡ (
                if leb i (at s live b)
                then record (g (at s live b)) {
                  child_list = some (map (at s live) (kids s.branches b));
                }
                else g (at s live b)))
  unfolding seal IsSealedAt
  seal_lem zero i l g end k = (
    g,
    refl,
    λ b lb.
        let low = inv.placed b lb in
        let past : leb i (at s live b) ≡ false = ground arith in rw past refl,
  )
  seal_lem (suc n) i l g end k = elim (Option-cases (slot i)) [
    | inl gone ↦
        let (h, made, all) = seal_lem n (i + 1) l g (omega arith) k in
        (
          h,
          rw (seal, file.free i (omega arith) gone) made,
          λ b lb.
              let differ = none_at b lb i gone in
              let same : leb (i + 1) (at s live b) ≡ leb i (at s live b) = ground arith in
              all b lb ∙ rw same refl,
        )
    | inr (b, e) ↦
        let (lb, same) = file.slot_live i b e in
        let cl = map (at s live) (kids s.branches b) in
        let g1 = update g i (record (g i) { child_list = some cl }) in
        let (h, made, all) = seal_lem n (i + 1) l g1 (omega arith) k in
        let id : (head_in s live i).id ≡ (s.branches b).id =
          ap (λ x. (head_in s live x).id) (sym same)
          ∙ ap (λ (x : Bhead). x.id) (head_in-at inv b lb) in
        let kept : ((head_in s live i).id == 0) ≡ false = rw id (file.ids b lb) in
        let array : all_set (l.arrays i) ≡ some cl =
          ap (λ x. all_set (l.arrays x)) (sym same)
          ∙ (ap (λ x. all_set x) (k.arrays b lb)
              ∙ all_set-marks (at s live) s.branch_n (kids s.branches b)
                  (λ c m. inv.placed c (live_kid inv b c lb m))) in
        (
          h,
          rw (seal, kept, array) made,
          λ c lc. all c lc ∙ elim (Bool-cases (b == c)) [
            | inl one ↦ subst (IsSealedAt i b g) (eq_of_== b c one) (sealed_here i b g same)
            | inr differ ↦
                let apart = apart_at inv b c lb lc differ in
                let miss : (i == at s live c) ≡ false = ground arith in
                let still : leb (i + 1) (at s live c) ≡ leb i (at s live c) = ground arith in
                rw (still, miss) refl
          ],
        )
  ]
    where
      none_at : (b : ℕ) → live b ≡ true → (i : ℕ) → slot i ≡ none → (at s live b == i) ≡ false
      none_at b lb i gone = elim (Bool-cases (at s live b == i)) [
        | inr out ↦ out
        | inl same ↦
            let here = file.slot_of b lb in
            let moved = subst (λ x. slot x ≡ some b) (eq_of_== (at s live b) i same) here in
            absurd cc
      ]

  -- A branch of the map after it was loaded: the addresses are the places in the file.
  abbrev pub loaded : ℕ → Branch
  loaded b = record (after s live b) { child_list = some (map (at s live) (kids s.branches b)) }

  -- On the file of a well-formed map, in which the records of no branch have the id 0, no branch has
  -- that id, each branch has its row, and there is one root: io_load_map returns. It finds the root,
  -- and each branch is at its place in the file with its id, its text, its note, its parent and its
  -- childs in their order, all at their places, and the index finds it under its id.
  pub io_load_map-loaded :
      (d : Disk)
      → (t : Store T) × (io_load_map row (records (head_in s live) 0 s.branch_n) (calloc_map d)
          ≡ some (t, some (at s live r)))
        × ((b : ℕ) → live b ≡ true → t.branches (at s live b) ≡ loaded b)
        × ((b : ℕ) → live b ≡ true → ix.find t.branch_index (s.branches b).id ≡ some (at s live b))
  unfolding io_load_map
  io_load_map-loaded d =
      let start : Loading T = record { store = calloc_map d; arrays = λ x. []; root = none } in
      let bheads = records (head_in s live) 0 s.branch_n in
      let (l, placed, k) =
        place_all_lem inv file s.branch_n 0
          (let made = make_all bheads 0 start in
            record made {
              store = record (made.store) {
                branch_n = length bheads % u32_mod;
                next = length bheads;
              };
            })
          (omega arith) (first_loop start (length bheads % u32_mod) (length bheads) refl) in
      let (h, sealed, all) = seal_lem s.branch_n 0 l l.store.branches (omega arith) k in
      let read : ltb (at s live r) s.branch_n ≡ true =
        ground (arith, inv.placed r file.root_live) in
      (
        record (l.store) { branches = h },
        rw placed (rw (sealed, k.root, read) refl),
        λ b lb.
            let done : ltb (at s live b) s.branch_n ≡ true = ground (arith, inv.placed b lb) in
            let first : leb 0 (at s live b) ≡ true = ground arith in
            let cell : l.store.branches (at s live b) ≡ after s live b =
              k.cells b lb ∙ rw done refl in
            all b lb
            ∙ rw first (
                ap
                  (λ (c : Branch). record c {
                    child_list = some (map (at s live) (kids s.branches b));
                  })
                  cell),
        k.index,
      )
