-- ===== src/Load/Placed.antt =====
-- The second loop of io_load_map (src/io.c:243), on the file of a well-formed map: each record puts
-- its branch below its parent and gives it the text of its row.
use treedb.Prelude.{
  ℕ, ◌+◌, ◌*◌, ◌%◌, ◌<◌, ◌≡◌, refl, ap, ◌∙◌, sym, subst, inl, inr, Bool, true, false, Option, none,
  some, arith, ◌==◌, ltb, if◌then◌else◌, Bool-cases, eq_of_==, map_opt, has,
}
use treedb.Index.{Index}
use treedb.Branch.{Text, Branch, kids, parent_of, u32_mod}
use treedb.Branch.Forest.{parent-kid}
use treedb.Io.{Bhead, offset}
use treedb.Io.Heads.{head_at}
use treedb.Store.{Store}
use treedb.Store.Invariant.{IsStored, live_kid}
use treedb.Load.{Loading, blank_branch}
use treedb.Load.Made.{made_of}
use treedb.Load.Marks.{marks, marks-skip}

module _ {T : Type 0} ⦃ix : Index T⦄ (s : Store T) (live : ℕ → Bool) where
  -- The place of a branch in the file, which is its address after it was loaded.
  abbrev pub at : ℕ → ℕ
  at b = (s.branches b).findex

  abbrev pub head_in : ℕ → Bhead
  head_in i = s.disk.heads (i * 20)

  -- What a file needs to be loaded: `slot` says which branch has a record, a record of none has the
  -- id 0 and no branch has that id, each branch has its row, and `r` is the root, the only one.
  pub record IsFile (slot : ℕ → Option ℕ) (row : ℕ → Option (ℕ × Text)) (r : ℕ) : Type 0 where
    pub slot_live : (i b : ℕ) → slot i ≡ some b → (live b ≡ true) × (at b ≡ i)
    pub slot_of : (b : ℕ) → live b ≡ true → slot (at b) ≡ some b
    pub free : (i : ℕ) → i < s.branch_n → slot i ≡ none → (head_in i).id ≡ 0
    pub ids : (b : ℕ) → live b ≡ true → ((s.branches b).id == 0) ≡ false
    pub rows :
        (b : ℕ)
        → live b ≡ true
        → (t : Text) × ((s.branches b).content.text ≡ some t)
          × (row (s.branches b).id ≡ some ((s.branches b).content.note_id, t))
    pub root_live : live r ≡ true
    pub root_top : parent_of s.branches r ≡ none
    pub root_only : (b : ℕ) → live b ≡ true → parent_of s.branches b ≡ none → b ≡ r

  -- A branch after the first loop, and after the second.
  abbrev pub before : ℕ → Branch
  before b = made_of (at b) (head_at s.branches b)

  abbrev pub after : ℕ → Branch
  after b = record (before b) {
    parent = map_opt at (parent_of s.branches b);
    content = record (blank_branch.content) {
      text = (s.branches b).content.text;
      note_id = (s.branches b).content.note_id;
    };
  }

  -- The state after the first `i` records.
  pub record IsLoaded (r i : ℕ) (l : Loading T) : Type 0 where
    pub cells :
        (b : ℕ)
        → live b ≡ true
        → l.store.branches (at b) ≡ (if ltb (at b) i then after b else before b)
    pub arrays : (b : ℕ) → live b ≡ true → l.arrays (at b) ≡ marks at i (kids s.branches b)
    pub index :
        (b : ℕ) → live b ≡ true → ix.find l.store.branch_index (s.branches b).id ≡ some (at b)
    pub root : l.root ≡ (if ltb (at r) i then some (at r) else none)

module _ {T : Type 0} ⦃ix : Index T⦄ {s : Store T} {live : ℕ → Bool} (inv : IsStored s live) where
  -- The record of a branch is where its place says.
  pub head_in-at : (b : ℕ) → live b ≡ true → head_in s live (at s live b) ≡ head_at s.branches b
  unfolding offset
  head_in-at b here =
      let low = inv.placed b here in
      let whole : at s live b * 20 % u32_mod ≡ at s live b * 20 = omega (arith, low, inv.limited) in
      ap (λ n. s.disk.heads n) (sym whole) ∙ inv.filed b here

  pub apart_at :
      (a b : ℕ)
      → live a ≡ true
      → live b ≡ true
      → (a == b) ≡ false
      → (at s live a == at s live b) ≡ false
  apart_at a b la lb differ = elim (Bool-cases (at s live a == at s live b)) [
    | inr out ↦ out
    | inl same ↦
        let e = inv.apart a b la lb (eq_of_== (at s live a) (at s live b) same) in
        absurd (ground arith)
  ]

  module _ {slot : ℕ → Option ℕ} {row : ℕ → Option (ℕ × Text)} {r : ℕ}
      (file : IsFile s live slot row r) where
    -- A record of no branch changes nothing.
    pub skip :
        (i : ℕ) (l : Loading T)
        → slot i ≡ none
        → IsLoaded s live r i l
        → IsLoaded s live r (i + 1) l
    skip i l gone k = record {
      cells = λ b lb. let differ = none_at b lb in let cell = k.cells b lb in ground arith;
      arrays = λ b lb.
          k.arrays b lb
          ∙ sym (
              marks-skip (at s live) i (kids s.branches b)
                (λ c m. none_at c (live_kid inv b c lb m)));
      index = k.index;
      root = let differ = none_at r file.root_live in let now = k.root in ground arith;
    }
      where
        none_at : (b : ℕ) → live b ≡ true → (at s live b == i) ≡ false
        none_at b lb = elim (Bool-cases (at s live b == i)) [
          | inr out ↦ out
          | inl same ↦
              let here = file.slot_of b lb in
              let moved = subst (λ x. slot x ≡ some b) (eq_of_== (at s live b) i same) here in
              absurd cc
        ]

    -- The array of a branch that the record is no child of stays.
    pub same_array :
        (b c : ℕ)
        → live b ≡ true
        → live c ≡ true
        → (parent_of s.branches b ≡ some c → ⊥)
        → marks (at s live) (at s live b + 1) (kids s.branches c)
          ≡ marks (at s live) (at s live b) (kids s.branches c)
    same_array b c lb lc stranger = marks-skip (at s live) (at s live b) (kids s.branches c) (λ x m.
        elim (Bool-cases (b == x)) [
          | inl same ↦ absurd (
              stranger (
                parent-kid c b inv.forest.shape
                  (subst (λ y. has y (kids s.branches c) ≡ true) (sym (eq_of_== b x same)) m)))
          | inr differ ↦ let apart = apart_at b x lb (live_kid inv c x lc m) differ in ground arith
        ])

    -- The next state, once the record of `b` has been dealt with.
    pub advance :
        (b : ℕ) (l l1 : Loading T)
        → live b ≡ true
        → IsLoaded s live r (at s live b) l
        → ((x : ℕ) → (at s live b == x) ≡ false → l1.store.branches x ≡ l.store.branches x)
        → l1.store.branches (at s live b) ≡ after s live b
        → ((c : ℕ)
            → live c ≡ true
            → l1.arrays (at s live c) ≡ marks (at s live) (at s live b + 1) (kids s.branches c))
        → l1.store.branch_index ≡ l.store.branch_index
        → l1.root ≡ (if ltb (at s live r) (at s live b + 1) then some (at s live r) else none)
        → IsLoaded s live r (at s live b + 1) l1
    advance b l l1 lb k others here arrays index root = record {
      cells = λ c lc. elim (Bool-cases (b == c)) [
        | inl same ↦
            subst
              (λ y.
                l1.store.branches (at s live y)
                ≡ (if ltb (at s live y) (at s live b + 1) then after s live y else before s live y))
              (eq_of_== b c same) (ground (arith, here))
        | inr differ ↦
            let apart = apart_at b c lb lc differ in
            let kept = others (at s live c) apart in
            let cell = k.cells c lc in
            let still : ltb (at s live c) (at s live b + 1) ≡ ltb (at s live c) (at s live b) =
              ground arith in
            kept ∙ (cell ∙ rw still refl)
      ];
      arrays = arrays;
      index = λ c lc. ap (λ t. ix.find t (s.branches c).id) index ∙ k.index c lc;
      root = root;
    }
