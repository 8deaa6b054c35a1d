-- ===== src/Load/Kept.antt =====
-- What io_load_map (src/io.c:192) leaves alone, whatever the file holds: the second and the third
-- loop write to the branches of records that are not deleted, and to nothing else of the map.
use treedb.Prelude.{
  ℕ, zero, suc, ◌+◌, ◌%◌, ◌≡◌, refl, ap, ◌∙◌, sym, subst, inl, inr, Bool, false, not, Option, none,
  some, [], ◌&&◌, arith, ◌==◌, if◌then◌else◌, Bool-cases, Option-cases, length, ◌>>=◌, eq_of_==,
}
use treedb.Index.{Index}
use treedb.Branch.{Text, Branches, update, u32_mod}
use treedb.Io.{Bhead, Disk}
use treedb.Json.{all_set}
use treedb.Store.{Store, new_branch, branch_index_get, branch_index_put}
use treedb.Load.{
  Loading, calloc_map, io_load_map, set_entry, make_all, make_branch, place_branch, branch_load,
  place_all, seal, blank_branch,
}
use treedb.Load.Made.{records, in_file, branches-make_all}

rest_out :
    (f : ℕ → Bhead) (n i x : ℕ) → in_file f i (suc n) x ≡ false → in_file f (i + 1) n x ≡ false
rest_out f n i x out = ground arith

first_out :
    (f : ℕ → Bhead) (n i x : ℕ)
    → in_file f i (suc n) x ≡ false
    → (not ((f i).id == 0) && (i == x)) ≡ false
first_out f n i x out = elim (Bool-cases (i == x)) [
  | inl here ↦ let id = ap (λ y. (f y).id) (eq_of_== i x here) in ground arith
  | inr there ↦ ground arith
]

module _ {T : Type 0} ⦃ix : Index T⦄ where
  -- From `s` to `t` nothing changes but branches at marked addresses.
  pub record Kept (s t : Store T) (marked : ℕ → Bool) : Type 0 where
    pub index : t.branch_index ≡ s.branch_index
    pub addresses : t.next ≡ s.next
    pub records : t.branch_n ≡ s.branch_n
    pub disk : t.disk ≡ s.disk
    pub cells : (x : ℕ) → marked x ≡ false → t.branches x ≡ s.branches x

  -- A step that gives this state, or none.
  abbrev store_or : Store T → Option (Loading T) → Store T
  store_or s none = s
  store_or s (some l) = l.store

  Kept-of :
      {s t : Store T} (u : Store T) (marked : ℕ → Bool) → Kept s u marked → u ≡ t → Kept s t marked
  Kept-of {s} u marked k e = subst (λ x. Kept s x marked) e k

  Kept-write :
      (s : Store T) (h : Branches) (i : ℕ)
      → ((x : ℕ) → (i == x) ≡ false → h x ≡ s.branches x)
      → Kept s (record s { branches = h }) (λ x. i == x)
  Kept-write s h i same = record {
    index = refl;
    addresses = refl;
    records = refl;
    disk = refl;
    cells = same;
  }

  place_branch-Kept :
      (l l1 : Loading T) (i : ℕ) (bhead : Bhead)
      → place_branch l i bhead ≡ some l1
      → Kept l.store l1.store (λ x. i == x)
  unfolding place_branch branch_index_get
  place_branch-Kept l l1 i bhead made = elim (Bool-cases (bhead.parent_id == 0)) [
    | inl root ↦
        Kept-of l.store (λ x. i == x) (Kept-write l.store l.store.branches i (λ x m. refl))
          (ap (store_or l.store) (rw root at made))
    | inr low ↦ elim (Option-cases (ix.find l.store.branch_index bhead.parent_id)) [
      | inl missing ↦ let none_of = rw (low, missing) at made in absurd (cc)
      | inr (p, found) ↦ elim (Option-cases (set_entry (l.arrays p) bhead.place i)) [
        | inl out ↦ let none_of = rw (low, found, out) at made in absurd (cc)
        | inr (a, written) ↦
            let h = l.store.branches in
            let h1 = update h i (record (h i) { parent = some p }) in
            Kept-of (record (l.store) { branches = h1 }) (λ x. i == x)
              (Kept-write l.store h1 i (λ x m. rw m refl))
              (ap (store_or l.store) (rw (low, found, written) at made))
      ]
    ]
  ]

  branch_load-Kept :
      (row : ℕ → Option (ℕ × Text)) (l l1 : Loading T) (i : ℕ)
      → branch_load row l i ≡ some l1
      → Kept l.store l1.store (λ x. i == x)
  unfolding branch_load
  branch_load-Kept row l l1 i made = elim (Option-cases (row (l.store.branches i).id)) [
    | inl missing ↦ let none_of = rw missing at made in absurd (cc)
    | inr (r, found) ↦
        let h = l.store.branches in
        let h1 =
          update h i (record (h i) { content = (new_branch i (h i).id (r.1) (r.0)).content }) in
        Kept-of (record (l.store) { branches = h1 }) (λ x. i == x)
          (Kept-write l.store h1 i (λ x m. rw m refl)) (ap (store_or l.store) (rw found at made))
  ]

  Kept-trans :
      {s t u : Store T} {a b : ℕ → Bool} (c : ℕ → Bool)
      → Kept s t a
      → Kept t u b
      → ((x : ℕ) → c x ≡ false → (a x ≡ false) × (b x ≡ false))
      → Kept s u c
  Kept-trans c k m out = record {
    index = m.index ∙ k.index;
    addresses = m.addresses ∙ k.addresses;
    records = m.records ∙ k.records;
    disk = m.disk ∙ k.disk;
    cells = λ x e. m.cells x (out x e).1 ∙ k.cells x (out x e).0;
  }

  module _ (row : ℕ → Option (ℕ × Text)) (f : ℕ → Bhead) where
    round-Kept :
        (i : ℕ) (l l1 : Loading T)
        → (if (f i).id == 0
            then some l
            else (place_branch l i (f i) >>= λ l2. branch_load row l2 i))
          ≡ some l1
        → Kept l.store l1.store (λ x. not ((f i).id == 0) && (i == x))
    round-Kept i l l1 made = elim (Bool-cases ((f i).id == 0)) [
      | inl gone ↦
          Kept-of l.store (λ x. not ((f i).id == 0) && (i == x))
            (record {
              index = refl;
              addresses = refl;
              records = refl;
              disk = refl;
              cells = λ x e. refl;
            })
            (ap (store_or l.store) (rw gone at made))
      | inr here ↦ elim (Option-cases (place_branch l i (f i))) [
        | inl lost ↦ let none_of = rw (here, lost) at made in absurd (cc)
        | inr (l2, placed) ↦
            Kept-trans (λ x. not ((f i).id == 0) && (i == x))
              (place_branch-Kept l l2 i (f i) placed)
              (branch_load-Kept row l2 l1 i (rw (here, placed) at made))
              (λ x e. (ground arith, ground arith))
      ]
    ]

    place_all-Kept :
        (n i : ℕ) (l l1 : Loading T)
        → place_all row (records f i n) i l ≡ some l1
        → Kept l.store l1.store (in_file f i n)
    unfolding place_all
    place_all-Kept zero i l l1 made =
        Kept-of l.store (in_file f i zero)
          (record {
            index = refl;
            addresses = refl;
            records = refl;
            disk = refl;
            cells = λ x e. refl;
          })
          (ap (store_or l.store) made)
    place_all-Kept (suc n) i l l1 made =
        elim (Option-cases (
          if (f i).id == 0
          then some l
          else (place_branch l i (f i) >>= λ l2. branch_load row l2 i))) [
            | inl lost ↦ let none_of = rw (place_all, lost) at made in absurd (cc)
            | inr (l2, first) ↦
                Kept-trans (in_file f i (suc n)) (round-Kept i l l2 first)
                  (place_all-Kept n (i + 1) l2 l1 (rw (place_all, first) at made))
                  (λ x e. (first_out f n i x e, rest_out f n i x e))
          ]

    seal_kept :
        (n i : ℕ) (l : Loading T) (g h : Branches)
        → seal (records f i n) i l g ≡ some h
        → (x : ℕ) → in_file f i n x ≡ false
        → h x ≡ g x
    unfolding seal
    seal_kept zero i l g h made x out = let e : g ≡ h = cc in ap (λ (k : Branches). k x) (sym e)
    seal_kept (suc n) i l g h made x out = elim (Bool-cases ((f i).id == 0)) [
      | inl gone ↦ seal_kept n (i + 1) l g h (rw (seal, gone) at made) x (rest_out f n i x out)
      | inr here ↦ elim (Option-cases (all_set (l.arrays i))) [
        | inl lost ↦ let none_of = rw (seal, here, lost) at made in absurd (cc)
        | inr (cl, filled) ↦
            let g1 = update g i (record (g i) { child_list = some cl }) in
            let differ : (i == x) ≡ false = let o = first_out f n i x out in ground arith in
            seal_kept n (i + 1) l g1 h (rw (seal, here, filled) at made) x (rest_out f n i x out)
            ∙ rw differ refl
      ]
    ]

    disk-make_all :
        (n i : ℕ) (l : Loading T) → (make_all (records f i n) i l).store.disk ≡ l.store.disk
    unfolding make_all make_branch branch_index_put
    disk-make_all zero i l = refl
    disk-make_all (suc n) i l =
        disk-make_all n (i + 1) (if (f i).id == 0 then l else make_branch l i (f i)) ∙ ground arith

    -- The state before the second loop.
    abbrev pub started : ℕ → Disk → Loading T
    started n d =
        let start : Loading T = record { store = calloc_map d; arrays = λ x. []; root = none } in
        let made = make_all (records f 0 n) 0 start in
        record made {
          store = record (made.store) {
            branch_n = length (records f 0 n) % u32_mod;
            next = length (records f 0 n);
          };
        }

    pub io_load_map_kept :
        (n : ℕ) (d : Disk) (t : Store T) (o : Option ℕ)
        → io_load_map row (records f 0 n) (calloc_map d) ≡ some (t, o)
        → (t.branch_index ≡ (started n d).store.branch_index)
          × (t.next ≡ length (records f 0 n))
          × (t.branch_n ≡ length (records f 0 n) % u32_mod)
          × (t.disk ≡ d)
          × ((x : ℕ) → in_file f 0 n x ≡ false → t.branches x ≡ blank_branch)
    unfolding io_load_map
    io_load_map_kept n d t o made =
        elim (Option-cases (place_all row (records f 0 n) 0 (started n d))) [
          | inl lost ↦ let none_of = rw lost at made in absurd (cc)
          | inr (l, placed) ↦ elim (Option-cases (seal (records f 0 n) 0 l l.store.branches)) [
            | inl lost ↦ let none_of = rw (placed, lost) at made in absurd (cc)
            | inr (h, sealed) ↦
                let k = place_all-Kept n 0 (started n d) l placed in
                let start : Loading T = record {
                  store = calloc_map d;
                  arrays = λ x. [];
                  root = none;
                } in
                let same : some (record (l.store) { branches = h }, l.root) ≡ some (t, o) =
                  rw (placed, sealed) at made in
                let is : t ≡ record (l.store) { branches = h } = cc in
                (
                  ap (λ (s : Store T). s.branch_index) is ∙ k.index,
                  ap (λ (s : Store T). s.next) is ∙ k.addresses,
                  ap (λ (s : Store T). s.branch_n) is ∙ k.records,
                  ap (λ (s : Store T). s.disk) is ∙ (k.disk ∙ disk-make_all n 0 start),
                  λ x out.
                      ap (λ (s : Store T). s.branches x) is
                      ∙ (seal_kept n 0 l l.store.branches h sealed x out
                          ∙ (k.cells x out ∙ (branches-make_all f n 0 x start ∙ rw out refl))),
                )
          ]
        ]
