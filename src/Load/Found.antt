-- ===== src/Load/Found.antt =====
-- What io_load_map (src/io.c:192) leaves of the file of a well-formed map: every address, the index
-- and the file.
use treedb.Prelude.{
  ℕ, zero, suc, ◌+◌, ◌%◌, ◌≡◌, refl, ap, ◌∙◌, sym, subst, inl, inr, Bool, true, false, Option, none,
  some, List, [], arith, Bool-cases, Option-cases, length, eq_of_==,
}
use treedb.Index.{Index}
use treedb.Branch.{Text, u32_mod}
use treedb.Io.{Bhead}
use treedb.Store.{Store}
use treedb.Store.Invariant.{IsStored}
use treedb.Load.{Loading, calloc_map, io_load_map}
use treedb.Load.Made.{records, in_file, find-make_all_sound}
use treedb.Load.Placed.{at, head_in, IsFile, head_in-at}
use treedb.Load.Back.{io_load_map-loaded}
use treedb.Load.Kept.{started, io_load_map_kept}
use treedb.Load.Image.{image, image_of, image-at}

length-records : (f : ℕ → Bhead) (i n : ℕ) → length (records f i n) ≡ n
length-records f i zero = refl
length-records f i (suc n) = ap suc (length-records f (i + 1) n)

module _ {T : Type 0} ⦃ix : Index T⦄ {s : Store T} {live : ℕ → Bool} (inv : IsStored s live)
    {slot : ℕ → Option ℕ} {row : ℕ → Option (ℕ × Text)} {r : ℕ}
    (file : IsFile s live slot row r) where
  abbrev pub bheads : List Bhead
  bheads = records (head_in s live) 0 s.branch_n

  -- An address that is not in use is of no record.
  gone_out : (i : ℕ) → slot i ≡ none → in_file (head_in s live) 0 s.branch_n i ≡ false
  gone_out i gone = elim (Bool-cases (in_file (head_in s live) 0 s.branch_n i)) [
    | inr out ↦ out
    | inl m ↦ absurd (ground (arith, file.free i (ground arith) gone))
  ]

  -- What io_load_map leaves, and that is all of it: every address, the index and the file.
  pub record IsImage (t : Store T) : Type 0 where
    pub cells : (i : ℕ) → t.branches i ≡ image inv file i
    pub complete :
        (b : ℕ) → live b ≡ true → ix.find t.branch_index (s.branches b).id ≡ some (at s live b)
    pub sound :
        (k i : ℕ)
        → ix.find t.branch_index k ≡ some i
        → (b : ℕ) × (slot i ≡ some b) × ((s.branches b).id ≡ k)
    pub addresses : t.next ≡ s.branch_n
    pub records : t.branch_n ≡ s.branch_n
    pub disk : t.disk ≡ s.disk

  sound_lem :
      (k i : ℕ)
      → ix.find (started row (head_in s live) s.branch_n s.disk).store.branch_index k ≡ some i
      → (b : ℕ) × (slot i ≡ some b) × ((s.branches b).id ≡ k)
  sound_lem k i e =
      let start : Loading T = record { store = calloc_map s.disk; arrays = λ x. []; root = none } in
      elim (find-make_all_sound (head_in s live) s.branch_n 0 k i start e) [
        | inr before ↦ let never = sym (ix.find-create k) ∙ before in absurd (cc)
        | inl (m, id) ↦ elim (Option-cases (slot i)) [
          | inl gone ↦ let out = sym m ∙ gone_out i gone in absurd (cc)
          | inr (b, here) ↦
              let (lb, at_b) = file.slot_live i b here in
              let head = ap (λ (x : Bhead). x.id) (head_in-at inv b lb) in
              (
                b,
                here,
                sym head
                    ∙ (ap (λ x. (head_in s live x).id) at_b ∙ eq_of_== (head_in s live i).id k id),
              )
        ]
      ]

  pub image_lem :
      (t : Store T) × (io_load_map row bheads (calloc_map s.disk) ≡ some (t, some (at s live r)))
      × IsImage t
  image_lem =
      let (t, made, cells, index) = io_load_map-loaded inv file s.disk in
      let (table, next, n, disk, others) =
        io_load_map_kept row (head_in s live) s.branch_n s.disk t (some (at s live r)) made in
      let size = length-records (head_in s live) 0 s.branch_n in
      (
        t,
        made,
        record {
          cells = λ i. elim (Option-cases (slot i)) [
            | inl gone ↦ others i (gone_out i gone) ∙ ap (image_of inv file) (sym gone)
            | inr (b, e) ↦
                let (lb, at_b) = file.slot_live i b e in
                subst (λ x. t.branches x ≡ image inv file x) at_b
                  (cells b lb ∙ sym (image-at inv file b lb))
          ];
          complete = index;
          sound = λ k i e. sound_lem k i (ap (λ x. ix.find x k) (sym table) ∙ e);
          addresses = next ∙ size;
          records = n ∙ (ap (λ x. x % u32_mod) size ∙ omega (arith, inv.limited));
          disk = disk;
        },
      )
