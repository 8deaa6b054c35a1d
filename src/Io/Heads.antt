-- ===== src/Io/Heads.antt =====
-- What the saving functions of src/io.c leave in the file: the records of a list of branches.
use treedb.Prelude.{
  ℕ, ◌+◌, ◌-◌, ◌%◌, ◌<◌, ◌≡◌, refl, ap, ◌∙◌, inl, inr, true, false, Option, none, some, List, [],
  ◌∷◌, ◌++◌, arith, ◌==◌, if◌then◌else◌, Bool-cases, Option-cases, length, has, has_of_count, count,
  drop, length-drop, eq_of_==, ==_ne, ne_of_==,
}
use treedb.Prelude.Int.{pos}
use treedb.Branch.{Branches, parent_of, kids, update, u16_mod, branch_get_pos}
use treedb.Branch.Arrays.{index_of, pos_loop-index_of}
use treedb.Branch.Forest.{Shape}
use treedb.Io.{
  Bhead, Disk, to_u16, offset, head_of, io_save_branch_head, reorder_loop, io_childs_reordered,
}

-- The record of a branch, on a well-formed heap.
abbrev pub place_of : Branches → ℕ → Option ℕ → ℕ
place_of h b none = 0
place_of h b (some p) = index_of b (kids h p)

abbrev pub parent_id_of : Branches → Option ℕ → ℕ
parent_id_of h none = 0
parent_id_of h (some p) = (h p).id

abbrev pub head_at : Branches → ℕ → Bhead
head_at h b = record {
  id = (h b).id;
  parent_id = parent_id_of h (parent_of h b);
  place = place_of h b (parent_of h b);
  child_n = (h b).child_n;
}

pub has-kids_parent :
    {h : Branches} (b p : ℕ) → Shape h → parent_of h b ≡ some p → has b (kids h p) ≡ true
has-kids_parent {h} b p s e =
    let once : count b (kids h p) ≡ 1 = ground (arith, s.linked p b) in
    has_of_count b (kids h p) (omega arith)

pub index_of-lt : (b : ℕ) (l : List ℕ) → has b l ≡ true → index_of b l < length l
index_of-lt b [] m = absurd (ground arith)
index_of-lt b (x ∷ l) m = ground (arith, index_of-lt b l)

-- branch_get_pos finds the place of a branch among its parent's childs.
pub branch_get_pos_lem :
    {h : Branches} (b p : ℕ)
    → Shape h
    → parent_of h b ≡ some p
    → branch_get_pos h b ≡ some (pos (index_of b (kids h p)))
unfolding branch_get_pos
branch_get_pos_lem {h} b p s e =
    let found = pos_loop-index_of 0 (kids h p) b (has-kids_parent b p s e) in
    let from_zero : 0 + index_of b (kids h p) ≡ index_of b (kids h p) = omega arith in
    let size = s.sized p in ground arith

pub head_of-head_at : {h : Branches} (b : ℕ) → Shape h → head_of h b ≡ some (head_at h b)
unfolding head_of to_u16
head_of-head_at {h} b s = elim (Option-cases (parent_of h b)) [
  | inl e ↦ ground arith
  | inr (p, e) ↦
      let found = branch_get_pos_lem b p s e in
      let low = index_of-lt b (kids h p) (has-kids_parent b p s e) in
      let size = s.sized p in
      let small = s.small p in
      let whole : index_of b (kids h p) % u16_mod ≡ index_of b (kids h p) = omega arith in
      ground arith
]

-- The file after the record of `b` is written.
unfoldable pub save_one : Branches → Disk → ℕ → Disk
save_one h d b =
    if d.test then d else record d { heads = update d.heads (offset h b) (head_at h b) }

-- The file after the records of the branches `bs` are written.
unfoldable pub save_all : Branches → Disk → List ℕ → Disk
save_all h d [] = d
save_all h d (b ∷ bs) = save_all h (save_one h d b) bs

pub save_all-append :
    (h : Branches) (d : Disk) (xs ys : List ℕ)
    → save_all h d (xs ++ ys) ≡ save_all h (save_all h d xs) ys
unfolding save_all
save_all-append h d [] ys = refl
save_all-append h d (x ∷ xs) ys = save_all-append h (save_one h d x) xs ys

test-save_one : (h : Branches) (d : Disk) (b : ℕ) → (save_one h d b).test ≡ d.test
unfolding save_one
test-save_one h d b = ground arith

pub test-save_all : (h : Branches) (d : Disk) (bs : List ℕ) → (save_all h d bs).test ≡ d.test
unfolding save_all
test-save_all h d [] = refl
test-save_all h d (b ∷ bs) = test-save_all h (save_one h d b) bs ∙ test-save_one h d b

heads-save_one :
    (h : Branches) (d : Disk) (b n : ℕ)
    → d.test ≡ false
    → (save_one h d b).heads n ≡ (if offset h b == n then head_at h b else d.heads n)
unfolding save_one
heads-save_one h d b n live = ground arith

pub io_save_branch_head_lem :
    {h : Branches} (d : Disk) (b : ℕ) → Shape h → io_save_branch_head h d b ≡ some (save_one h d b)
unfolding io_save_branch_head save_one
io_save_branch_head_lem d b s = ground (arith, head_of-head_at b s)

pub reorder_loop_lem :
    {h : Branches} (d : Disk) (cl : List ℕ)
    → Shape h
    → reorder_loop (length cl) cl h d ≡ some (save_all h d cl)
unfolding reorder_loop save_all
reorder_loop_lem d [] s = refl
reorder_loop_lem {h} d (c ∷ cl) s =
    ground (arith, io_save_branch_head_lem d c s, reorder_loop_lem {h = h} (save_one h d c) cl s)

-- The records of the childs from place `k` on.
pub io_childs_reordered_lem :
    {h : Branches} (d : Disk) (b k : ℕ)
    → Shape h
    → io_childs_reordered h d b k ≡ some (save_all h d (drop k (kids h b)))
unfolding io_childs_reordered
io_childs_reordered_lem {h} d b k s =
    let size : (h b).child_n - k ≡ length (drop k (kids h b)) =
      omega (arith, s.sized b, length-drop k (kids h b)) in
    rw size (reorder_loop_lem d (drop k (kids h b)) s)

-- Among branches whose offsets differ, exactly the records of `bs` are new.
pub heads-save_all :
    (h : Branches) (d : Disk) (bs : List ℕ) (x : ℕ)
    → d.test ≡ false
    → ((y : ℕ) → has y bs ≡ true → offset h y ≡ offset h x → y ≡ x)
    → (save_all h d bs).heads (offset h x)
      ≡ (if has x bs then head_at h x else d.heads (offset h x))
unfolding save_all
heads-save_all h d [] x live apart = refl
heads-save_all h d (b ∷ bs) x live apart =
    let rest =
      heads-save_all h (save_one h d b) bs x (test-save_one h d b ∙ live)
        (λ y m. apart y (ground arith)) in
    let one = heads-save_one h d b (offset h x) live in
    elim (Bool-cases (b == x)) [
      | inl here ↦
          let same = eq_of_== b x here in ground (arith, ap (head_at h) same, ap (offset h) same)
      | inr there ↦
          let differ : (offset h b == offset h x) ≡ false =
            ==_ne _ _ (λ e. ne_of_== b x there (apart b (ground arith) e)) in
          ground arith
    ]

-- The record of a branch depends on its id, its links, its place and its parent's id.
pub head_at-same :
    (g h : Branches) (x : ℕ)
    → (g x).id ≡ (h x).id
    → (g x).child_n ≡ (h x).child_n
    → parent_of g x ≡ parent_of h x
    → ((q : ℕ)
        → parent_of h x ≡ some q
        → ((g q).id ≡ (h q).id) × (index_of x (kids g q) ≡ index_of x (kids h q)))
    → head_at g x ≡ head_at h x
head_at-same g h x ids sizes parents above = elim (Option-cases (parent_of h x)) [
  | inl e ↦ ground arith
  | inr (q, e) ↦ let (id_q, place) = above q e in ground arith
]
