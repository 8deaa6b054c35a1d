-- ===== src/Load/Marks.antt =====
-- The child arrays while io_load_map fills them (src/io.c:267).
use treedb.Prelude.{
  ℕ, ◌+◌, ◌≤◌, ◌<◌, ◌≡◌, refl, ap, inl, inr, true, false, Option, none, some, List, [], ◌∷◌, arith,
  ◌==◌, ==_self, ltb, if◌then◌else◌, Bool-cases, length, has, count, count_of_has, map, eq_of_==,
}
use treedb.Branch.Arrays.{index_of}
use treedb.Json.{all_set}
use treedb.Load.{unset, set_entry}

-- The array of a branch whose childs are at `f` in the file, after the first `i` records.
abbrev pub marks : (ℕ → ℕ) → ℕ → List ℕ → List (Option ℕ)
marks f i [] = []
marks f i (c ∷ l) = (if ltb (f c) i then some (f c) else none) ∷ marks f i l

pub marks-zero : (f : ℕ → ℕ) (l : List ℕ) → marks f 0 l ≡ unset (length l)
unfolding unset
marks-zero f [] = refl
marks-zero f (c ∷ l) = ground (arith, marks-zero f l)

-- A record of no child changes nothing.
pub marks-skip :
    (f : ℕ → ℕ) (i : ℕ) (l : List ℕ)
    → ((c : ℕ) → has c l ≡ true → (f c == i) ≡ false)
    → marks f (i + 1) l ≡ marks f i l
marks-skip f i [] other = refl
marks-skip f i (c ∷ l) other =
    let here : (f c == i) ≡ false = other c (ground (arith, ==_self c)) in
    let rest = marks-skip f i l (λ x m. other x (ground arith)) in
    let same : ltb (f c) (i + 1) ≡ ltb (f c) i = ground arith in
    rw same (ap (λ t. (if ltb (f c) i then some (f c) else none) ∷ t) rest)

-- Only the record of `b` is `i`.
abbrev pub OnlyAt : (ℕ → ℕ) → ℕ → ℕ → List ℕ → Type 0
OnlyAt f i b l = (c : ℕ) → has c l ≡ true → f c ≡ i → c ≡ b

not_at :
    (f : ℕ → ℕ) (i b c : ℕ) (l : List ℕ)
    → OnlyAt f i b l
    → has c l ≡ true
    → (c == b) ≡ false
    → (f c == i) ≡ false
not_at f i b c l only m other = elim (Bool-cases (f c == i)) [
  | inr out ↦ out
  | inl same ↦ absurd (ground (arith, only c m))
]

absent : (b c : ℕ) (l : List ℕ) → count b l ≡ 0 → has c l ≡ true → (c == b) ≡ false
absent b c l out m = elim (Bool-cases (c == b)) [
  | inr differ ↦ differ
  | inl same ↦
      absurd (omega (arith, out, count_of_has c l m, ap (λ y. count y l) (eq_of_== c b same)))
]

-- The record of the child `b` is written at its place.
pub set_entry-marks :
    (f : ℕ → ℕ) (i b : ℕ) (l : List ℕ)
    → has b l ≡ true
    → count b l ≤ 1
    → f b ≡ i
    → OnlyAt f i b l
    → set_entry (marks f i l) (index_of b l) i ≡ some (marks f (i + 1) l)
unfolding set_entry
set_entry-marks f i b [] here once at only = absurd (ground arith)
set_entry-marks f i b (x ∷ l) here once at only = elim (Bool-cases (x == b)) [
  | inl first ↦
      let same = ap f (eq_of_== x b first) in
      let none_left : count b l ≡ 0 = ground arith in
      let rest =
        marks-skip f i l
          (λ c m. not_at f i b c (x ∷ l) only (ground arith) (absent b c l none_left m)) in
      ground (arith, same, rest)
  | inr later ↦
      let other : (f x == i) ≡ false =
        not_at f i b x (x ∷ l) only (ground (arith, ==_self x)) later in
      let rest =
        set_entry-marks f i b l (ground arith) (ground arith) at (λ c m. only c (ground arith)) in
      ground (arith, other, rest)
]

pub all_set-marks :
    (f : ℕ → ℕ) (n : ℕ) (l : List ℕ)
    → ((c : ℕ) → has c l ≡ true → f c < n)
    → all_set (marks f n l) ≡ some (map f l)
unfolding all_set
all_set-marks f n [] low = refl
all_set-marks f n (c ∷ l) low =
    let here = low c (ground (arith, ==_self c)) in
    let rest = all_set-marks f n l (λ x m. low x (ground arith)) in ground arith
