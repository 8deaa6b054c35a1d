-- ===== src/Prelude/Lists.antt =====
-- Lists of addresses, measured and searched by native numbers.
use Prim.Native.Nat.{ℕ, zero, suc, ◌+◌, ◌-◌, ◌≤◌, ◌<◌}
use mathlib.Core.Path.{◌≡◌, refl, ap}
use mathlib.Core.Bool.{Bool, true, false, ◌||◌}
use mathlib.Core.List.{List, [], ◌∷◌, ◌++◌}
use mathlib.Core.Option.{Option, none, some}
use native.Mathlib.Omega.{arith}
use treedb.Prelude.Tests.{◌==◌, if◌then◌else◌}

module _ {ℓ} {A : Type ℓ} where
  abbrev pub length : List A → ℕ
  length [] = 0
  length (x ∷ xs) = suc (length xs)

  abbrev pub get_elem? : List A → ℕ → Option A
  get_elem? [] i = none
  get_elem? (x ∷ xs) zero = some x
  get_elem? (x ∷ xs) (suc i) = get_elem? xs i

  abbrev pub take : ℕ → List A → List A
  take zero xs = []
  take (suc n) [] = []
  take (suc n) (x ∷ xs) = x ∷ take n xs

  abbrev pub drop : ℕ → List A → List A
  drop zero xs = xs
  drop (suc n) [] = []
  drop (suc n) (x ∷ xs) = drop n xs

  -- `x` put in front of the element at `k`, or at the end.
  abbrev pub insert_at : ℕ → A → List A → List A
  insert_at zero x l = x ∷ l
  insert_at (suc k) x [] = x ∷ []
  insert_at (suc k) x (y ∷ l) = y ∷ insert_at k x l

  pub length-append : (xs ys : List A) → length (xs ++ ys) ≡ length xs + length ys
  length-append [] ys = omega arith
  length-append (x ∷ xs) ys = omega (arith, length-append xs ys)

  pub length-insert_at : (k : ℕ) (x : A) (l : List A) → length (insert_at k x l) ≡ suc (length l)
  length-insert_at zero x l = refl
  length-insert_at (suc k) x [] = refl
  length-insert_at (suc k) x (y ∷ l) = ap suc (length-insert_at k x l)

  pub length-drop : (n : ℕ) (xs : List A) → length (drop n xs) ≡ length xs - n
  length-drop zero xs = omega arith
  length-drop (suc n) [] = omega arith
  length-drop (suc n) (x ∷ xs) = omega (arith, length-drop n xs)

  pub nil_of_length : (l : List A) → length l ≡ 0 → l ≡ []
  nil_of_length [] e = refl
  nil_of_length (x ∷ l) e = absurd (omega arith)

  pub insert_at-nil : (k : ℕ) (x : A) → insert_at k x [] ≡ x ∷ []
  insert_at-nil zero x = refl
  insert_at-nil (suc k) x = refl

-- Lists of numbers.
abbrev pub has : ℕ → List ℕ → Bool
has a [] = false
has a (x ∷ xs) = (x == a) || has a xs

abbrev pub count : ℕ → List ℕ → ℕ
count a [] = 0
count a (x ∷ xs) = (if x == a then 1 else 0) + count a xs

-- `l` without the entries equal to `a`.
abbrev pub remove : ℕ → List ℕ → List ℕ
remove a [] = []
remove a (x ∷ xs) = if x == a then remove a xs else x ∷ remove a xs

pub count-insert_at :
    (a k x : ℕ) (l : List ℕ) → count a (insert_at k x l) ≡ (if x == a then 1 else 0) + count a l
count-insert_at a zero x l = refl
count-insert_at a (suc k) x [] = refl
count-insert_at a (suc k) x (y ∷ l) = omega (arith, count-insert_at a k x l)

pub count-remove : (a b : ℕ) (l : List ℕ) → count a (remove b l) ≡ (if b == a then 0 else count a l)
count-remove a b [] = ground arith
count-remove a b (x ∷ xs) = ground (arith, count-remove a b xs)

pub length-remove : (b : ℕ) (l : List ℕ) → length (remove b l) + count b l ≡ length l
length-remove b [] = omega arith
length-remove b (x ∷ xs) = ground (arith, length-remove b xs)

pub has_of_count : (a : ℕ) (l : List ℕ) → 0 < count a l → has a l ≡ true
has_of_count a [] h = absurd (omega arith)
has_of_count a (x ∷ xs) h = ground (arith, has_of_count a xs)

pub count_of_has : (a : ℕ) (l : List ℕ) → has a l ≡ true → 0 < count a l
count_of_has a [] h = absurd (ground arith)
count_of_has a (x ∷ xs) h = ground (arith, count_of_has a xs)

pub count_of_not_has : (a : ℕ) (l : List ℕ) → has a l ≡ false → count a l ≡ 0
count_of_not_has a [] h = refl
count_of_not_has a (x ∷ xs) h = ground (arith, count_of_not_has a xs)

pub has-remove : (a b : ℕ) (l : List ℕ) → has a (remove b l) ≡ true → has a l ≡ true
has-remove a b [] h = absurd (ground arith)
has-remove a b (x ∷ xs) h = ground (arith, has-remove a b xs)

-- Different numbers below `n` are at most `n`.
pub length_bounded :
    (n : ℕ) (l : List ℕ)
    → ((a : ℕ) → count a l ≤ 1)
    → ((a : ℕ) → has a l ≡ true → a < n)
    → length l ≤ n
length_bounded zero [] once below = omega arith
length_bounded zero (x ∷ l) once below = absurd (omega (arith, below x (ground arith)))
length_bounded (suc n) l once below =
    let rest =
      length_bounded n (remove n l) (λ a. ground (arith, count-remove a n l, once a))
        (λ a m. below_rest a m) in
    omega (arith, rest, length-remove n l, once n)
  where
    below_rest : (a : ℕ) → has a (remove n l) ≡ true → a < n
    below_rest a m =
        ground
          (arith, below a (has-remove a n l m), count-remove a n l, count_of_has a (remove n l) m)

pub has-drop : (a n : ℕ) (l : List ℕ) → has a (drop n l) ≡ true → has a l ≡ true
has-drop a zero l m = m
has-drop a (suc n) [] m = m
has-drop a (suc n) (x ∷ l) m = ground (arith, has-drop a n l)

pub has-append : (a : ℕ) (xs ys : List ℕ) → has a (xs ++ ys) ≡ (has a xs || has a ys)
has-append a [] ys = refl
has-append a (x ∷ xs) ys = ground (arith, has-append a xs ys)
