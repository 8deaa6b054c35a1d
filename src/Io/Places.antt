-- ===== src/Io/Places.antt =====
-- Places in a child array, before and after an insertion or a removal: what io_childs_reordered
-- (src/io.c:153) may leave as it is.
use treedb.Prelude.{
  ℕ, zero, suc, ◌<◌, ◌≡◌, ◌≢◌, refl, true, false, List, [], ◌∷◌, arith, has, drop, insert_at,
  remove,
}
use treedb.Branch.Arrays.{index_of}

-- What is not behind a place stands before it.
pub index_of-lt_of_drop :
    (x n : ℕ) (l : List ℕ) → has x l ≡ true → has x (drop n l) ≡ false → index_of x l < n
index_of-lt_of_drop x zero l m out = absurd (ground arith)
index_of-lt_of_drop x (suc n) [] m out = absurd (ground arith)
index_of-lt_of_drop x (suc n) (y ∷ l) m out = ground (arith, index_of-lt_of_drop x n l)

-- A place before that of the inserted branch stays.
pub index_of-insert_at_lt :
    (x b j : ℕ) (l : List ℕ)
    → index_of x (insert_at j b l) < index_of b (insert_at j b l)
    → index_of x (insert_at j b l) ≡ index_of x l
index_of-insert_at_lt x b zero l lt = absurd (ground arith)
index_of-insert_at_lt x b (suc j) [] lt = absurd (ground arith)
index_of-insert_at_lt x b (suc j) (y ∷ l) lt = ground (arith, index_of-insert_at_lt x b j l)

-- A place before that of the removed branch stays.
pub index_of-remove_lt :
    (x b : ℕ) (l : List ℕ)
    → x ≢ b
    → index_of x (remove b l) < index_of b l
    → index_of x (remove b l) ≡ index_of x l
index_of-remove_lt x b [] ne lt = refl
index_of-remove_lt x b (y ∷ l) ne lt = ground (arith, index_of-remove_lt x b l)

-- Different branches of an array have different places.
pub index_of-ne : (x b : ℕ) (l : List ℕ) → has x l ≡ true → x ≢ b → index_of x l ≢ index_of b l
index_of-ne x b [] m ne e = absurd (ground arith)
index_of-ne x b (y ∷ l) m ne e = ground (arith, index_of-ne x b l)
