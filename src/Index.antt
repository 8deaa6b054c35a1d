-- ===== src/Index.antt =====
-- The tables of the program: red-black trees of items that order by their id (compare32 and
-- compare64 of src/helpers.h), from the libavl copy under src/lib. They are not modelled: an
-- `Index` is what the program calls, with the laws that the library documents. A value is an
-- address. rb_replace inserts the item or takes the place of one with an equal id.
use treedb.Prelude.{ℕ, refl, Option, none, some, ◌≡◌, ◌==◌, if◌then◌else◌}

pub record Index (T : Type 0) : Type 0 where
  pub create : T
  pub find : T → ℕ → Option ℕ
  pub replace : T → ℕ → ℕ → T
  pub delete : T → ℕ → T
  pub find-create : (k : ℕ) → find create k ≡ none
  pub find-replace :
      (t : T) (k v j : ℕ) → find (replace t k v) j ≡ (if k == j then some v else find t j)
  pub find-delete : (t : T) (k j : ℕ) → find (delete t k) j ≡ (if k == j then none else find t j)

-- A table that keeps the laws: a function.
abbrev pub FunTable : Type 0
FunTable = ℕ → Option ℕ

instance abbrev pub fun_index : Index FunTable
fun_index = record {
  create = λ k. none;
  find = λ t k. t k;
  replace = λ t k v j. if k == j then some v else t j;
  delete = λ t k j. if k == j then none else t j;
  find-create = λ k. refl;
  find-replace = λ t k v j. refl;
  find-delete = λ t k j. refl;
}
