-- ===== src/Json.antt =====
-- The getters of src/helpers.c:173 for the fields of a message.
--
-- Jansson is not part of the program: `Json` is what the program asks it about a value, with the
-- law that a value is of one kind. A text of Jansson has no byte 0 inside, and json_integer_value is
-- given for an integer.
pub mod Names
pub mod Fields
use treedb.Prelude.{
  ℕ, zero, suc, ◌+◌, ◌%◌, ◌^◌, Bool, true, false, Option, none, some, List, [], ◌∷◌, ◌==◌, ltb,
  if◌then◌else◌, ◌>>=◌, length, take, ◌≡◌,
}
use treedb.Prelude.Int.{ℤ, pos, negsuc}
use treedb.Codec.Hex.{hex2id32, hex2id64}
use treedb.Branch.{Text, u32_mod}
use treedb.Io.{to_u16}

-- `none` is a value of another kind, and a name that an object does not have.
pub record Json (J : Type 0) : Type 0 where
  pub loads : Text → Option J
  pub object_get : J → Text → Option J
  pub is_object : J → Bool
  pub integer : J → Option ℤ
  pub string : J → Option Text
  pub array : J → Option (List J)
  pub string-integer : (j : J) (t : Text) → string j ≡ some t → integer j ≡ none
  pub string-array : (j : J) (t : Text) → string j ≡ some t → array j ≡ none

-- `json_is_integer(obj) && json_integer_value(obj) == 0`.
abbrev pub is_zero : Option ℤ → Bool
is_zero none = false
is_zero (some (pos n)) = n == 0
is_zero (some (negsuc n)) = false

-- The entries that the loops of json_get_id64s and json_get_strs leave as malloc made them are
-- `none`.
abbrev pub decoded : {A : Type 0} → (Text → A) → Option Text → Option A
decoded f none = none
decoded f (some t) = some (f t)

-- A list with an entry that was left so is taken for a fault: the code reads it.
unfoldable pub all_set : {A : Type 0} → List (Option A) → Option (List A)
all_set [] = some []
all_set (none ∷ l) = none
all_set (some a ∷ l) = all_set l >>= λ r. some (a ∷ r)

-- The size of an array that is read: at most 10000 elements, after the cast to uint32_t.
abbrev pub capped : ℕ → ℕ
capped size = let n = size % u32_mod in if ltb 10000 n then 10000 else n

module _ {J : Type 0} ⦃js : Json J⦄ where
  -- The outcome is none where the getter returns 0.
  abbrev pub id_of : (Text → ℕ) → J → Option ℕ
  id_of f obj = if is_zero (js.integer obj) then some 0 else decoded f (js.string obj)

  unfoldable pub json_get_id32 : J → Text → Option ℕ
  json_get_id32 parent name = js.object_get parent name >>= λ obj. id_of hex2id32 obj

  unfoldable pub json_get_id64 : J → Text → Option ℕ
  json_get_id64 parent name = js.object_get parent name >>= λ obj. id_of hex2id64 obj

  -- The loop over the first `n` elements of the array.
  unfoldable pub elements : {A : Type 0} → (Text → A) → ℕ → List J → List (Option A)
  elements f zero l = []
  elements f (suc n) [] = []
  elements f (suc n) (el ∷ l) = decoded f (js.string el) ∷ elements f n l

  -- What json_get_id64s and json_get_strs do for a value that may be missing. They return 1 always.
  unfoldable pub entries : {A : Type 0} → (Text → A) → Option J → List (Option A)
  unfolding elements
  entries f none = []
  entries f (some obj) = elim (js.array obj) [
    | none ↦ []
    | some l ↦ elements f (capped (length l)) l
  ]

  unfoldable pub json_get_id64s : J → Text → List (Option ℕ)
  unfolding entries
  json_get_id64s parent name = entries hex2id64 (js.object_get parent name)

  unfoldable pub json_get_strs : J → Text → List (Option Text)
  unfolding entries
  json_get_strs parent name = entries (λ t. t) (js.object_get parent name)

  unfoldable pub json_get_str : J → Text → Option Text
  json_get_str parent name = js.object_get parent name >>= λ obj. js.string obj

  unfoldable pub json_get_int16 : J → Text → Option ℕ
  json_get_int16 parent name =
      js.object_get parent name >>= λ obj. js.integer obj >>= λ n. some (to_u16 n)
