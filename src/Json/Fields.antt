-- ===== src/Json/Fields.antt =====
-- The getters of src/helpers.c:173 on the values that a client writes.
use treedb.Prelude.{
  ℕ, zero, suc, ◌≤◌, ◌<◌, ◌^◌, ◌≡◌, refl, ap, ◌∙◌, inl, inr, Option, none, some, List, [], ◌∷◌,
  arith, Option-cases, length, take,
}
use treedb.Codec.Hex.{hex2id64, id2hex64}
use treedb.Codec.Hex.RoundTrip.{hex2id64-id2hex64}
use treedb.Branch.{Text}
use treedb.Json.{Json, all_set, elements, capped, entries, json_get_id64, json_get_id64s}

capped_low : (n : ℕ) → capped n ≤ 10000
capped_low n = ground arith

take_all : (n : ℕ) (ids : List ℕ) → length ids ≤ n → take n ids ≡ ids
take_all zero [] low = refl
take_all zero (x ∷ ids) low = absurd (omega arith)
take_all (suc n) [] low = refl
take_all (suc n) (x ∷ ids) low = ap (λ l. x ∷ l) (take_all n ids (omega arith))

module _ {J : Type 0} ⦃js : Json J⦄ where
  length-elements : {A : Type 0} (f : Text → A) (n : ℕ) (l : List J) → length (elements f n l) ≤ n
  unfolding elements
  length-elements f zero l = omega arith
  length-elements f (suc n) [] = omega arith
  length-elements f (suc n) (x ∷ l) = omega (arith, length-elements f n l)

  length-entries : {A : Type 0} (f : Text → A) (o : Option J) → length (entries f o) ≤ 10000
  unfolding entries
  length-entries f none = omega arith
  length-entries f (some obj) = elim (Option-cases (js.array obj)) [
    | inl other ↦ rw (entries, other) (omega arith)
    | inr (l, e) ↦
        rw (entries, e)
          (omega (arith, length-elements f (capped (length l)) l, capped_low (length l)))
  ]

  -- The texts of the elements of an array are the ids, as id2hex64 writes them.
  pub data IsWritten : List J → List ℕ → Type 0 where
    nothing : IsWritten [] []
    item :
        {el : J} {id : ℕ} {l : List J} {ids : List ℕ}
        → js.string el ≡ some (id2hex64 id)
        → id < 2 ^ 64
        → IsWritten l ids
        → IsWritten (el ∷ l) (id ∷ ids)

  length-IsWritten : {l : List J} {ids : List ℕ} → IsWritten l ids → length l ≡ length ids
  length-IsWritten nothing = refl
  length-IsWritten (item e low w) = ap suc (length-IsWritten w)

  elements-IsWritten :
      (n : ℕ) {l : List J} {ids : List ℕ}
      → IsWritten l ids
      → all_set (elements hex2id64 n l) ≡ some (take n ids)
  unfolding elements all_set
  elements-IsWritten zero w = refl
  elements-IsWritten (suc n) nothing = refl
  elements-IsWritten (suc n) (item {id} e low w) =
      let rest = elements-IsWritten n w in
      let back = (hex2id64-id2hex64 id low).0 in rw (e, back, rest) refl

  -- Take a message with an id below 2 ^ 64 in one field, as id2hex64 writes it, and in another an array
  -- of at most 10000 such ids. Then json_get_id64 gives the id, and json_get_id64s gives the ids, all
  -- of them set. And whatever a field holds, json_get_id64s gives at most 10000 entries.
  pub json_get_id64s-IsWritten :
      (parent one many : J) (one_name many_name : Text) {l : List J} {id : ℕ} {ids : List ℕ}
      → js.object_get parent one_name ≡ some one
      → js.string one ≡ some (id2hex64 id)
      → id < 2 ^ 64
      → js.object_get parent many_name ≡ some many
      → js.array many ≡ some l
      → IsWritten l ids
      → length ids ≤ 10000
      → (json_get_id64 parent one_name ≡ some id)
        × (all_set (json_get_id64s parent many_name) ≡ some ids)
        × ((j : J) (name : Text) → length (json_get_id64s j name) ≤ 10000)
  unfolding json_get_id64 json_get_id64s entries
  json_get_id64s-IsWritten parent one many one_name many_name {l} {id} {ids} at_one text low at_many
        listed written few =
      let back = (hex2id64-id2hex64 id low).0 in
      let other = js.string-integer one (id2hex64 id) text in
      let size = length-IsWritten written in
      let whole : capped (length l) ≡ length l = ground arith in
      let all = elements-IsWritten (length l) written in
      (
        rw (at_one, other, text, back) refl,
        rw (at_many, entries, listed, whole)
            (all ∙ ap some (take_all (length l) ids (omega arith))),
        λ j name. length-entries hex2id64 (js.object_get j name),
      )
