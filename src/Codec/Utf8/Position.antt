-- ===== src/Codec/Utf8/Position.antt =====
-- utf8index (src/helpers.c:132): the place of a character in a text.
use treedb.Prelude.{
  ℕ, zero, suc, ◌+◌, ◌-◌, ◌%◌, ◌^◌, ◌≤◌, ◌<◌, ◌≡◌, refl, ap, ◌∙◌, inl, inr, true, none, some, List,
  [], ◌∷◌, arith, Bool-cases, take, get_elem?,
}
use treedb.Codec.Utf8.{is_lead, utf8len, index_loop, utf8index}

index_loop-none : (s : List ℕ) (p at : ℕ) → utf8len s < p → p < 2 ^ 64 → index_loop s p at ≡ none
unfolding utf8len index_loop
index_loop-none [] p at more low = refl
index_loop-none (c ∷ s) p at more low = elim (Bool-cases (is_lead c)) [
  | inl lead ↦ let p' = (p + (2 ^ 64 - 1)) % 2 ^ 64 in ground (arith, index_loop-none s p' (at + 1))
  | inr inner ↦ ground (arith, index_loop-none s p (at + 1))
]

-- The offset `k` is that of the character before which there are `n`.
abbrev pub IsCharAt : List ℕ → ℕ → ℕ → Type 0
IsCharAt s n k =
    (utf8len (take k s) ≡ n) × ((c : ℕ) × (get_elem? s k ≡ some c) × (is_lead c ≡ true))

index_loop-some :
    (s : List ℕ) (n at : ℕ)
    → n < utf8len s
    → n + 1 < 2 ^ 64
    → (k : ℕ) × (index_loop s (n + 1) at ≡ some (at + k)) × IsCharAt s n k
unfolding utf8len index_loop
index_loop-some [] n at fewer low = absurd (omega arith)
index_loop-some (c ∷ s) zero at fewer low = elim (Bool-cases (is_lead c)) [
  | inl lead ↦ (0, ground arith, (refl, (c, refl, lead)))
  | inr inner ↦
      let (k, found, (before, (d, there, first))) =
        index_loop-some s zero (at + 1) (ground arith) low in
      (suc k, ground arith, (ground arith, (d, there, first)))
]
index_loop-some (c ∷ s) (suc n) at fewer low = elim (Bool-cases (is_lead c)) [
  | inl lead ↦
      let (k, found, (before, (d, there, first))) =
        index_loop-some s n (at + 1) (ground arith) (omega arith) in
      let less : (suc n + 1 + (2 ^ 64 - 1)) % 2 ^ 64 ≡ n + 1 = omega arith in
      (suc k, ground arith, (ground arith, (d, there, first)))
  | inr inner ↦
      let (k, found, (before, (d, there, first))) =
        index_loop-some s (suc n) (at + 1) (ground arith) low in
      (suc k, ground arith, (ground arith, (d, there, first)))
]

-- For a position below 2 ^ 64 - 1: a text of no more than `n` characters gives NULL, and a longer one
-- gives an offset at which a character begins and before which there are exactly `n`.
pub utf8index_lem :
    (s : List ℕ) (n : ℕ)
    → n + 1 < 2 ^ 64
    → (utf8len s ≤ n → utf8index s n ≡ none)
      × (n < utf8len s → (k : ℕ) × (utf8index s n ≡ some k) × IsCharAt s n k)
unfolding utf8index
utf8index_lem s n low =
    let whole : (n + 1) % 2 ^ 64 ≡ n + 1 = omega arith in
    (
      λ few. rw whole (index_loop-none s (n + 1) 0 (omega arith) low),
      λ fewer.
          let (k, found, there) = index_loop-some s n 0 fewer low in
          (k, rw whole (found ∙ ap some (omega arith)), there),
    )
