-- ===== src/Session/Paths.antt =====
-- The ids that insert_path (src/map.c:335) makes for new branches.
use treedb.Prelude.{
  ℕ, ◌+◌, ◌-◌, ◌/◌, ◌%◌, ◌^◌, ◌<◌, ◌≡◌, refl, ap, ◌∙◌, some, [], ◌∷◌, ◌++◌, arith, ltb,
  if◌then◌else◌,
}
use treedb.Codec.Hex.{or_zero, nibble, hex_loop, hex2id64}
use treedb.Session.Update.{upper_digits, path_id}

-- A digit of %08X.
abbrev upper : ℕ → ℕ
upper n = if ltb (n % 16) 10 then b'0' + n % 16 else b'A' + (n % 16 - 10)

nibble-upper : (n : ℕ) → nibble (upper n) ≡ some (n % 16)
unfolding nibble
nibble-upper n = ground arith

-- The digits of `n` from the highest.
eight :
    (n : ℕ)
    → n < 2 ^ 32
    → hex_loop 8 (
        b'0'
        ∷ b'0'
        ∷ b'0'
        ∷ b'0'
        ∷ b'0'
        ∷ b'0'
        ∷ b'0'
        ∷ b'1'
        ∷ upper (n / 16 / 16 / 16 / 16 / 16 / 16 / 16)
        ∷ upper (n / 16 / 16 / 16 / 16 / 16 / 16)
        ∷ upper (n / 16 / 16 / 16 / 16 / 16)
        ∷ upper (n / 16 / 16 / 16 / 16)
        ∷ upper (n / 16 / 16 / 16)
        ∷ upper (n / 16 / 16)
        ∷ upper (n / 16)
        ∷ upper n
        ∷ [])
      ≡ some (2 ^ 32 + n)
unfolding hex_loop nibble
eight n low =
    rw
      (
        hex_loop,
        nibble-upper n,
        nibble-upper (n / 16),
        nibble-upper (n / 16 / 16),
        nibble-upper (n / 16 / 16 / 16),
        nibble-upper (n / 16 / 16 / 16 / 16),
        nibble-upper (n / 16 / 16 / 16 / 16 / 16),
        nibble-upper (n / 16 / 16 / 16 / 16 / 16 / 16),
        nibble-upper (n / 16 / 16 / 16 / 16 / 16 / 16 / 16),
      )
      (ap some (omega arith))

digits_of :
    (n : ℕ)
    → upper_digits 8 1 ++ upper_digits 8 n
      ≡ b'0'
        ∷ b'0'
        ∷ b'0'
        ∷ b'0'
        ∷ b'0'
        ∷ b'0'
        ∷ b'0'
        ∷ b'1'
        ∷ upper (n / 16 / 16 / 16 / 16 / 16 / 16 / 16)
        ∷ upper (n / 16 / 16 / 16 / 16 / 16 / 16)
        ∷ upper (n / 16 / 16 / 16 / 16 / 16)
        ∷ upper (n / 16 / 16 / 16 / 16)
        ∷ upper (n / 16 / 16 / 16)
        ∷ upper (n / 16 / 16)
        ∷ upper (n / 16)
        ∷ upper n
        ∷ []
unfolding upper_digits
digits_of n = refl

path_id-sum : (n : ℕ) → n < 2 ^ 32 → path_id n ≡ 2 ^ 32 + n
unfolding path_id hex2id64
path_id-sum n low = ap (λ t. hex2id64 t) (digits_of n) ∙ ap or_zero (eight n low)

-- For every value of the counter of branches, which has 32 bits: the sixteen digits that insert_path
-- prints are read back as 2 ^ 32 and the counter, so the id of a new branch is never 0, and different
-- counters give different ids.
pub path_id_lem :
    (n : ℕ)
    → n < 2 ^ 32
    → (path_id n ≡ 2 ^ 32 + n) × ((k : ℕ) → k < 2 ^ 32 → path_id k ≡ path_id n → k ≡ n)
path_id_lem n low =
    (path_id-sum n low, λ k l e. omega (arith, path_id-sum n low, path_id-sum k l, e))
