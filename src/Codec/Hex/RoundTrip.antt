-- ===== src/Codec/Hex/RoundTrip.antt =====
-- Reading back what id2hex64 and id2hex32 write, and writing what hex2id64 reads.
use treedb.Prelude.{
  ℕ, zero, suc, ◌+◌, ◌*◌, ◌/◌, ◌%◌, ◌^◌, ◌<◌, ◌≡◌, refl, sym, ◌∙◌, ap, some, List, arith, length,
}
use native.Mathlib.Nat.{pow-suc, mod-lt, div-add-mod, add-mul-mod_self_left, mod-eq_of_lt}
use treedb.Codec.Hex.{
  nibble, digit, byte_of, hex_loop, digits_loop, hex2id64, hex2id32, id2hex64, id2hex32,
}

nibble-digit : (n : ℕ) → n < 16 → nibble (digit n) ≡ some n
unfolding nibble digit
nibble-digit n h = ground arith

pow_pos : (k : ℕ) → 0 < 256 ^ k
pow_pos zero = omega arith
pow_pos (suc k) = omega (arith, pow_pos k, pow-suc 256 k)

split-mod : (x p : ℕ) → 0 < p → x / p % 256 * p + x % p ≡ x % (p * 256)
split-mod x p pos_p =
    let y = x / p in
    let low = mod-lt x pos_p in
    let low_y : y % 256 < 256 = omega arith in
    let r = y % 256 * p + x % p in
    let z = y / 256 in
    let whole : x ≡ r + p * 256 * z =
      omega (arith, div-add-mod x p, ap (λ (t : ℕ). p * t) (div-add-mod y 256)) in
    let small : r < p * 256 = grind arith in
    sym (ap (λ t. t % (p * 256)) whole ∙ (add-mul-mod_self_left r (p * 256) z ∙ mod-eq_of_lt small))

byte-split : (id k : ℕ) → byte_of id k * 256 ^ k + id % 256 ^ k ≡ id % 256 ^ suc k
byte-split id k = split-mod id (256 ^ k) (pow_pos k) ∙ ap (λ t. id % t) (sym (pow-suc 256 k))

hex_loop-digits_loop : (k id : ℕ) → hex_loop k (digits_loop k id) ≡ some (id % 256 ^ k)
unfolding hex_loop digits_loop
hex_loop-digits_loop zero id = ap some (omega arith)
hex_loop-digits_loop (suc k) id =
    let hi = nibble-digit (byte_of id k / 16) (omega arith) in
    let lo = nibble-digit (byte_of id k % 16) (omega arith) in
    let rest = hex_loop-digits_loop k id in
    let both : byte_of id k / 16 * 16 + byte_of id k % 16 ≡ byte_of id k = omega arith in
    rw (hi, lo, rest) (ap some (rw both (byte-split id k)))

length-digits_loop : (k id : ℕ) → length (digits_loop k id) ≡ 2 * k
unfolding digits_loop
length-digits_loop zero id = omega arith
length-digits_loop (suc k) id = omega (arith, length-digits_loop k id)

hex2id64-hex_loop : (t : List ℕ) (v : ℕ) → length t ≡ 16 → hex_loop 8 t ≡ some v → hex2id64 t ≡ v
unfolding hex2id64
hex2id64-hex_loop t v size read = rw (size, read) refl

-- For every id of 64 bits, id2hex64 writes sixteen digits, and hex2id64 reads the id back.
pub hex2id64-id2hex64 :
    (id : ℕ) → id < 2 ^ 64 → (hex2id64 (id2hex64 id) ≡ id) × (length (id2hex64 id) ≡ 16)
unfolding id2hex64
hex2id64-id2hex64 id small = (
  hex2id64-hex_loop (digits_loop 8 id) id (length-digits_loop 8 id)
      (hex_loop-digits_loop 8 id ∙ ap some (mod-eq_of_lt small)),
  length-digits_loop 8 id,
)

hex2id32-hex_loop : (t : List ℕ) (v : ℕ) → length t ≡ 8 → hex_loop 4 t ≡ some v → hex2id32 t ≡ v
unfolding hex2id32
hex2id32-hex_loop t v size read = rw (size, read) refl

-- For every id of 32 bits, id2hex32 writes eight digits, and hex2id32 reads the id back.
pub hex2id32-id2hex32 :
    (id : ℕ) → id < 2 ^ 32 → (hex2id32 (id2hex32 id) ≡ id) × (length (id2hex32 id) ≡ 8)
unfolding id2hex32
hex2id32-id2hex32 id small = (
  hex2id32-hex_loop (digits_loop 4 id) id (length-digits_loop 4 id)
      (hex_loop-digits_loop 4 id ∙ ap some (mod-eq_of_lt small)),
  length-digits_loop 4 id,
)
