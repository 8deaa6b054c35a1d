-- ===== src/Codec/Hex.antt =====
-- hex2id64, id2hex64, hex2id32 and id2hex32 (src/helpers.c:12): ids as hexadecimal texts. Byte k
-- of an id is its k-th lowest, as on a little-endian machine. A `char` is its byte.
pub mod RoundTrip
use treedb.Prelude.{
  ℕ, zero, suc, ◌+◌, ◌-◌, ◌*◌, ◌/◌, ◌%◌, ◌^◌, ◌&&◌, Option, none, some, List, [], ◌∷◌, ltb, leb,
  ◌==◌, if◌then◌else◌, ◌>>=◌, length,
}

-- The value of a digit; `none` is the early `return 0`.
unfoldable pub nibble : ℕ → Option ℕ
nibble c =
    if leb b'0' c && leb c b'9'
    then some (c - b'0')
    else if leb b'a' c && leb c b'f'
    then some (c - b'a' + 10)
    else if leb b'A' c && leb c b'F'
    then some (c - b'A' + 10)
    else none

-- The loop of hex2id64 and hex2id32 with `k` bytes to come: it writes byte k - 1 first. The two
-- digits have no common bit, so `(a << 4) | b` is a sum.
unfoldable pub hex_loop : ℕ → List ℕ → Option ℕ
unfolding nibble
hex_loop zero t = some 0
hex_loop (suc k) [] = none
hex_loop (suc k) (c ∷ []) = none
hex_loop (suc k) (c ∷ d ∷ t) =
    let rest = hex_loop k t in
    nibble c >>= λ a. nibble d >>= λ b. rest >>= λ r. some ((a * 16 + b) * 256 ^ k + r)

abbrev pub or_zero : Option ℕ → ℕ
or_zero none = 0
or_zero (some x) = x

unfoldable pub hex2id64 : List ℕ → ℕ
unfolding hex_loop
hex2id64 hex = if length hex == 16 then or_zero (hex_loop 8 hex) else 0

unfoldable pub hex2id32 : List ℕ → ℕ
unfolding hex_loop
hex2id32 hex = if length hex == 8 then or_zero (hex_loop 4 hex) else 0

-- byteMap[n].
unfoldable pub digit : ℕ → ℕ
digit n = if ltb n 10 then b'0' + n else b'a' + (n - 10)

-- `((uint8_t *) &id)[k]`.
abbrev pub byte_of : ℕ → ℕ → ℕ
byte_of id k = id / 256 ^ k % 256

-- The loop of id2hex64 and id2hex32 with `k` bytes to come.
unfoldable pub digits_loop : ℕ → ℕ → List ℕ
unfolding digit
digits_loop zero id = []
digits_loop (suc k) id = digit (byte_of id k / 16) ∷ digit (byte_of id k % 16) ∷ digits_loop k id

unfoldable pub id2hex64 : ℕ → List ℕ
unfolding digits_loop
id2hex64 id = digits_loop 8 id

unfoldable pub id2hex32 : ℕ → List ℕ
unfolding digits_loop
id2hex32 id = digits_loop 4 id
