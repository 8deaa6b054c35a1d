-- ===== src/Codec/Utf8/Slice.antt =====
-- What utf8slice keeps of a text, and what utf8index finds.
use treedb.Prelude.{
  ℕ, zero, suc, ◌+◌, ◌*◌, ◌%◌, ◌^◌, ◌≤◌, ◌≡◌, refl, ap, List, [], ◌∷◌, ◌++◌, arith, ltb,
  if◌then◌else◌, length, take, drop,
}
use treedb.Codec.Utf8.{utf8len, slice_loop, utf8slice}

slice_loop-le : (s : List ℕ) (n max : ℕ) → slice_loop s n max ≤ length s
unfolding slice_loop
slice_loop-le [] n max = omega arith
slice_loop-le (c ∷ s) n max = ground (arith, slice_loop-le s (n + 1) max, slice_loop-le s n max)

utf8len-take : (s : List ℕ) (k j : ℕ) → k ≤ j → utf8len (take k s) ≤ utf8len (take j s)
unfolding utf8len
utf8len-take s zero j h = omega arith
utf8len-take [] (suc k) j h = omega arith
utf8len-take (c ∷ s) (suc k) zero h = absurd (omega arith)
utf8len-take (c ∷ s) (suc k) (suc j) h = ground (arith, utf8len-take s k j)

-- The loop stops before it passes more than `max - n` characters.
utf8len-slice_loop :
    (s : List ℕ) (n max : ℕ) → n ≤ max → utf8len (take (slice_loop s n max) s) + n ≤ max
unfolding utf8len slice_loop
utf8len-slice_loop [] n max h = omega arith
utf8len-slice_loop (c ∷ s) n max h =
    ground (arith, utf8len-slice_loop s (n + 1) max, utf8len-slice_loop s n max)

-- A text of few enough characters is passed whole.
slice_loop-whole : (s : List ℕ) (n max : ℕ) → utf8len s + n ≤ max → slice_loop s n max ≡ length s
unfolding utf8len slice_loop
slice_loop-whole [] n max h = refl
slice_loop-whole (c ∷ s) n max h =
    ground (arith, slice_loop-whole s (n + 1) max, slice_loop-whole s n max)

length-take_le : (k : ℕ) (s : List ℕ) → length (take k s) ≤ k
length-take_le zero s = omega arith
length-take_le (suc k) [] = omega arith
length-take_le (suc k) (c ∷ s) = omega (arith, length-take_le k s)

take-length : (s : List ℕ) → take (length s) s ≡ s
take-length [] = refl
take-length (c ∷ s) = ap (λ l. c ∷ l) (take-length s)

take-append-drop : (k : ℕ) (s : List ℕ) → take k s ++ drop k s ≡ s
take-append-drop zero s = refl
take-append-drop (suc k) [] = refl
take-append-drop (suc k) (c ∷ s) = ap (λ l. c ∷ l) (take-append-drop k s)

-- The bytes that there is room for: `max * 4` as a size_t.
abbrev pub byte_limit : ℕ → ℕ
byte_limit max = max * 4 % 2 ^ 64

abbrev cut : List ℕ → ℕ → ℕ
cut s max = if ltb (byte_limit max) (slice_loop s 0 max) then byte_limit max else slice_loop s 0 max

-- For any text and any `max`, utf8slice gives a prefix of the text, of at most `max` characters and of
-- at most as many bytes as the 64-bit product of `max` and 4; a text that keeps both bounds is given
-- back whole.
pub utf8slice_lem :
    (s : List ℕ) (max : ℕ)
    → ((rest : List ℕ) × (utf8slice s max ++ rest ≡ s))
      × (utf8len (utf8slice s max) ≤ max)
      × (length (utf8slice s max) ≤ byte_limit max)
      × (utf8len s ≤ max → length s ≤ byte_limit max → utf8slice s max ≡ s)
unfolding utf8slice
utf8slice_lem s max = (
  (drop (cut s max) s, take-append-drop (cut s max) s),
  ground (arith, utf8len-slice_loop s 0 max, utf8len-take s (byte_limit max) (slice_loop s 0 max)),
  ground (arith, length-take_le (byte_limit max) s, length-take_le (slice_loop s 0 max) s),
  λ few short. ground (arith, slice_loop-whole s 0 max, take-length s),
)
