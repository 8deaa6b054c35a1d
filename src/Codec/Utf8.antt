-- ===== src/Codec/Utf8.antt =====
-- utf8len, utf8index and utf8slice (src/helpers.c:126). A text is its bytes up to the closing 0.
pub mod Slice
pub mod Position
use treedb.Prelude.{
  ℕ, zero, suc, ◌+◌, ◌-◌, ◌*◌, ◌/◌, ◌%◌, ◌^◌, Bool, true, false, not, Option, none, some, List, [],
  ◌∷◌, ltb, leb, ◌==◌, if◌then◌else◌, length, take, map_opt,
}

-- `(c & 0xC0) != 0x80`: `c` begins a character.
abbrev pub is_lead : ℕ → Bool
is_lead c = not (c / 64 == 2)

unfoldable pub utf8len : List ℕ → ℕ
utf8len [] = 0
utf8len (c ∷ s) = (if is_lead c then 1 else 0) + utf8len s

-- The loop of utf8index with `pos` a size_t; the outcome is `s` as an offset.
unfoldable pub index_loop : List ℕ → ℕ → ℕ → Option ℕ
index_loop [] pos at = none
index_loop (c ∷ s) pos at =
    let pos' = if is_lead c then (pos + (2 ^ 64 - 1)) % 2 ^ 64 else pos in
    let rest = index_loop s pos' (at + 1) in if pos' == 0 then some at else rest

unfoldable pub utf8index : List ℕ → ℕ → Option ℕ
unfolding index_loop
utf8index s pos = index_loop s ((pos + 1) % 2 ^ 64) 0

-- The loop of utf8slice, as the number of bytes that it passes; `n` is its utf8len.
unfoldable pub slice_loop : List ℕ → ℕ → ℕ → ℕ
slice_loop [] n max = 0
slice_loop (c ∷ s) n max =
    let next = suc (slice_loop s (if is_lead c then n + 1 else n) max) in
    if is_lead c then (if leb max n then 0 else next) else next

-- `max * 4` is a size_t.
unfoldable pub utf8slice : List ℕ → ℕ → List ℕ
unfolding slice_loop
utf8slice s max =
    let len = slice_loop s 0 max in
    let most = max * 4 % 2 ^ 64 in take (if ltb most len then most else len) s
