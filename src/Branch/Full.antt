-- ===== src/Branch/Full.antt =====
-- branch_add (src/branch.c:65) on a parent with 65535 childs: its counter is an unsigned short, and
-- never reaches 65536.
use treedb.Prelude.{ℕ, zero, suc, ◌+◌, ◌%◌, ◌<◌, ◌≡◌, refl, none, some, List, [], ◌∷◌, arith}
use treedb.Prelude.Int.{ℤ}
use treedb.Branch.{
  Branches, u16_mod, kids, set_parent, clamp_pos, fill, childs_with, link, branch_add,
}

-- With 65536 places to fill the loop never ends by itself.
fill-endless :
    (fuel n : ℕ) (b : List ℕ) (current at : ℕ)
    → n < u16_mod
    → fill fuel n b current at u16_mod ≡ none
unfolding fill
fill-endless zero n b current at low = refl
fill-endless (suc fuel) n [] current at low =
    ground (arith, fill-endless fuel ((n + 1) % u16_mod) [] current at)
fill-endless (suc fuel) n (x ∷ b) current at low = ground (
  arith,
  fill-endless fuel ((n + 1) % u16_mod) (x ∷ b) current at,
  fill-endless fuel ((n + 1) % u16_mod) b current at,
)

childs_with-full :
    (h : Branches) (current parent : ℕ) (at : ℤ)
    → (h parent).child_n ≡ 65535
    → childs_with (set_parent h current (some parent) parent) current at ≡ none
unfolding childs_with
childs_with-full h current parent at full =
    let g = set_parent h current (some parent) in
    let size : (g parent).child_n ≡ 65535 = ground arith in
    let endless =
      fill-endless (65535 + 2) 0 (kids g parent) current (clamp_pos at 65535) (omega arith) in
    rw size endless

-- For a parent with 65535 childs branch_add has no result, at whatever place and however long the
-- walk to the root may be; and however many rounds the copying loop is given, it has no result.
pub branch_add-full :
    (h : Branches) (fuel rounds current parent : ℕ) (at : ℤ)
    → (h parent).child_n ≡ 65535
    → (branch_add fuel h current parent at ≡ none)
      × (fill rounds 0
            (kids h parent)
            current
            (clamp_pos at (h parent).child_n)
            ((h parent).child_n + 1)
          ≡ none)
unfolding branch_add link
branch_add-full h fuel rounds current parent at full = (
  rw (childs_with-full h current parent at full) refl,
  rw full (fill-endless rounds 0 (kids h parent) current (clamp_pos at 65535) (omega arith)),
)
