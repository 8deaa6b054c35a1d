-- ===== src/Branch.antt =====
-- src/branch.c and src/branch.h: the branches of a map's tree, as cells of an explicit heap.
--
-- An address is a number and a nullable pointer is an `Option`. The block `branch->data` is part
-- of its cell: branch_new, insert and the map constructors allocate the two together. Freed
-- blocks are not tracked. `none` as an outcome is a run without a result: a read through NULL or
-- outside an array, a write outside an array, or a walk that goes on for ever.
pub mod Chain
pub mod Forest
pub mod Weight
pub mod Arrays
pub mod Add
pub mod Detach
pub mod Full
use treedb.Prelude.{
  ℕ, zero, suc, ◌+◌, ◌-◌, ◌%◌, ◌^◌, Bool, true, false, Option, none, some, List, [], ◌∷◌, ◌++◌,
  ◌==◌, ltb, leb, if◌then◌else◌, ◌>>=◌, map_opt, length, ◌||◌,
}
use treedb.Prelude.Int.{ℤ, pos, negsuc}

abbrev pub u16_mod : ℕ
u16_mod = 2 ^ 16

abbrev pub u32_mod : ℕ
u32_mod = 2 ^ 32

-- A text is its bytes without the closing 0.
abbrev pub Text : Type 0
Text = List ℕ

-- `data_t`, less total_archive_n, collapsed, compacted and complevel, which no code uses.
pub record Data : Type 0 where
  pub text : Option Text
  pub note_id : ℕ
  pub total_branch_n : ℕ
  pub vbranch_list : List ℕ
  pub vbranch_n : ℕ

-- `branch_t`.
pub record Branch : Type 0 where
  pub findex : ℕ
  pub id : ℕ
  pub parent : Option ℕ
  pub child_list : Option (List ℕ)
  pub child_n : ℕ
  pub content : Data

-- The heap of branches.
abbrev pub Branches : Type 0
Branches = ℕ → Branch

-- The entries of an array that may be NULL.
abbrev pub elems : Option (List ℕ) → List ℕ
elems none = []
elems (some l) = l

abbrev pub parent_of : Branches → ℕ → Option ℕ
parent_of h b = (h b).parent

abbrev pub kids : Branches → ℕ → List ℕ
kids h b = elems (h b).child_list

abbrev pub total : Branches → ℕ → ℕ
total h b = (h b).content.total_branch_n

-- What the tree operations leave alone in every branch: all but the links and the total.
abbrev pub frame : Branch → ℕ × ℕ × Option Text × ℕ × List ℕ × ℕ
frame b =
    (b.id, b.findex, b.content.text, b.content.note_id, b.content.vbranch_list, b.content.vbranch_n)

-- The write `*b = v`.
abbrev pub update {ℓ} : {A : Type ℓ} → (ℕ → A) → ℕ → A → ℕ → A
update f p v q = if p == q then v else f q

abbrev pub set_parent : Branches → ℕ → Option ℕ → Branches
set_parent h b p = update h b (record (h b) { parent = p })

abbrev pub set_childs : Branches → ℕ → Option (List ℕ) → ℕ → Branches
set_childs h b l n = update h b (record (h b) { child_list = l; child_n = n })

-- `b->data->total_branch_n += n` in uint32_t, for an `int` n given by its 32 bits.
unfoldable pub bump : Branches → ℕ → ℕ → Branches
bump h b n = update h b (record (h b) {
  content = record ((h b).content) {
    total_branch_n = ((h b).content.total_branch_n + n) % u32_mod;
  };
})

-- branch_increase: `while ((b = b->parent))`, with the count of the parents it has passed.
-- `fuel` bounds the rounds.
unfoldable pub increase_loop : ℕ → Branches → ℕ → ℕ → ℕ → Option (Branches × ℕ)
increase_loop zero h b n affected = none
increase_loop (suc fuel) h b n affected = elim (parent_of h b) [
  | none ↦ some (h, affected)
  | some p ↦ increase_loop fuel (bump h p n) p n (affected + 1)
]

unfoldable pub branch_increase : ℕ → Branches → ℕ → ℕ → Option (Branches × ℕ)
unfolding increase_loop
branch_increase fuel h b n = increase_loop fuel h b n 0

-- The copying loop of branch_add: `n` is an unsigned short, `limit` is child_n + 1, and `b` is
-- what is left of the old array.
unfoldable pub fill : ℕ → ℕ → List ℕ → ℕ → ℕ → ℕ → Option (List ℕ)
fill zero n b current at limit = none
fill (suc fuel) n b current at limit = elim (ltb n limit) [
  | false ↦ some []
  | true ↦ elim (n == at) [
    | true ↦ map_opt (λ l. current ∷ l) (fill fuel ((n + 1) % u16_mod) b current at limit)
    | false ↦ elim b [
      | [] ↦ none
      | x ∷ rest ↦ map_opt (λ l. x ∷ l) (fill fuel ((n + 1) % u16_mod) rest current at limit)
    ]
  ]
]

-- `if (pos < 0 || pos > parent->child_n) pos = parent->child_n;`
abbrev pub clamp_pos : ℤ → ℕ → ℕ
clamp_pos (pos k) n = if ltb n k then n else k
clamp_pos (negsuc k) n = n

-- The new child array of branch_add.
unfoldable pub childs_with : Branch → ℕ → ℤ → Option (List ℕ)
unfolding fill
childs_with parent current at =
    if parent.child_n == 0
    then some (current ∷ [])
    else fill (parent.child_n + 2) 0 (elems parent.child_list) current (clamp_pos at parent.child_n)
        (parent.child_n + 1)

-- The writes of branch_add before it counts.
unfoldable pub link : Branches → ℕ → ℕ → ℤ → Option Branches
unfolding childs_with
link h current parent at =
    let h1 = set_parent h current (some parent) in
    childs_with (h1 parent) current at >>= λ childs.
    some (set_childs h1 parent (some childs) (((h1 parent).child_n + 1) % u16_mod))

unfoldable pub branch_add : ℕ → Branches → ℕ → ℕ → ℤ → Option Branches
unfolding link branch_increase
branch_add fuel h current parent at = link h current parent at >>= λ h2.
    branch_increase fuel h2 current ((total h2 current + 1) % u32_mod) >>= λ r. some r.0

-- The copying loop of branch_detach: `left` rounds are to come.
unfoldable pub keep : ℕ → List ℕ → ℕ → Option (List ℕ)
keep zero cl b = some []
keep (suc left) [] b = none
keep (suc left) (x ∷ cl) b =
    let rest = keep left cl b in if x == b then rest else map_opt (λ l. x ∷ l) rest

-- `b` leaves the childs of `p`. The new array has child_n - 1 places, and none can be had for
-- 0 - 1.
unfoldable pub drop_child : Branches → ℕ → ℕ → Option Branches
unfolding keep
drop_child h b p = keep (h p).child_n (kids h p) b >>= λ kept.
    if leb (length kept) ((h p).child_n - 1)
    then some (
        set_parent
          (set_childs h p (if (h p).child_n == 0 then none else some kept)
            (((h p).child_n + (u16_mod - 1)) % u16_mod))
          b none)
    else none

unfoldable pub unlink : Branches → ℕ → Option Branches
unfolding drop_child
unlink h b = elim (parent_of h b) [ none ↦ some h | some p ↦ drop_child h b p ]

-- `-b->data->total_branch_n - 1`, by its 32 bits.
abbrev pub minus_total : Branches → ℕ → ℕ
minus_total h b = (u32_mod + u32_mod - 1 - total h b) % u32_mod

unfoldable pub branch_detach : ℕ → Branches → ℕ → Option Branches
unfolding branch_increase unlink
branch_detach fuel h b = branch_increase fuel h b (minus_total h b) >>= λ r. unlink r.0 b

-- branch_set_text, whose test for missing data cannot fail here.
unfoldable pub branch_set_text : Branches → ℕ → Text → Branches
branch_set_text h b t =
    update h b (record (h b) { content = record ((h b).content) { text = some t } })

-- The loop of branch_get_pos: the first place of `b` from `n` on.
unfoldable pub pos_loop : ℕ → ℕ → List ℕ → ℕ → Option ℤ
pos_loop zero n cl b = some (negsuc 0)
pos_loop (suc left) n [] b = none
pos_loop (suc left) n (x ∷ cl) b =
    let rest = pos_loop left (n + 1) cl b in if x == b then some (pos n) else rest

unfoldable pub branch_get_pos : Branches → ℕ → Option ℤ
unfolding pos_loop
branch_get_pos h b = elim (parent_of h b) [
  | none ↦ none
  | some p ↦ pos_loop (h p).child_n 0 (kids h p) b
]
