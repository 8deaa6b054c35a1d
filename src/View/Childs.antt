-- ===== src/View/Childs.antt =====
-- vbranch_add and vbranch_detach (src/vbranch.c:58): the childs of a vbranch.
use treedb.Prelude.{
  ℕ, zero, suc, ◌+◌, ◌-◌, ◌<◌, ◌≡◌, refl, ap, ◌∙◌, inl, inr, true, false, Option, none, some, List,
  [], ◌∷◌, arith, ◌==◌, ==_self, ltb, Bool-cases, length, has, remove, insert_at, insert_at-nil,
  length-insert_at, nil_of_length,
}
use treedb.Prelude.Int.{ℤ, pos}
use treedb.Index.{Index}
use treedb.Branch.{elems, kids, parent_of, update, u16_mod, clamp_pos, keep, branch_get_pos}
use treedb.Branch.Arrays.{fill-insert_at, keep-remove, index_of}
use treedb.Branch.Forest.{Shape}
use treedb.Io.Heads.{branch_get_pos_lem}
use treedb.View.{Vbranch, Vbranches, World, vchilds_with, vbranch_add, drop_vchild, vbranch_detach}

pub vchilds_with-insert_at :
    (p : Vbranch) (current k : ℕ)
    → p.child_n ≡ length (elems p.child_list)
    → p.child_n + 1 < u16_mod
    → vchilds_with p current (some (pos k))
      ≡ some (insert_at (clamp_pos (pos k) p.child_n) current (elems p.child_list))
unfolding vchilds_with
vchilds_with-insert_at p current k size small = elim (Bool-cases (p.child_n == 0)) [
  | inl empty ↦
      let no_kids = nil_of_length (elems p.child_list) (ground arith) in
      let place = clamp_pos (pos k) p.child_n in
      rw empty (ground (arith, no_kids, insert_at-nil place current))
  | inr filled ↦
      let place = clamp_pos (pos k) p.child_n in
      let whole : place - 0 ≡ place = omega arith in
      rw filled (
        rw whole at (
          fill-insert_at (p.child_n + 2) 0 (elems p.child_list) current place (p.child_n + 1)
            (omega arith) (ground arith) (omega arith) small (omega arith)))
]

remove_out : (c : ℕ) (l : List ℕ) → has c l ≡ false → remove c l ≡ l
remove_out c [] out = refl
remove_out c (x ∷ l) out = ground (arith, remove_out c l)

remove-insert_at : (k c : ℕ) (l : List ℕ) → has c l ≡ false → remove c (insert_at k c l) ≡ l
remove-insert_at zero c l out = ground (arith, ==_self c, remove_out c l)
remove-insert_at (suc k) c [] out = ground (arith, ==_self c)
remove-insert_at (suc k) c (x ∷ l) out = ground (arith, remove-insert_at k c l)

module _ {T : Type 0} ⦃ix : Index T⦄ (w : World T) (current parent : ℕ) where
  abbrev pub under : Vbranches
  under = update w.vbranches current (record (w.vbranches current) { parent = some parent })

  pub vbranch_add_lem :
      {b : ℕ} {at : ℤ} {l : List ℕ}
      → (under current).branch ≡ some b
      → branch_get_pos w.branches b ≡ some at
      → vchilds_with (under parent) current (some at) ≡ some l
      → vbranch_add w current parent
        ≡ some (record w {
          vbranches =
              update under parent (record (under parent) {
                child_list = some l;
                child_n = (under parent).child_n + 1;
              });
        })
  unfolding vbranch_add
  vbranch_add_lem over place made = rw (over, vbranch_add) (rw place (rw made refl))

  abbrev dropped : List ℕ → World T
  dropped l =
      let v1 = update w.vbranches parent (record (w.vbranches parent) {
        child_list = some l;
        child_n = (w.vbranches parent).child_n - 1;
      }) in
      record w { vbranches = update v1 current (record (v1 current) { parent = none }) }

  vbranch_detach-drop_vchild :
      (w.vbranches current).parent ≡ some parent
      → vbranch_detach w current ≡ drop_vchild w current parent
  unfolding vbranch_detach
  vbranch_detach-drop_vchild over =
      ap
        (λ (o : Option ℕ). elim o as (λ x. Option (World T)) [
          | none ↦ some w
          | some p ↦ drop_vchild w current p
        ])
        over

  drop_vchild_lem :
      {l : List ℕ}
      → keep (w.vbranches parent).child_n (elems (w.vbranches parent).child_list) current ≡ some l
      → ltb (length l) (w.vbranches parent).child_n ≡ true
      → drop_vchild w current parent ≡ some (dropped l)
  unfolding drop_vchild
  drop_vchild_lem kept fits = rw (kept, fits) refl

-- On a well-formed tree, for a vbranch over a branch with a parent, and another vbranch with room for
-- a child, whose child_n is the size of its array, in which the first is not: vbranch_add puts the
-- vbranch among the other's childs at the place that its branch has among the branch's siblings, or
-- last if there are fewer, and vbranch_detach then gives back the array and its size.
pub vbranch_detach-vbranch_add :
    {T : Type 0} ⦃ix : Index T⦄ (w : World T) (current parent b p : ℕ)
    → Shape w.branches
    → (w.vbranches current).branch ≡ some b
    → parent_of w.branches b ≡ some p
    → (current == parent) ≡ false
    → (w.vbranches parent).child_n ≡ length (elems (w.vbranches parent).child_list)
    → (w.vbranches parent).child_n + 1 < u16_mod
    → has current (elems (w.vbranches parent).child_list) ≡ false
    → (w1 w2 : World T) × (vbranch_add w current parent ≡ some w1)
      × (vbranch_detach w1 current ≡ some w2)
      × (elems (w1.vbranches parent).child_list
          ≡ insert_at
              (clamp_pos (pos (index_of b (kids w.branches p))) (w.vbranches parent).child_n)
              current
              (elems (w.vbranches parent).child_list))
      × ((w1.vbranches parent).child_n ≡ (w.vbranches parent).child_n + 1)
      × ((w1.vbranches current).parent ≡ some parent)
      × (elems (w2.vbranches parent).child_list ≡ elems (w.vbranches parent).child_list)
      × ((w2.vbranches parent).child_n ≡ (w.vbranches parent).child_n)
      × ((w2.vbranches current).parent ≡ none)
vbranch_detach-vbranch_add {T} w current parent b p s over up other size small out =
    let old = elems (w.vbranches parent).child_list in
    let k = clamp_pos (pos (index_of b (kids w.branches p))) (w.vbranches parent).child_n in
    let l = insert_at k current old in
    let v0 = under w current parent in
    let self = ==_self current in
    let self_p = ==_self parent in
    let parent_cell : v0 parent ≡ w.vbranches parent = rw other refl in
    let over0 : (v0 current).branch ≡ some b = rw self over in
    let made : vchilds_with (v0 parent) current (some (pos (index_of b (kids w.branches p))))
        ≡ some l =
      rw parent_cell (
        vchilds_with-insert_at (w.vbranches parent) current (index_of b (kids w.branches p)) size
          small) in
    let w1 : World T = record w {
      vbranches =
          update v0 parent
            (record (v0 parent) { child_list = some l; child_n = (v0 parent).child_n + 1 });
    } in
    let list1 : elems (w1.vbranches parent).child_list ≡ l = rw self_p refl in
    let size1 : (w1.vbranches parent).child_n ≡ (w.vbranches parent).child_n + 1 =
      ground (arith, parent_cell) in
    let parent1 : (w1.vbranches current).parent ≡ some parent = ground arith in
    let longer = length-insert_at k current old in
    let size_l : (w1.vbranches parent).child_n ≡ length l = omega (arith, size1, size, longer) in
    let kept : keep (w1.vbranches parent).child_n (elems (w1.vbranches parent).child_list) current
        ≡ some old =
      ap (λ n. keep n (elems (w1.vbranches parent).child_list) current) size_l
      ∙ (ap (λ t. keep (length l) t current) list1
          ∙ (keep-remove l current ∙ ap some (remove-insert_at k current old out))) in
    (
      w1,
      dropped w1 current parent old,
      vbranch_add_lem w current parent over0 (branch_get_pos_lem b p s up) made,
      vbranch_detach-drop_vchild w1 current parent parent1
          ∙ drop_vchild_lem w1 current parent kept (ground (arith, size1, longer)),
      list1,
      size1,
      parent1,
      ground (arith, other, self_p),
      ground (arith, other, self_p, size1),
      ground (arith, self),
    )
