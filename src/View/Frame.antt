-- ===== src/View/Frame.antt =====
-- What the operations of src/view.c leave alone: the tree below the views, and the vbranches that
-- there were before.
use treedb.Prelude.{
  ℕ, zero, suc, ◌+◌, ◌%◌, ◌≤◌, ◌<◌, ◌≡◌, refl, ap, ◌∙◌, inl, inr, Option, some, List, [], ◌∷◌, ◌++◌,
  arith, ◌==◌, ==_self, eq_of_==, Bool-cases, length, take, length-append,
}
use treedb.Index.{Index}
use treedb.Branch.{Text, Branch, Branches, elems, update, u32_mod}
use treedb.Branch.Chain.{Up-same}
use treedb.Branch.Forest.{Shape, IsForest, IsForest-same}
use treedb.View.{
  World, blank_vbranch, attach_list, set_vbranch_list, branch_attach_vbranch, vbranch_index_put,
  new_child,
}

-- All of a branch but its list of vbranches.
abbrev pub tree_part : Branch → ℕ × ℕ × Option ℕ × Option (List ℕ) × ℕ × Option Text × ℕ × ℕ
tree_part b = (
  b.findex, b.id, b.parent, b.child_list, b.child_n, b.content.text, b.content.note_id,
  b.content.total_branch_n,
)

abbrev pub SameTree : Branches → Branches → Type 0
SameTree g h = (x : ℕ) → tree_part (g x) ≡ tree_part (h x)

-- Two heaps with the same tree are well formed together.
pub IsForest-SameTree : {g h : Branches} → SameTree g h → IsForest h → IsForest g
IsForest-SameTree same f =
    IsForest-same (λ x. ap (λ t. t.2) (same x)) (λ x. ap (λ t. elems t.3) (same x))
      (λ x. ap (λ t. t.4) (same x)) (λ x. ap (λ t. t.7) (same x)) f

pub Shape-SameTree : {g h : Branches} → SameTree g h → Shape h → Shape g
Shape-SameTree {g} {h} same s = record {
  linked =
      λ q c. ground (arith, ap (λ t. elems t.3) (same q), ap (λ t. t.2) (same c), s.linked q c);
  sized = λ q. ground (arith, ap (λ t. elems t.3) (same q), ap (λ t. t.4) (same q), s.sized q);
  small = λ q. ground (arith, ap (λ t. t.4) (same q), s.small q);
  chains = λ b. ((s.chains b).0, Up-same (λ x. ap (λ t. t.2) (same x)) (s.chains b).1);
}

-- Each list of vbranches has the entries that its size promises.
abbrev pub Fits : Branches → Type 0
Fits h = (b : ℕ) → (h b).content.vbranch_n ≤ length (h b).content.vbranch_list

module _ {T : Type 0} where
  -- From `v` to `w` vbranches are added, and their branches have learned of them.
  pub record Grows (w v : World T) : Type 0 where
    pub later : v.vnext ≤ w.vnext
    pub kept : (x : ℕ) → x < v.vnext → w.vbranches x ≡ v.vbranches x
    pub tree : SameTree w.branches v.branches
    pub fits : Fits w.branches

  pub Grows-refl : (w : World T) → Fits w.branches → Grows w w
  Grows-refl w f = record { later = omega arith; kept = λ x low. refl; tree = λ x. refl; fits = f }

  pub Grows-trans : {u v w : World T} → Grows w v → Grows v u → Grows w u
  Grows-trans a b = record {
    later = omega (arith, a.later, b.later);
    kept = λ x low. a.kept x (omega (arith, b.later)) ∙ b.kept x low;
    tree = λ x. a.tree x ∙ b.tree x;
    fits = a.fits;
  }

pub SameTree-set_vbranch_list :
    (h : Branches) (b : ℕ) (l : List ℕ) (n : ℕ) → SameTree (set_vbranch_list h b l n) h
SameTree-set_vbranch_list h b l n x = elim (Bool-cases (b == x)) [
  | inl here ↦ rw here (ap (λ y. tree_part (h y)) (eq_of_== b x here))
  | inr there ↦ rw there refl
]

pub Fits-set_vbranch_list :
    (h : Branches) (b : ℕ) (l : List ℕ) (n : ℕ)
    → Fits h
    → n ≤ length l
    → Fits (set_vbranch_list h b l n)
Fits-set_vbranch_list h b l n f low x = elim (Bool-cases (b == x)) [
  | inl here ↦ rw here low
  | inr there ↦ rw there (f x)
]

length-take : (n : ℕ) (l : List ℕ) → n ≤ length l → length (take n l) ≡ n
length-take zero l low = refl
length-take (suc n) [] low = absurd (omega arith)
length-take (suc n) (x ∷ l) low = ap suc (length-take n l (omega arith))

attach_list_lem :
    (n : ℕ) (l : List ℕ) (vb : ℕ)
    → n ≤ length l
    → (r : List ℕ) × (attach_list n l vb ≡ some r) × (length r ≡ n + 1)
unfolding attach_list
attach_list_lem n l vb low = elim (Bool-cases (n == 0)) [
  | inl zero_n ↦ (vb ∷ [], ground arith, ground arith)
  | inr more ↦ (
    take n l ++ vb ∷ [],
    ground arith,
    omega (arith, length-append (take n l) (vb ∷ []), length-take n l low),
  )
]

module _ {T : Type 0} ⦃ix : Index T⦄ where
  -- The heaps with a new vbranch, for the new list of its branch.
  abbrev pub with_child : World T → ℕ → Option ℕ → ℕ → List ℕ → World T
  with_child w b parent view l =
      let vb = w.vnext in
      let cells =
        update w.vbranches vb
          (record blank_vbranch { branch = some b; parent = parent; view = some view }) in
      let v = w.views view in
      record {
        branches =
            set_vbranch_list w.branches b l (((w.branches b).content.vbranch_n + 1) % u32_mod);
        vbranches = update cells vb (record (cells vb) { branch = some b });
        vnext = vb + 1;
        views =
            update w.views view
              (record v { vbranch_index = ix.replace v.vbranch_index (w.branches b).id vb });
      }

  pub new_child-with_child :
      (w : World T) (b : ℕ) (parent : Option ℕ) (view : ℕ)
      → Fits w.branches
      → (l : List ℕ) × (new_child w b parent (some view)
          ≡ some (with_child w b parent view l, w.vnext))
        × (length l ≡ (w.branches b).content.vbranch_n + 1)
  unfolding new_child vbranch_index_put branch_attach_vbranch
  new_child-with_child w b parent view f =
      let c = (w.branches b).content in
      let (l, made, longer) = attach_list_lem c.vbranch_n c.vbranch_list w.vnext (f b) in
      (l, ground (arith, ==_self w.vnext, made), longer)

  -- A new vbranch can always be made, and it stands at the next address.
  pub new_child_lem :
      (w : World T) (b : ℕ) (parent : Option ℕ) (view : ℕ)
      → Fits w.branches
      → (w' : World T) × (new_child w b parent (some view) ≡ some (w', w.vnext))
        × Grows w' w
        × (w.vnext < w'.vnext)
        × (w'.vbranches w.vnext
            ≡ record blank_vbranch { branch = some b; parent = parent; view = some view })
  new_child_lem w b parent view f =
      let vb = w.vnext in
      let c = (w.branches b).content in
      let (l, made, longer) = new_child-with_child w b parent view f in
      (
        with_child w b parent view l,
        made,
        record {
          later = omega arith;
          kept = λ x low. ground arith;
          tree = SameTree-set_vbranch_list w.branches b l ((c.vbranch_n + 1) % u32_mod);
          fits =
              Fits-set_vbranch_list w.branches b l ((c.vbranch_n + 1) % u32_mod) f
                (omega (arith, longer));
        },
        omega arith,
        ground (arith, ==_self vb),
      )
