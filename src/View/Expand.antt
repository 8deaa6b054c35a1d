-- ===== src/View/Expand.antt =====
-- expand (src/view.c:146): it gives a vbranch one child for each child of its branch, in order.
use treedb.Prelude.{
  ℕ, ◌<◌, ◌≡◌, refl, ap, sym, ◌∙◌, inl, inr, true, false, some, List, [], ◌∷◌, ◌==◌, ==_self,
  Bool-cases, length, has, eq_of_==,
}
use treedb.Index.{Index}
use treedb.Branch.{elems, kids, update}
use treedb.Branch.Forest.{IsForest}
use treedb.View.{Vbranch, Vbranches, World, expand}
use treedb.View.Frame.{Fits, SameTree, IsForest-SameTree}
use treedb.View.Mirror.{branches_of, pointers, IsChild, expand_loop_lem}

-- The write of the new array, which changes no other field.
abbrev close : Vbranches → ℕ → List ℕ → ℕ → Vbranches
close v vb l n = update v vb (record (v vb) { child_list = some l; child_n = n })

close-same :
    {A : Type 0} (f : Vbranch → A) (v : Vbranches) (vb : ℕ) (l : List ℕ) (n x : ℕ)
    → f (record (v vb) { child_list = some l; child_n = n }) ≡ f (v vb)
    → f (close v vb l n x) ≡ f (v x)
close-same f v vb l n x e = elim (Bool-cases (vb == x)) [
  | inl here ↦ rw here (e ∙ ap (λ y. f (v y)) (eq_of_== vb x here))
  | inr there ↦ rw there refl
]

branches_of-close :
    (v : Vbranches) (vb : ℕ) (l : List ℕ) (n : ℕ) (xs : List ℕ)
    → branches_of (close v vb l n) xs ≡ branches_of v xs
branches_of-close v vb l n [] = refl
branches_of-close v vb l n (x ∷ xs) =
    ap (λ t. t ∷ branches_of (close v vb l n) xs)
      (close-same (λ (t : Vbranch). t.branch) v vb l n x refl)
    ∙ ap (λ t. (v x).branch ∷ t) (branches_of-close v vb l n xs)

-- What expand makes of a vbranch `vb` over `b`.
pub record IsExpanded {T : Type 0} (w v : World T) (vb b view : ℕ) : Type 0 where
  -- The childs of the vbranch are over the childs of the branch, in their order.
  pub mirrors :
      branches_of w.vbranches (elems (w.vbranches vb).child_list) ≡ pointers (kids v.branches b)
  pub sized : (w.vbranches vb).child_n ≡ length (elems (w.vbranches vb).child_list)
  -- Each of them is a child from before, or is new, under `vb` and in its view; and it is one from
  -- before if there was one over its branch.
  pub childs :
      (x : ℕ)
      → has x (elems (w.vbranches vb).child_list) ≡ true
      → IsChild w v vb view (elems (v.vbranches vb).child_list) x
  pub kept : (x : ℕ) → x < v.vnext → (vb == x) ≡ false → w.vbranches x ≡ v.vbranches x
  pub tree : SameTree w.branches v.branches
  pub fits : Fits w.branches

-- For a vbranch of a view over a branch with a child array, on a well-formed tree whose lists of
-- vbranches have the entries that their sizes promise: expand returns. The childs of the vbranch are
-- then over the childs of the branch, one for each and in their order; for each of these for which
-- it had childs before, one of them is used again, and the others are new ones in its view. No other vbranch changes, and of the
-- tree nothing but the lists of vbranches, so it stays well formed.
pub expand-IsExpanded :
    {T : Type 0} ⦃ix : Index T⦄ (w : World T) (vb b view : ℕ) (cl : List ℕ)
    → IsForest w.branches
    → Fits w.branches
    → (w.vbranches vb).branch ≡ some b
    → (w.vbranches vb).view ≡ some view
    → (w.branches b).child_list ≡ some cl
    → (w.vbranches vb).child_n ≡ length (elems (w.vbranches vb).child_list)
    → ((x : ℕ) → has x (elems (w.vbranches vb).child_list) ≡ true → x < w.vnext)
    → (w' : World T) × (expand w vb ≡ some w') × IsExpanded w' w vb b view × IsForest w'.branches
unfolding expand
expand-IsExpanded w vb b view cl f fit over sight array size inside =
    let old = elems (w.vbranches vb).child_list in
    let count : (w.branches b).child_n ≡ length cl =
      f.shape.sized b ∙ ap (λ o. length (elems o)) array in
    let (w1, vs, made, g, listed, number, childs) = expand_loop_lem vb view old w cl fit inside in
    let v2 = close w1.vbranches vb vs (length cl) in
    let self = ==_self vb in
    let now : elems (v2 vb).child_list ≡ vs = rw self refl in
    let place : (x : ℕ)
        → IsChild w1 w vb view old x
        → IsChild (record w1 { vbranches = v2 }) w vb view old x =
      λ x c. record {
        below = c.below;
        kept = c.kept;
        reused = λ z d m e f. c.reused z d m e (
            sym (close-same (λ (t : Vbranch). t.branch) w1.vbranches vb vs (length cl) x refl) ∙ f);
        under = λ le.
            let (parent, in_view) = c.under le in
            (
              close-same (λ (t : Vbranch). t.parent) w1.vbranches vb vs (length cl) x refl ∙ parent,
              close-same (λ (t : Vbranch). t.view) w1.vbranches vb vs (length cl) x refl ∙ in_view,
            );
      } in
    (
      record w1 { vbranches = v2 },
      rw (over, array, sight, count, size, made) refl,
      record {
        mirrors =
            ap (branches_of v2) now
            ∙ (branches_of-close w1.vbranches vb vs (length cl) vs
                ∙ (listed ∙ sym (ap (λ o. pointers (elems o)) array)));
        sized = rw self (sym number);
        childs = λ x m. place x (childs x (sym (ap (λ l. has x l) now) ∙ m));
        kept = λ x lt other. rw other (g.kept x lt);
        tree = g.tree;
        fits = g.fits;
      },
      IsForest-SameTree g.tree f,
    )
