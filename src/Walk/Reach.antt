-- ===== src/Walk/Reach.antt =====
-- view_expand_to (src/view.c:253) brings a branch into a view.
use treedb.Prelude.{
  ℕ, zero, suc, ◌≤◌, ◌<◌, ◌≡◌, refl, ap, ◌∙◌, inl, inr, true, false, Option, none, some, List, [],
  ◌∷◌, arith, ◌==◌, ==_self, if◌then◌else◌, Bool-cases, Option-cases, length, has, count, subst,
  eq_of_==,
}
use treedb.Index.{Index}
use treedb.Branch.{Branches, kids}
use treedb.Branch.Chain.{Up, top, climb, Up-same}
use treedb.Branch.Forest.{IsForest, Shape}
use treedb.Io.Heads.{has-kids_parent}
use treedb.View.{Vbranches, World}
use treedb.View.Frame.{IsForest-SameTree}
use treedb.Walk.{view_get_vbranch, set_vchilds, set_vparent, adopt, hang, join, siblings, climb_to}
use treedb.Walk.Find.{find_view_lem}
use treedb.Walk.Grow.{new_child-Keeps}
use treedb.Walk.Keeps.{
  IsSound, Sees, Keeps, Room, Keeps-refl, Keeps-trans, Keeps-weaken, Keeps-sights,
}

set_vparent-view : (v : Vbranches) (c p x : ℕ) → (set_vparent v c p x).view ≡ (v x).view
set_vparent-view v c p x = elim (Bool-cases (c == x)) [
  | inl here ↦ rw here (ap (λ y. (v y).view) (eq_of_== c x here))
  | inr there ↦ rw there refl
]

pub set_vchilds-view :
    (v : Vbranches) (vb : ℕ) (l : List ℕ) (x : ℕ) → (set_vchilds v vb l x).view ≡ (v x).view
set_vchilds-view v vb l x = elim (Bool-cases (vb == x)) [
  | inl here ↦ rw here (ap (λ y. (v y).view) (eq_of_== vb x here))
  | inr there ↦ rw there refl
]

adopt-view : (v : Vbranches) (l : List ℕ) (p x : ℕ) → (adopt v l p x).view ≡ (v x).view
unfolding adopt
adopt-view v [] p x = refl
adopt-view v (c ∷ l) p x = adopt-view (set_vparent v c p) l p x ∙ set_vparent-view v c p x

pub once : {h : Branches} (p x : ℕ) → Shape h → count x (kids h p) ≤ 1
once p x s = ground (arith, s.linked p x)

module _ {T : Type 0} ⦃ix : Index T⦄ where
  -- Hanging childs below a vbranch changes no view.
  join-Keeps :
      (w : World T) (vb : ℕ) (prev : Option (List ℕ))
      → IsSound w
      → Keeps (join w vb prev) w (λ b. 0)
  unfolding join hang
  join-Keeps w vb none s = Keeps-refl w s
  join-Keeps w vb (some l) s =
      Keeps-sights w (adopt (set_vchilds w.vbranches vb l) l vb) s (λ x.
        adopt-view (set_vchilds w.vbranches vb l) l vb x ∙ set_vchilds-view w.vbranches vb l x)

  -- The loop over a branch and its siblings.
  siblings_lem :
      (w : World T) (cl : List ℕ) (u b : ℕ) (prev : Option (List ℕ))
      → IsSound w
      → Room w (λ x. count x cl)
      → (w' : World T) × (vs : List ℕ) × (siblings (length cl) cl w u b prev ≡ some (w', vs))
        × Keeps w' w (λ x. count x cl)
        × ((c : ℕ) → has c cl ≡ true → Sees w' u c)
  unfolding siblings
  siblings_lem w [] u b prev s room = (w, [], refl, Keeps-refl w s, λ c m. absurd (ground arith))
  siblings_lem w (c ∷ cl) u b prev s room =
      let (w1, made, k1, here) = new_child-Keeps w c none u s (ground (arith, room c, ==_self c)) in
      let k2 = join-Keeps w1 w.vnext (if c == b then prev else none) k1.sound in
      let w2 = join w1 w.vnext (if c == b then prev else none) in
      let (w3, vs, rest, k3, others) =
        siblings_lem w2 cl u b (if c == b then none else prev) k2.sound
          (λ x. ground (arith, room x, k1.added x, k2.added x)) in
      (
        w3,
        w.vnext ∷ vs,
        rw (siblings, made, rest) refl,
        Keeps-weaken (λ x. ground arith) (Keeps-trans k3 (Keeps-trans k2 k1)),
        λ x m. elim (Bool-cases (c == x)) [
          | inl same ↦ subst (Sees w3 u) (eq_of_== c x same) (k3.seen u c (k2.seen u c here))
          | inr other ↦ others x (ground arith)
        ],
      )

  pub view_get_vbranch_total :
      (w : World T) (u b : ℕ)
      → IsSound w
      → (o : Option ℕ) × (view_get_vbranch w (some u) b ≡ some o)
  unfolding view_get_vbranch
  view_get_vbranch_total w u b s =
      let c = (w.branches b).content in
      let (o, found, is) = find_view_lem w.vbranches c.vbranch_n c.vbranch_list u (s.fits b) in
      (o, found)

  -- A branch that is not in the view is not the one that is.
  other_branch :
      (w : World T) (u b a : ℕ)
      → Sees w u a
      → view_get_vbranch w (some u) b ≡ some none
      → (b == a) ≡ false
  other_branch w u b a (vb, e) missing = elim (Bool-cases (b == a)) [
    | inr other ↦ other
    | inl same ↦
        let here =
          subst (λ x. view_get_vbranch w (some u) x ≡ some none) (eq_of_== b a same) missing in
        absurd cc
  ]

  -- The first round, where the branch is in the view.
  climb_to-found :
      (fuel : ℕ) (w : World T) (u b n : ℕ) (prev : Option (List ℕ)) (vb : ℕ)
      → IsSound w
      → view_get_vbranch w (some u) b ≡ some (some vb)
      → (w' : World T) × (r : ℕ) × (climb_to (suc fuel) w u b prev ≡ some (w', some r))
        × Keeps w' w (λ x. n)
        × Sees w' u b
  unfolding climb_to
  climb_to-found fuel w u b n prev vb s here =
      let k = join-Keeps w vb prev s in
      (
        join w vb prev,
        vb,
        rw (climb_to, here) refl,
        Keeps-weaken (λ x. omega arith) k,
        k.seen u b (vb, here),
      )

  -- A round where it is not.
  pub climb_to-missing :
      (fuel : ℕ) (w w1 : World T) (u b p : ℕ) (prev : Option (List ℕ)) (vs : List ℕ)
      → view_get_vbranch w (some u) b ≡ some none
      → (w.branches b).parent ≡ some p
      → siblings (w.branches p).child_n (kids w.branches p) w u b prev ≡ some (w1, vs)
      → climb_to (suc fuel) w u b prev ≡ climb_to fuel w1 u p (some vs)
  unfolding climb_to
  climb_to-missing fuel w w1 u b p prev vs missing e made = ground arith

  -- The climb from a branch ends at the first branch above that the view shows, if there is one.
  pub climb_to_lem :
      (fuel : ℕ) (w : World T) (u b : ℕ) {us : List ℕ} (prev : Option (List ℕ)) (a : ℕ)
      → IsForest w.branches
      → IsSound w
      → Room w (λ x. length us)
      → Up w.branches b us
      → length us < fuel
      → has a (b ∷ us) ≡ true
      → Sees w u a
      → (w' : World T) × (vb : ℕ) × (climb_to fuel w u b prev ≡ some (w', some vb))
        × Keeps w' w (λ x. length us)
        × Sees w' u b
  unfolding climb_to
  climb_to_lem zero w u b prev a f s room up enough above sight = absurd (omega arith)
  climb_to_lem (suc fuel) w u b prev a f s room (top e) enough above sight =
      let (o, found) = view_get_vbranch_total w u b s in
      elim (Option-cases o) [
        | inr (vb, is) ↦ climb_to-found fuel w u b 0 prev vb s (found ∙ ap some is)
        | inl is ↦
            let differ = other_branch w u b a sight (found ∙ ap some is) in absurd (ground arith)
      ]
  climb_to_lem (suc fuel) w u b prev a f s room (climb {p} {us} e up) enough above sight =
      let (o, found) = view_get_vbranch_total w u b s in
      elim (Option-cases o) [
        | inr (vb, is) ↦ climb_to-found fuel w u b (suc (length us)) prev vb s (found ∙ ap some is)
        | inl is ↦
            let missing = found ∙ ap some is in
            let differ = other_branch w u b a sight missing in
            let size = f.shape.sized p in
            let one = λ (x : ℕ). once p x f.shape in
            let (w1, vs, made, k1, all) =
              siblings_lem w (kids w.branches p) u b prev s (λ x. omega (arith, room x, one x)) in
            let (w2, vb, rest, k2, sees) =
              climb_to_lem fuel w1 u p (some vs) a (IsForest-SameTree k1.tree f) k1.sound
                (λ x. omega (arith, room x, one x, k1.added x))
                (Up-same (λ x. ap (λ t. t.2) (k1.tree x)) up) (omega arith) (ground arith)
                (k1.seen u a sight) in
            (
              w2,
              vb,
              climb_to-missing fuel w w1 u b p prev vs missing e
                    (ap (λ n. siblings n (kids w.branches p) w u b prev) size ∙ made)
                  ∙ rest,
              Keeps-weaken (λ x. omega (arith, one x)) (Keeps-trans k2 k1),
              k2.seen u b (all b (has-kids_parent b p f.shape e)),
            )
      ]
