-- ===== src/Walk/Grow.antt =====
-- A new vbranch in a view (view_expand_to, src/view.c:288): its branch is then found in the view.
use treedb.Prelude.{
  ℕ, zero, suc, ◌+◌, ◌%◌, ◌≤◌, ◌<◌, ◌≡◌, refl, ap, ◌∙◌, sym, inl, inr, true, Option, some, List, [],
  ◌∷◌, ◌++◌, arith, ◌==◌, ==_self, if◌then◌else◌, Bool-cases, length, length-append, take, has,
  has-append, subst, eq_of_==,
}
use treedb.Index.{Index}
use treedb.Branch.{u32_mod, update}
use treedb.View.{
  Vbranch, World, blank_vbranch, attach_list, set_vbranch_list, new_child, vbranch_index_put,
  branch_attach_vbranch,
}
use treedb.View.Frame.{SameTree-set_vbranch_list, Fits-set_vbranch_list}
use treedb.Walk.{find_view, view_get_vbranch}
use treedb.Walk.Find.{find_view_lem, find_view-same, find_view-append, find_view-append_other}
use treedb.Walk.Keeps.{vbranch_n_of, IsSound, Sees, Keeps}

attach_list-take :
    (n : ℕ) (l : List ℕ) (vb : ℕ) → n ≤ length l → attach_list n l vb ≡ some (take n l ++ vb ∷ [])
unfolding attach_list
attach_list-take zero l vb low = refl
attach_list-take (suc n) l vb low = ground arith

pub has-take : (a n : ℕ) (l : List ℕ) → has a (take n l) ≡ true → has a l ≡ true
has-take a zero l m = absurd (ground arith)
has-take a (suc n) [] m = m
has-take a (suc n) (x ∷ l) m = ground (arith, has-take a n l)

length-take : (n : ℕ) (l : List ℕ) → n ≤ length l → length (take n l) ≡ n
length-take zero l low = refl
length-take (suc n) [] low = absurd (omega arith)
length-take (suc n) (x ∷ l) low = ap suc (length-take n l (omega arith))

module _ {T : Type 0} ⦃ix : Index T⦄ (w : World T) (b : ℕ) (parent : Option ℕ) (u : ℕ) where
  -- The list of the branch with the new vbranch behind the others.
  abbrev longer : List ℕ
  longer = take (w.branches b).content.vbranch_n (w.branches b).content.vbranch_list ++ w.vnext ∷ []

  abbrev cell : Vbranch
  cell = record blank_vbranch { branch = some b; parent = parent; view = some u }

  -- The state after new_child.
  abbrev grown : World T
  grown =
      let vb = w.vnext in
      let cells = update w.vbranches vb cell in
      let v = w.views u in
      record {
        branches =
            set_vbranch_list w.branches b longer (((w.branches b).content.vbranch_n + 1) % u32_mod);
        vbranches = update cells vb (record (cells vb) { branch = some b });
        vnext = vb + 1;
        views =
            update w.views u
              (record v { vbranch_index = ix.replace v.vbranch_index (w.branches b).id vb });
      }

  new_child-grown : IsSound w → new_child w b parent (some u) ≡ some (grown, w.vnext)
  unfolding new_child vbranch_index_put branch_attach_vbranch
  new_child-grown s =
      let c = (w.branches b).content in
      let self = ==_self w.vnext in
      let made = attach_list-take c.vbranch_n c.vbranch_list w.vnext (s.fits b) in
      ground (arith, self, made)

  grown-view :
      (x : ℕ) → (grown.vbranches x).view ≡ (if w.vnext == x then some u else (w.vbranches x).view)
  grown-view x = elim (Bool-cases (w.vnext == x)) [
    | inl here ↦ rw (here, ==_self w.vnext) refl
    | inr there ↦ rw there refl
  ]

  old_view : (x : ℕ) → x < w.vnext → (grown.vbranches x).view ≡ (w.vbranches x).view
  old_view x low = ground (arith, grown-view x)

  grown-IsSound : IsSound w → vbranch_n_of w b + 1 < u32_mod → IsSound grown
  grown-IsSound s room =
      let c = (w.branches b).content in
      let size = length-append (take c.vbranch_n c.vbranch_list) (w.vnext ∷ []) in
      let same = length-take c.vbranch_n c.vbranch_list (s.fits b) in
      record {
        fits =
            Fits-set_vbranch_list w.branches b longer ((c.vbranch_n + 1) % u32_mod) s.fits
              (omega (arith, size, same));
        inside = λ q x m. elim (Bool-cases (b == q)) [
          | inl here ↦
              let split = has-append x (take c.vbranch_n c.vbranch_list) (w.vnext ∷ []) in
              let m1 : has x longer ≡ true = rw here at m in
              let old = has-take x c.vbranch_n c.vbranch_list in
              let below = s.inside b x in ground arith
          | inr there ↦
              let m1 : has x (w.branches q).content.vbranch_list ≡ true = rw there at m in
              omega (arith, s.inside q x m1)
        ];
      }

  grown-Sees : IsSound w → vbranch_n_of w b + 1 < u32_mod → Sees grown u b
  unfolding view_get_vbranch
  grown-Sees s room =
      let c = (w.branches b).content in
      let whole : (c.vbranch_n + 1) % u32_mod ≡ suc c.vbranch_n = omega arith in
      let (o, found, is) = find_view_lem grown.vbranches c.vbranch_n c.vbranch_list u (s.fits b) in
      let sight : (grown.vbranches w.vnext).view ≡ some u = rw (==_self w.vnext) refl in
      let (vb, e) =
        find_view-append grown.vbranches c.vbranch_n c.vbranch_list u w.vnext o (s.fits b) found
          sight in
      (vb, rw (==_self b, whole) e)

  grown-seen : IsSound w → vbranch_n_of w b + 1 < u32_mod → (y q : ℕ) → Sees w y q → Sees grown y q
  unfolding view_get_vbranch
  grown-seen s room y q (vb, e) =
      let d = (w.branches q).content in
      let whole : (vbranch_n_of w b + 1) % u32_mod ≡ suc (vbranch_n_of w b) = omega arith in
      let now : find_view grown.vbranches d.vbranch_n d.vbranch_list (some y) ≡ some (some vb) =
        find_view-same w.vbranches grown.vbranches d.vbranch_n d.vbranch_list (some y)
          (λ x m. old_view x (s.inside q x m))
        ∙ e in
      elim (Bool-cases (b == q)) [
        | inl here ↦
            let same = eq_of_== b q here in
            let c = (w.branches b).content in
            let there : find_view grown.vbranches c.vbranch_n c.vbranch_list (some y)
                ≡ some (some vb) =
              subst
                (λ z.
                  find_view grown.vbranches (w.branches z).content.vbranch_n
                    (w.branches z).content.vbranch_list (some y)
                  ≡ some (some vb))
                (sym same) now in
            (
              vb,
              rw (here, whole)
                  (find_view-append_other grown.vbranches c.vbranch_n c.vbranch_list y w.vnext vb
                    (s.fits b) there),
            )
        | inr there ↦ (vb, rw there now)
      ]

  grown-added :
      IsSound w
      → vbranch_n_of w b + 1 < u32_mod
      → (x : ℕ) → vbranch_n_of grown x ≤ vbranch_n_of w x + (if b == x then 1 else 0)
  grown-added s room x = elim (Bool-cases (b == x)) [
    | inl here ↦
        let same = ap (λ y. vbranch_n_of w y) (eq_of_== b x here) in
        let now : vbranch_n_of grown x ≡ (vbranch_n_of w b + 1) % u32_mod =
          rw (here, vbranch_n_of) refl in
        ground (arith, here, now, same)
    | inr there ↦
        let now : vbranch_n_of grown x ≡ vbranch_n_of w x = rw (there, vbranch_n_of) refl in
        ground (arith, there, now)
  ]

  pub new_child-Keeps :
      IsSound w
      → vbranch_n_of w b + 1 < u32_mod
      → (w' : World T) × (new_child w b parent (some u) ≡ some (w', w.vnext))
        × Keeps w' w (λ x. if b == x then 1 else 0)
        × Sees w' u b
  new_child-Keeps s room =
      let c = (w.branches b).content in
      (
        grown,
        new_child-grown s,
        record {
          tree = SameTree-set_vbranch_list w.branches b longer ((c.vbranch_n + 1) % u32_mod);
          sound = grown-IsSound s room;
          later = omega arith;
          sights = old_view;
          added = grown-added s room;
          seen = grown-seen s room;
        },
        grown-Sees s room,
      )
