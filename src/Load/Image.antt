-- ===== src/Load/Image.antt =====
-- The tree of a map as it is after it was saved and loaded: a branch is at its place in the file, and
-- the other addresses are as calloc made them.
use treedb.Prelude.{
  ℕ, ◌≤◌, ◌<◌, ◌≡◌, refl, ap, ◌∙◌, sym, subst, inl, inr, Bool, true, false, Option, none, some,
  List, [], arith, ◌==◌, if◌then◌else◌, Bool-cases, Option-cases, length, length_bounded, count,
  has, is_ptr, map, map_opt, eq_of_==,
}
use treedb.Index.{Index}
use treedb.Branch.{Text, Branch, Branches, elems, kids, parent_of}
use treedb.Branch.Chain.{Up, top, climb, Rooted, Up-nodup, Up-root}
use treedb.Branch.Forest.{Shape}
use treedb.Store.{Store}
use treedb.Store.Invariant.{IsStored, live_kid, live_above}
use treedb.Load.{blank_branch}
use treedb.Load.Placed.{at, IsFile, apart_at}
use treedb.Load.Back.{loaded}
use treedb.Load.Counts.{length-map, count-map, count-map_gone}

abbrev pub is_some : Option ℕ → Bool
is_some none = false
is_some (some b) = true

module _ {T : Type 0} ⦃ix : Index T⦄ {s : Store T} {live : ℕ → Bool} (inv : IsStored s live)
    {slot : ℕ → Option ℕ} {row : ℕ → Option (ℕ × Text)} {r : ℕ}
    (file : IsFile s live slot row r) where
  abbrev pub image_of : Option ℕ → Branch
  image_of none = blank_branch
  image_of (some b) = loaded inv file b

  abbrev pub image : Branches
  image i = image_of (slot i)

  -- The addresses in use.
  abbrev pub placed : ℕ → Bool
  placed i = is_some (slot i)

  pub image-at : (b : ℕ) → live b ≡ true → image (at s live b) ≡ loaded inv file b
  image-at b lb = ap image_of (file.slot_of b lb)

  is_ptr-at :
      (o : Option ℕ) (b : ℕ)
      → live b ≡ true
      → ((p : ℕ) → o ≡ some p → live p ≡ true)
      → is_ptr (map_opt (at s live) o) (at s live b) ≡ is_ptr o b
  is_ptr-at none b lb all = refl
  is_ptr-at (some p) b lb all = elim (Bool-cases (p == b)) [
    | inl same ↦ ground (arith, ap (at s live) (eq_of_== p b same))
    | inr differ ↦ let apart = apart_at inv p b (all p refl) lb differ in ground arith
  ]

  is_ptr-gone :
      (o : Option ℕ) (i : ℕ)
      → slot i ≡ none
      → ((p : ℕ) → o ≡ some p → live p ≡ true)
      → is_ptr (map_opt (at s live) o) i ≡ false
  is_ptr-gone none i gone all = refl
  is_ptr-gone (some p) i gone all = elim (Bool-cases (at s live p == i)) [
    | inr out ↦ ground arith
    | inl same ↦
        let e = file.slot_of p (all p refl) in
        let moved = subst (λ y. slot y ≡ some p) (eq_of_== (at s live p) i same) e in absurd (cc)
  ]

  parent_live : (b : ℕ) → live b ≡ true → (p : ℕ) → parent_of s.branches b ≡ some p → live p ≡ true
  parent_live b lb p e = inv.lineage b p e ∙ lb

  abbrev one_if : Bool → ℕ
  one_if t = if t then 1 else 0

  parent_image : (i : ℕ) (o : Option ℕ) → slot i ≡ o → parent_of image i ≡ (image_of o).parent
  parent_image i o e = ap (λ x. (image_of x).parent) e

  linked_image :
      (q c : ℕ) → count c (kids image q) ≡ (if is_ptr (parent_of image c) q then 1 else 0)
  linked_image q c =
      let left =
        λ (o : Option ℕ) (f : slot q ≡ o). ap (λ x. count c (elems (image_of x).child_list)) f in
      let right =
        λ (o : Option ℕ) (e : slot c ≡ o). ap (λ x. one_if (is_ptr ((image_of x).parent) q)) e in
      elim (Option-cases (slot q)) [
        | inl no_q ↦ left none no_q ∙ elim (Option-cases (slot c)) [
          | inl no_c ↦ sym (right none no_c)
          | inr (b, e) ↦
              let lb = (file.slot_live c b e).0 in
              sym (
                right (some b) e
                ∙ ap one_if (is_ptr-gone (parent_of s.branches b) q no_q (parent_live b lb)))
        ]
        | inr (a, f) ↦
            let (la, at_a) = file.slot_live q a f in
            let kin = λ (x : ℕ) (m : has x (kids s.branches a) ≡ true). live_kid inv a x la m in
            left (some a) f ∙ elim (Option-cases (slot c)) [
              | inl no_c ↦
                  count-map_gone inv file c (kids s.branches a) no_c kin ∙ sym (right none no_c)
              | inr (b, e) ↦
                  let (lb, at_b) = file.slot_live c b e in
                  subst
                    (λ x.
                      count x (map (at s live) (kids s.branches a)) ≡ count b (kids s.branches a))
                    at_b (count-map inv file b (kids s.branches a) lb kin)
                  ∙ (inv.forest.shape.linked a b
                      ∙ sym (
                          right (some b) e
                          ∙ ap one_if (
                              subst
                                (λ x.
                                  is_ptr (map_opt (at s live) (parent_of s.branches b)) x
                                  ≡ is_ptr (parent_of s.branches b) a)
                                at_a (is_ptr-at (parent_of s.branches b) a la (parent_live b lb)))))
            ]
      ]

  sized_image : (q : ℕ) → (image q).child_n ≡ length (kids image q)
  sized_image q = elim (Option-cases (slot q)) [
    | inl gone ↦ rw gone refl
    | inr (b, e) ↦
        rw e (inv.forest.shape.sized b ∙ sym (length-map (at s live) (kids s.branches b)))
  ]

  Up-image :
      {b : ℕ} {us : List ℕ}
      → live b ≡ true
      → Up s.branches b us
      → Up image (at s live b) (map (at s live) us)
  Up-image lb (top {b} e) =
      top (parent_image (at s live b) (some b) (file.slot_of b lb) ∙ ap (map_opt (at s live)) e)
  Up-image lb (climb {b} {p} e u) =
      climb (parent_image (at s live b) (some b) (file.slot_of b lb) ∙ ap (map_opt (at s live)) e)
        (Up-image (parent_live b lb p e) u)

  Rooted-image : (i : ℕ) → Rooted image i
  Rooted-image i = elim (Option-cases (slot i)) [
    | inl gone ↦ ([], top (parent_image i none gone))
    | inr (b, e) ↦
        let (lb, at_b) = file.slot_live i b e in
        let (us, up) = inv.forest.shape.chains b in
        (map (at s live) us, subst (λ x. Up image x (map (at s live) us)) at_b (Up-image lb up))
  ]

  pub Shape-image : Shape image
  Shape-image = record {
    linked = linked_image;
    sized = sized_image;
    small = λ q. elim (Option-cases (slot q)) [
      | inl gone ↦ rw gone (omega arith)
      | inr (b, e) ↦ rw e (inv.forest.shape.small b)
    ];
    chains = Rooted-image;
  }

  pub lineage_image : (x p : ℕ) → parent_of image x ≡ some p → placed p ≡ placed x
  lineage_image x p e = elim (Option-cases (slot x)) [
    | inl gone ↦ let bare = sym (parent_image x none gone) ∙ e in absurd (cc)
    | inr (b, here) ↦
        let (lb, at_b) = file.slot_live x b here in
        let up = sym (parent_image x (some b) here) ∙ e in
        elim (Option-cases (parent_of s.branches b)) [
          | inl root ↦ let none_of = rw root at up in absurd (cc)
          | inr (q, f) ↦
              let at_q : at s live q ≡ p = let same = rw f at up in cc in
              let there = file.slot_of q (parent_live b lb q f) in
              ap is_some (subst (λ y. slot y ≡ some q) at_q there) ∙ sym (ap is_some here)
        ]
  ]

  pub low_image : (x : ℕ) → placed x ≡ true → x < s.branch_n
  low_image x here = elim (Option-cases (slot x)) [
    | inl gone ↦ let none_of = rw gone at here in absurd (cc)
    | inr (b, e) ↦
        let (lb, at_b) = file.slot_live x b e in subst (λ y. y < s.branch_n) at_b (inv.placed b lb)
  ]

  -- No way up is longer than the file has records.
  pub short_image : (b : ℕ) (us : List ℕ) → Up image b us → length us ≤ s.branch_n
  short_image b us up = elim (Bool-cases (placed b)) [
    | inl here ↦
        length_bounded s.branch_n us (λ x. Up-nodup x up)
          (λ x m. low_image x (live_above x lineage_image up here (ground arith)))
    | inr gone ↦ elim (Option-cases (slot b)) [
      | inl e ↦ let alone = Up-root (parent_image b none e) up in rw alone (omega arith)
      | inr (c, e) ↦ let some_of = rw e at gone in absurd (cc)
    ]
  ]
