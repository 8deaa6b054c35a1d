-- ===== src/Load/Restored.antt =====
-- The loading of a map by map_load (src/map.c:1658), from its file: what it gives is a well-formed
-- map again, so all that holds of one goes on to hold after a restart.
use treedb.Prelude.{
  ℕ, ◌*◌, ◌%◌, ◌<◌, ◌≡◌, refl, ap, ◌∙◌, sym, inl, inr, Bool, true, false, Option, none, some, [],
  arith, Option-cases, map, map_opt, ◌≤◌,
}
use treedb.Index.{Index}
use treedb.Branch.{Text, Branch, Branches, frame, elems, kids, parent_of, u32_mod}
use treedb.Branch.Arrays.{index_of}
use treedb.Branch.Forest.{IsForest, weight}
use treedb.Branch.Weight.{SameLinks}
use treedb.Io.{Disk, offset}
use treedb.Io.Heads.{head_at, parent_id_of, place_of}
use treedb.Store.{Store, fuel_of}
use treedb.Store.Invariant.{IsStored, IsUnborn, live_kid}
use treedb.Load.{calloc_map, load_tree}
use treedb.Load.Placed.{at, head_in, IsFile, head_in-at}
use treedb.Load.Image.{
  image, image_of, placed, is_some, Shape-image, lineage_image, low_image, short_image,
}
use treedb.Load.Counts.{index_of-map}
use treedb.Load.Found.{bheads, IsImage, image_lem}
use treedb.Load.Calculate.{branch_calculate-IsForest}

module _ {T : Type 0} ⦃ix : Index T⦄ {s : Store T} {live : ℕ → Bool} (inv : IsStored s live)
    {slot : ℕ → Option ℕ} {row : ℕ → Option (ℕ × Text)} {r : ℕ}
    (file : IsFile s live slot row r) where
  -- The tree `g` has the branches of the map, at their places in the file.
  pub record IsCopy (g : Branches) : Type 0 where
    pub ids : (b : ℕ) → live b ≡ true → (g (at s live b)).id ≡ (s.branches b).id
    pub texts :
        (b : ℕ)
        → live b ≡ true
        → ((g (at s live b)).content.text ≡ (s.branches b).content.text)
          × ((g (at s live b)).content.note_id ≡ (s.branches b).content.note_id)
    pub parents :
        (b : ℕ)
        → live b ≡ true
        → parent_of g (at s live b) ≡ map_opt (at s live) (parent_of s.branches b)
    pub arrays :
        (b : ℕ) → live b ≡ true → kids g (at s live b) ≡ map (at s live) (kids s.branches b)

  heads_eq :
      (g : Branches) (i b : ℕ)
      → (g i).id ≡ (s.branches b).id
      → parent_id_of g (parent_of g i) ≡ parent_id_of s.branches (parent_of s.branches b)
      → place_of g i (parent_of g i) ≡ place_of s.branches b (parent_of s.branches b)
      → (g i).child_n ≡ (s.branches b).child_n
      → head_at g i ≡ head_at s.branches b
  heads_eq g i b id parent place size = cc

  -- The tree with its totals, in what io_load_map leaves.
  module _ {t : Store T} (is : IsImage inv file t) (g : Branches) (f : IsForest g)
      (links : SameLinks g (image inv file)) where
    frame_at : (i b : ℕ) → slot i ≡ some b → ((g i).id ≡ (s.branches b).id) × ((g i).findex ≡ i)
    frame_at i b e =
        let (lb, at_b) = file.slot_live i b e in
        (
          ap (λ x. x.0) (links.frames i) ∙ ap (λ o. (image_of inv file o).id) e,
          ap (λ x. x.1) (links.frames i) ∙ (ap (λ o. (image_of inv file o).findex) e ∙ at_b),
        )

    in_slot : (i : ℕ) → placed inv file i ≡ true → (b : ℕ) × (slot i ≡ some b)
    in_slot i here = elim (Option-cases (slot i)) [
      | inr found ↦ found
      | inl gone ↦ let none_of = sym (ap is_some gone) ∙ here in absurd (cc)
    ]

    unborn_lem : (x : ℕ) → s.branch_n ≤ x → IsUnborn g x
    unborn_lem x high = elim (Option-cases (slot x)) [
      | inr (b, e) ↦ absurd (omega (arith, low_image inv file x (ap is_some e)))
      | inl gone ↦
          let bare : kids g x ≡ [] =
            ap elems (links.arrays x) ∙ ap (λ o. elems (image_of inv file o).child_list) gone in
          let sum = f.counted.counts x in
          let low = f.counted.bounded x in
          let empty : weight g (kids g x) ≡ 0 = ap (weight g) bare in
          record {
            alone = links.parents x ∙ ap (λ o. (image_of inv file o).parent) gone;
            childless = bare;
            no_childs = links.sizes x ∙ ap (λ o. (image_of inv file o).child_n) gone;
            no_total = omega arith;
          }
    ]

    kids-at : (i b : ℕ) → slot i ≡ some b → kids g i ≡ map (at s live) (kids s.branches b)
    kids-at i b e = ap elems (links.arrays i) ∙ ap (λ o. elems (image_of inv file o).child_list) e

    parent_lem :
        (o : Option ℕ)
        → ((p : ℕ) → o ≡ some p → live p ≡ true)
        → parent_id_of g (map_opt (at s live) o) ≡ parent_id_of s.branches o
    parent_lem none all = refl
    parent_lem (some p) all = (frame_at (at s live p) p (file.slot_of p (all p refl))).0

    place_lem :
        (i b : ℕ) (o : Option ℕ)
        → at s live b ≡ i
        → live b ≡ true
        → ((p : ℕ) → o ≡ some p → live p ≡ true)
        → place_of g i (map_opt (at s live) o) ≡ place_of s.branches b o
    place_lem i b none at_b lb all = refl
    place_lem i b (some p) at_b lb all =
        let lp = all p refl in
        ap (index_of i) (kids-at (at s live p) p (file.slot_of p lp))
        ∙ (ap (λ x. index_of x (map (at s live) (kids s.branches p))) (sym at_b)
            ∙ index_of-map inv file b (kids s.branches p) lb (λ c m. live_kid inv p c lp m))

    head_lem :
        (i b : ℕ)
        → slot i ≡ some b
        → (o : Option ℕ) → parent_of s.branches b ≡ o
        → head_at g i ≡ head_at s.branches b
    head_lem i b e o up =
        let (lb, at_b) = file.slot_live i b e in
        let size : (g i).child_n ≡ (s.branches b).child_n =
          links.sizes i ∙ ap (λ x. (image_of inv file x).child_n) e in
        let parent : parent_of g i ≡ map_opt (at s live) o =
          links.parents i
          ∙ (ap (λ x. (image_of inv file x).parent) e ∙ ap (map_opt (at s live)) up) in
        heads_eq g i b (frame_at i b e).0
          (ap (parent_id_of g) parent
            ∙ (parent_lem o (λ p e2. inv.lineage b p (up ∙ e2) ∙ lb)
                ∙ ap (parent_id_of s.branches) (sym up)))
          (ap (place_of g i) parent
            ∙ (place_lem i b o at_b lb (λ p e2. inv.lineage b p (up ∙ e2) ∙ lb)
                ∙ ap (place_of s.branches b) (sym up)))
          size

    filed_lem : (i b : ℕ) → slot i ≡ some b → s.disk.heads (offset g i) ≡ head_at g i
    unfolding offset
    filed_lem i b e =
        let (lb, at_b) = file.slot_live i b e in
        let low : i < s.branch_n = low_image inv file i (ap is_some e) in
        let place : (g i).findex * 20 % u32_mod ≡ i * 20 =
          omega (arith, (frame_at i b e).1, inv.limited) in
        ap s.disk.heads place
        ∙ (ap (head_in s live) (sym at_b)
            ∙ (head_in-at inv b lb ∙ sym (head_lem i b e (parent_of s.branches b) refl)))

    -- The tree is a copy: the same branches, at their places in the file, with the same links.
    copy_lem : IsCopy g
    copy_lem = record {
      ids = λ b lb. (frame_at (at s live b) b (file.slot_of b lb)).0;
      texts = λ b lb. (
        ap (λ x. x.2) (links.frames (at s live b))
            ∙ ap (λ o. (image_of inv file o).content.text) (file.slot_of b lb),
        ap (λ x. x.3) (links.frames (at s live b))
            ∙ ap (λ o. (image_of inv file o).content.note_id) (file.slot_of b lb),
      );
      parents = λ b lb.
          links.parents (at s live b) ∙ ap (λ o. (image_of inv file o).parent) (file.slot_of b lb);
      arrays = λ b lb. kids-at (at s live b) b (file.slot_of b lb);
    }

    stored_lem : IsStored (record t { branches = g }) (placed inv file)
    stored_lem = record {
      forest = f;
      in_use = λ x m. rw is.addresses (low_image inv file x m);
      unborn = λ x old. unborn_lem x (rw is.addresses at old);
      lineage = λ x p e. lineage_image inv file x p (sym (links.parents x) ∙ e);
      sound = λ k i e.
          let (b, here, id) = is.sound k i e in (ap is_some here, (frame_at i b here).0 ∙ id);
      complete = λ i m.
          let (b, here) = in_slot i m in
          let (lb, at_b) = file.slot_live i b here in
          ap (ix.find t.branch_index) (frame_at i b here).0 ∙ (is.complete b lb ∙ ap some at_b);
      placed = λ i m.
          let (b, here) = in_slot i m in
          rw (is.records, (frame_at i b here).1) (low_image inv file i m);
      apart = λ i j m n e.
          let (b, here) = in_slot i m in
          let (c, there) = in_slot j n in sym (frame_at i b here).1 ∙ (e ∙ (frame_at j c there).1);
      limited = rw is.records inv.limited;
      on = ap (λ (d : Disk). d.test) is.disk ∙ inv.on;
      filed = λ i m.
          let (b, here) = in_slot i m in
          ap (λ (d : Disk). d.heads (offset g i)) is.disk ∙ filed_lem i b here;
    }

  total_lem : (o : Option ℕ) → (image_of inv file o).content.total_branch_n ≡ 0
  total_lem none = refl
  total_lem (some b) = refl

  root_lem : parent_of (image inv file) (at s live r) ≡ none
  root_lem =
      ap (λ o. (image_of inv file o).parent) (file.slot_of r file.root_live)
      ∙ ap (map_opt (at s live)) file.root_top

  only_lem :
      (x : ℕ) → placed inv file x ≡ true → parent_of (image inv file) x ≡ none → x ≡ at s live r
  only_lem x here top = elim (Option-cases (slot x)) [
    | inl gone ↦ let none_of = sym (ap is_some gone) ∙ here in absurd (cc)
    | inr (b, e) ↦
        let (lb, at_b) = file.slot_live x b e in
        let up = sym (ap (λ o. (image_of inv file o).parent) e) ∙ top in
        elim (Option-cases (parent_of s.branches b)) [
          | inl root ↦ sym at_b ∙ ap (at s live) (file.root_only b lb root)
          | inr (p, f) ↦ let some_of = sym (ap (map_opt (at s live)) f) ∙ up in absurd (cc)
        ]
  ]

  bare_lem : (x : ℕ) → placed inv file x ≡ false → kids (image inv file) x ≡ []
  bare_lem x out = elim (Option-cases (slot x)) [
    | inl gone ↦ ap (λ o. elems (image_of inv file o).child_list) gone
    | inr (b, e) ↦ let some_of = sym (ap is_some e) ∙ out in absurd (cc)
  ]

  -- On the file of a well-formed map, in which the records of no branch have the id 0, no branch has
  -- that id, each branch has its row, and there is one root: the loading returns. It leaves a
  -- well-formed map, with every total right, whose branches are those of the map, at their places in
  -- the file, with their ids, texts, notes, parents and childs, and it names the root.
  pub load_tree-IsStored :
      (t : Store T) × (load_tree row (bheads inv file) (calloc_map s.disk) ≡ some (t, at s live r))
      × IsStored t (placed inv file)
      × IsCopy t.branches
  unfolding load_tree
  load_tree-IsStored =
      let (t, made, is) = image_lem inv file in
      let links : SameLinks t.branches (image inv file) = record {
        parents = λ x. ap (λ (c : Branch). c.parent) (is.cells x);
        arrays = λ x. ap (λ (c : Branch). c.child_list) (is.cells x);
        sizes = λ x. ap (λ (c : Branch). c.child_n) (is.cells x);
        frames = λ x. ap frame (is.cells x);
      } in
      let (g, counted, f, same) =
        branch_calculate-IsForest (Shape-image inv file) s.branch_n (fuel_of t)
          (rw is.addresses (omega arith)) (short_image inv file) t.branches (placed inv file)
          (at s live r) (fuel_of t) links
          (λ x. ap (λ (c : Branch). c.content.total_branch_n) (is.cells x) ∙ total_lem (slot x))
          (rw is.addresses (omega arith)) root_lem only_lem (lineage_image inv file) bare_lem in
      (
        record t { branches = g },
        rw made (rw counted refl),
        stored_lem is g f same,
        copy_lem is g f same,
      )
