-- ===== src/Session/Spread.antt =====
-- The vbranch over the new branch that the first loop of insert (src/map.c:191) adds to a vbranch of
-- the parent.
use treedb.Prelude.{
  subst, inl, inr, false, ℕ, suc, ◌+◌, ◌%◌, ◌≤◌, ◌<◌, ◌≡◌, refl, ap, ◌∙◌, sym, inl, inr, false,
  Option, some, List, arith, ◌==◌, ==_self, Bool-cases, length, eq_of_==, insert_at,
}
use treedb.Prelude.Int.{pos}
use treedb.Session.Adds.{passed, IsIndexed, IsKept, leaf, Adds, IsOwner, Spreads}
use treedb.Codec.Hex.{id2hex32, id2hex64}
use treedb.Index.{Index}
use treedb.Branch.{elems, kids, parent_of, update, u32_mod, clamp_pos}
use treedb.Branch.Arrays.{index_of}
use treedb.Branch.Forest.{Shape}
use treedb.Io.Heads.{branch_get_pos_lem}
use treedb.View.{Vbranch, World, View, blank_vbranch, new_child, vchilds_with, vbranch_add}
use treedb.View.Frame.{
  Shape-SameTree, SameTree-set_vbranch_list, Fits, Fits-set_vbranch_list, with_child,
  new_child-with_child,
}
use treedb.View.Childs.{under, vchilds_with-insert_at, vbranch_add_lem}
use treedb.Message.{Node, map_insert, vbranch_to_json, to_nodes}
use treedb.Session.{MapState, world, put, push, view_hexid, send_insert}
use treedb.Session.Insert.{add_vbranch}

ids-update :
    {T : Type 0} (views : ℕ → View T) (u v : ℕ) (t : T)
    → (update views u (record (views u) { vbranch_index = t }) v).id ≡ (views v).id
ids-update views u v t = elim (Bool-cases (u == v)) [
  | inl here ↦ rw here (ap (λ w. (views w).id) (eq_of_== u v here))
  | inr there ↦ rw there refl
]

-- The facts of the loop that do not change: the new branch with its place and its object, the ids of
-- the views, and the vbranches that there were.
module _ {T : Type 0} ⦃ix : Index T⦄ (view : Option ℕ)
    (new_b pb parent_id branch_pos place low0 : ℕ) (object : Node) (vid : ℕ → ℕ) where
  pub record IsReady (m : MapState T) : Type 0 where
    pub shape : Shape m.store.branches
    pub parent : parent_of m.store.branches new_b ≡ some pb
    pub fits : Fits m.store.branches
    pub at : index_of new_b (kids m.store.branches pb) ≡ place
    pub shown : leaf (m.store.branches new_b) ≡ object
    pub ids : (u : ℕ) → (m.views u).id ≡ vid u
    pub later : low0 ≤ m.vnext

  leaf_json :
      (fuel : ℕ) (w : World T) (vb u p : ℕ)
      → w.vbranches vb
        ≡ record blank_vbranch { branch = some new_b; parent = some p; view = some u }
      → leaf (w.branches new_b) ≡ object
      → vbranch_to_json (suc fuel) w vb ≡ some object
  unfolding vbranch_to_json to_nodes
  leaf_json fuel w vb u p cell shown = rw (vbranch_to_json, cell) (ap some shown)

  pub send_insert-leaf :
      (m : MapState T) (vb u p : ℕ)
      → m.vbranches vb
        ≡ record blank_vbranch { branch = some new_b; parent = some p; view = some u }
      → leaf (m.store.branches new_b) ≡ object
      → (m.views u).id ≡ vid u
      → send_insert m vb (id2hex64 parent_id) branch_pos
        ≡ some (push m (map_insert (id2hex32 (vid u)) (id2hex64 parent_id) branch_pos object))
  unfolding send_insert view_hexid
  send_insert-leaf m vb u p cell shown id =
      let fuel : m.vnext + 1 ≡ suc m.vnext = omega arith in
      rw cell (rw (fuel, leaf_json m.vnext (world m) vb u p cell shown) (rw id refl))

  -- The heaps after the loop has given the vbranch at `x` its new child.
  abbrev pub spread_to : MapState T → ℕ → Vbranch → ℕ → List ℕ → World T
  spread_to m x c u l =
      let w1 = with_child (world m) new_b (some x) u l in
      let v = under w1 m.vnext x in
      record w1 {
        vbranches = update v x (record (v x) {
          child_list =
              some (insert_at (clamp_pos (pos place) c.child_n) m.vnext (elems c.child_list));
          child_n = (v x).child_n + 1;
        });
      }

  add_vbranch_of :
      (m : MapState T) (x u : ℕ) (w1 w2 : World T) (y : ℕ)
      → (m.vbranches x).view ≡ some u
      → new_child (world m) new_b (some x) (some u) ≡ some (w1, y)
      → vbranch_add w1 y x ≡ some w2
      → add_vbranch m new_b x ≡ some (put m w2, y)
  unfolding add_vbranch
  add_vbranch_of m x u w1 w2 y sight made added = rw sight (rw made (rw added refl))

  pub add_vbranch_lem :
      (m : MapState T) (x : ℕ) (c : Vbranch)
      → IsReady m
      → (o : IsOwner low0 x c) → m.vbranches x ≡ c
      → (l : List ℕ) × (add_vbranch m new_b x ≡ some (put m (spread_to m x c o.of l), m.vnext))
        × (length l ≡ (m.store.branches new_b).content.vbranch_n + 1)
  add_vbranch_lem m x c k o cell =
      let (l, made, longer) = new_child-with_child (world m) new_b (some x) o.of k.fits in
      let w1 = with_child (world m) new_b (some x) o.of l in
      let y = m.vnext in
      let apart : (y == x) ≡ false = ground (arith, o.low, k.later) in
      let same =
        SameTree-set_vbranch_list m.store.branches new_b l
          (((m.store.branches new_b).content.vbranch_n + 1) % u32_mod) in
      let shape = Shape-SameTree same k.shape in
      let up : parent_of w1.branches new_b ≡ some pb = ap (λ t. t.2) (same new_b) ∙ k.parent in
      let at = branch_get_pos_lem new_b pb shape up in
      let index : index_of new_b (kids w1.branches pb) ≡ place =
        ap (λ t. index_of new_b (elems t.3)) (same pb) ∙ k.at in
      let here : under w1 y x x ≡ c = rw apart cell in
      let list = vchilds_with-insert_at c y place o.sized o.small in
      let added =
        vbranch_add_lem w1 y x (rw (==_self y) refl) (at ∙ ap (λ i. some (pos i)) index)
          (ap (λ (d : Vbranch). vchilds_with d y (some (pos place))) here ∙ list) in
      (
        l,
        add_vbranch_of m x o.of w1 (spread_to m x c o.of l) y
            (ap (λ (d : Vbranch). d.view) cell ∙ o.of_view) made added,
        longer,
      )

  -- What a round leaves, less the message.
  pub record IsRound (m1 m : MapState T) (x : ℕ) (c : Vbranch) : Type 0 where
    pub adds : Adds m1 m new_b
    pub ready : IsReady m1
    pub others : (z : ℕ) → z < m.vnext → (x == z) ≡ false → m1.vbranches z ≡ m.vbranches z
    pub kept : (u : ℕ) → IsKept new_b low0 m1 m u
    pub indexed : passed view c ≡ false → (u : ℕ) → c.view ≡ some u → IsIndexed new_b low0 m1 u

  pub child_cell :
      (m : MapState T) (x : ℕ) (c : Vbranch) (o : IsOwner low0 x c) (l : List ℕ)
      → low0 ≤ m.vnext
      → (spread_to m x c o.of l).vbranches m.vnext
        ≡ record blank_vbranch { branch = some new_b; parent = some x; view = some o.of }
  child_cell m x c o l later =
      let other : (x == m.vnext) ≡ false = ground (arith, o.low) in rw (other, ==_self m.vnext) refl

  indexed_lem :
      (m : MapState T) (x : ℕ) (c : Vbranch)
      → IsReady m
      → (o : IsOwner low0 x c) (l : List ℕ)
      → IsIndexed new_b low0 (put m (spread_to m x c o.of l)) o.of
  indexed_lem m x c k o l =
      let y = m.vnext in
      let n = ((m.store.branches new_b).content.vbranch_n + 1) % u32_mod in
      let id = (m.store.branches new_b).id in
      let t = (m.views o.of).vbranch_index in
      let same = SameTree-set_vbranch_list m.store.branches new_b l n in
      let cell = child_cell m x c o l k.later in
      (
        y,
        k.later,
        omega arith,
        rw (==_self o.of) (
            ap (λ p. ix.find (ix.replace t id y) p.1) (same new_b)
            ∙ (ix.find-replace t id y id ∙ rw (==_self id) refl)),
        ap (λ (d : Vbranch). d.branch) cell,
        ap (λ (d : Vbranch). d.view) cell,
      )

  kept_lem :
      (m : MapState T) (x : ℕ) (c : Vbranch)
      → IsReady m
      → (o : IsOwner low0 x c) (l : List ℕ) (u : ℕ)
      → IsKept new_b low0 (put m (spread_to m x c o.of l)) m u
  kept_lem m x c k o l u = elim (Bool-cases (o.of == u)) [
    | inl here ↦ inr (
        subst (IsIndexed new_b low0 (put m (spread_to m x c o.of l))) (eq_of_== o.of u here)
          (indexed_lem m x c k o l))
    | inr there ↦ inl (rw there refl)
  ]

  pub spread_to_lem :
      (m : MapState T) (x : ℕ) (c : Vbranch)
      → IsReady m
      → (o : IsOwner low0 x c) → m.vbranches x ≡ c
      → (l : List ℕ) → length l ≡ (m.store.branches new_b).content.vbranch_n + 1
      → IsRound (put m (spread_to m x c o.of l)) m x c
        × Spreads new_b place low0 false x c (put m (spread_to m x c o.of l))
  spread_to_lem m x c k o cell l longer =
      let y = m.vnext in
      let n = ((m.store.branches new_b).content.vbranch_n + 1) % u32_mod in
      let apart : (y == x) ≡ false = ground (arith, o.low, k.later) in
      let same = SameTree-set_vbranch_list m.store.branches new_b l n in
      let kept = λ (v : ℕ).
        ids-update m.views o.of v
          (ix.replace (m.views o.of).vbranch_index (m.store.branches new_b).id y) in
      (
        record {
          adds = record {
            tree = same;
            store = refl;
            root = refl;
            later = omega arith;
            lists = λ b other. rw other (refl, refl);
            sights = λ z low.
                let far : (y == z) ≡ false = ground arith in
                elim (Bool-cases (x == z)) [
                  | inl here ↦
                      let one = eq_of_== x z here in
                      (
                        rw (here, apart) (ap (λ w. (m.vbranches w).view) one),
                        rw (here, apart) (ap (λ w. (m.vbranches w).branch) one),
                      )
                  | inr there ↦ (rw (there, far) refl, rw (there, far) refl)
                ];
            ids = kept;
          };
          ready = record {
            shape = Shape-SameTree same k.shape;
            parent = ap (λ t. t.2) (same new_b) ∙ k.parent;
            fits = Fits-set_vbranch_list m.store.branches new_b l n k.fits (omega (arith, longer));
            at = ap (λ t. index_of new_b (elems t.3)) (same pb) ∙ k.at;
            shown = rw (==_self new_b) k.shown;
            ids = λ v. kept v ∙ k.ids v;
            later = omega (arith, k.later);
          };
          others = λ z low other. let far : (y == z) ≡ false = ground arith in rw (other, far) refl;
          kept = kept_lem m x c k o l;
          indexed = λ told u e.
              let same : o.of ≡ u = let both = sym o.of_view ∙ e in cc in
              subst (IsIndexed new_b low0 (put m (spread_to m x c o.of l))) same
                (indexed_lem m x c k o l);
        },
        (
          y,
          k.later,
          omega arith,
          rw (==_self x) (
              rw apart (
                ap
                  (λ (d : Vbranch). record d {
                    child_list =
                        some (insert_at (clamp_pos (pos place) c.child_n) y (elems c.child_list));
                    child_n = d.child_n + 1;
                  })
                  cell)),
          child_cell m x c o l k.later
              ∙ ap
                  (λ (d : Option ℕ). record blank_vbranch {
                    branch = some new_b;
                    parent = some x;
                    view = d;
                  })
                  (sym o.of_view),
        ),
      )
