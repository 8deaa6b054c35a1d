-- ===== src/Session/Adds.antt =====
-- What the first loop of insert (src/map.c:191) does: every view that shows the childs of the parent
-- gets a vbranch over the new branch, and is told if it is not that of the client.
use treedb.Prelude.{
  ℕ, ◌+◌, ◌≤◌, ◌<◌, ◌≡◌, refl, ap, ◌∙◌, inl, inr, Bool, true, false, not, Option, none, some, List,
  [], ◌∷◌, ◌++◌, ◌&&◌, arith, ◌==◌, if◌then◌else◌, length, ◌⊎◌, insert_at,
}
use treedb.Prelude.Int.{pos}
use treedb.Codec.Hex.{id2hex32, id2hex64}
use treedb.Branch.{Branch, elems, u16_mod, clamp_pos}
use treedb.Index.{Index}
use treedb.Store.{Store}
use treedb.View.{Vbranch, blank_vbranch}
use treedb.View.Frame.{SameTree}
use treedb.Walk.{same_ptr}
use treedb.Message.{Node, node, end, Message, map_insert, mark_of}
use treedb.Session.{MapState}

-- What vbranch_to_json gives for a new vbranch over a branch.
abbrev pub leaf : Branch → Node
leaf c =
    node (id2hex64 c.id) c.content.text c.content.total_branch_n c.child_n false
      (mark_of c.content.note_id) end

-- From `m` to `m1` the tree stays; vbranches are added, and the old ones keep their view and branch.
pub record Adds {T : Type 0} (m1 m : MapState T) (new_b : ℕ) : Type 0 where
  pub tree : SameTree m1.store.branches m.store.branches
  pub store : record (m1.store) { branches = m.store.branches } ≡ m.store
  pub root : m1.branch ≡ m.branch
  pub later : m.vnext ≤ m1.vnext
  pub lists :
      (b : ℕ)
      → (new_b == b) ≡ false
      → ((m1.store.branches b).content.vbranch_list ≡ (m.store.branches b).content.vbranch_list)
        × ((m1.store.branches b).content.vbranch_n ≡ (m.store.branches b).content.vbranch_n)
  pub sights :
      (x : ℕ)
      → x < m.vnext
      → ((m1.vbranches x).view ≡ (m.vbranches x).view)
        × ((m1.vbranches x).branch ≡ (m.vbranches x).branch)
  pub ids : (u : ℕ) → (m1.views u).id ≡ (m.views u).id

pub Adds-refl : {T : Type 0} (m : MapState T) (new_b : ℕ) → Adds m m new_b
Adds-refl m new_b = record {
  tree = λ x. refl;
  store = refl;
  root = refl;
  later = omega arith;
  lists = λ b e. (refl, refl);
  sights = λ x e. (refl, refl);
  ids = λ u. refl;
}

pub Adds-trans :
    {T : Type 0} {m2 m1 m : MapState T} {new_b : ℕ}
    → Adds m2 m1 new_b
    → Adds m1 m new_b
    → Adds m2 m new_b
Adds-trans {T} {m = m} a c = record {
  tree = λ x. a.tree x ∙ c.tree x;
  store = ap (λ (s : Store T). record s { branches = m.store.branches }) a.store ∙ c.store;
  root = a.root ∙ c.root;
  later = omega (arith, a.later, c.later);
  lists = λ b e. ((a.lists b e).0 ∙ (c.lists b e).0, (a.lists b e).1 ∙ (c.lists b e).1);
  sights = λ x low. (
    (a.sights x (omega (arith, c.later))).0 ∙ (c.sights x low).0,
    (a.sights x (omega (arith, c.later))).1 ∙ (c.sights x low).1,
  );
  ids = λ u. a.ids u ∙ c.ids u;
}

-- A vbranch of the parent, which has room for a child.
pub record IsOwner (low0 x : ℕ) (c : Vbranch) : Type 0 where
  pub of : ℕ
  pub of_view : c.view ≡ some of
  pub sized : c.child_n ≡ length (elems c.child_list)
  pub small : c.child_n + 1 < u16_mod
  pub low : x < low0

-- Does the loop pass the vbranch over? It does if it is of another view and has no childs.
abbrev pub passed : Option ℕ → Vbranch → Bool
passed view c = not (same_ptr c.view view) && (c.child_n == 0)

-- The message for the view of a vbranch, if it is not that of the client and shows the childs.
abbrev pub insert_news : Option ℕ → ℕ → ℕ → Node → (ℕ → ℕ) → Vbranch → Option ℕ → List Message
insert_news view parent_id branch_pos object vid c none = []
insert_news view parent_id branch_pos object vid c (some u) =
    if same_ptr c.view view
    then []
    else if c.child_n == 0
    then []
    else map_insert (id2hex32 (vid u)) (id2hex64 parent_id) branch_pos object ∷ []

-- The messages of the loop.
abbrev pub all_news : Option ℕ → ℕ → ℕ → Node → (ℕ → ℕ) → (ℕ → Vbranch) → List ℕ → List Message
all_news view parent_id branch_pos object vid v [] = []
all_news view parent_id branch_pos object vid v (x ∷ l) =
    insert_news view parent_id branch_pos object vid (v x) (v x).view
    ++ all_news view parent_id branch_pos object vid v l

-- The new branch, its place among the childs of its parent, and the vbranches that there were.
module _ {T : Type 0} (new_b place low0 : ℕ) where
  -- What the loop makes of a vbranch `c` at `x`: nothing, or it has a child more, at the place of the
  -- new branch among the childs of its parent.
  abbrev pub Spreads : Bool → ℕ → Vbranch → MapState T → Type 0
  Spreads true x c m = m.vbranches x ≡ c
  Spreads false x c m =
      (y : ℕ) × (low0 ≤ y)
      × (y < m.vnext)
      × (m.vbranches x ≡ record c {
        child_list = some (insert_at (clamp_pos (pos place) c.child_n) y (elems c.child_list));
        child_n = c.child_n + 1;
      })
      × (m.vbranches y
          ≡ record blank_vbranch { branch = some new_b; parent = some x; view = c.view })

  -- What stands at a later address, and what is at another vbranch, does not matter.
  pub Spreads-later :
      (t : Bool) (x : ℕ) (c : Vbranch) (m m1 : MapState T)
      → m.vnext ≤ m1.vnext
      → x < m.vnext
      → ((z : ℕ) → z < m.vnext → (low0 ≤ z) ⊎ (z ≡ x) → m1.vbranches z ≡ m.vbranches z)
      → Spreads t x c m
      → Spreads t x c m1
  Spreads-later true x c m m1 later low same s = same x low (inr refl) ∙ s
  Spreads-later false x c m m1 later low same (y, old_y, new_y, cell_x, cell_y) = (
    y,
    old_y,
    omega (arith, new_y, later),
    same x low (inr refl) ∙ cell_x,
    same y new_y (inl old_y) ∙ cell_y,
  )

module _ {T : Type 0} ⦃ix : Index T⦄ (new_b low0 : ℕ) where
  -- The index of the view `u` has a new vbranch of the view, over the new branch, under its id.
  abbrev pub IsIndexed : MapState T → ℕ → Type 0
  IsIndexed m u =
      (y : ℕ) × (low0 ≤ y)
      × (y < m.vnext)
      × (ix.find (m.views u).vbranch_index (m.store.branches new_b).id ≡ some y)
      × ((m.vbranches y).branch ≡ some new_b)
      × ((m.vbranches y).view ≡ some u)

  -- Between two states the index of a view stays, or has a new vbranch.
  abbrev pub IsKept : MapState T → MapState T → ℕ → Type 0
  IsKept m1 m u = ((m1.views u).vbranch_index ≡ (m.views u).vbranch_index) ⊎ IsIndexed m1 u

  pub IsIndexed-later :
      (m1 m : MapState T) (u : ℕ) → Adds m1 m new_b → IsKept m1 m u → IsIndexed m u → IsIndexed m1 u
  IsIndexed-later m1 m u a (inr now) was = now
  IsIndexed-later m1 m u a (inl same) (y, old, new, found, branch, sight) = (
    y,
    old,
    omega (arith, new, a.later),
    ap (λ t. ix.find t (m1.store.branches new_b).id) same
        ∙ (ap (λ t. ix.find (m.views u).vbranch_index t.1) (a.tree new_b) ∙ found),
    (a.sights y new).1 ∙ branch,
    (a.sights y new).0 ∙ sight,
  )

  pub IsKept-trans :
      (m2 m1 m : MapState T) (u : ℕ)
      → Adds m2 m1 new_b
      → IsKept m2 m1 u
      → IsKept m1 m u
      → IsKept m2 m u
  IsKept-trans m2 m1 m u a (inr now) before = inr now
  IsKept-trans m2 m1 m u a (inl same) (inl older) = inl (same ∙ older)
  IsKept-trans m2 m1 m u a (inl same) (inr was) = inr (IsIndexed-later m2 m1 u a (inl same) was)
