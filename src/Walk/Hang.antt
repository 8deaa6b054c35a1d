-- ===== src/Walk/Hang.antt =====
-- What view_expand_to (src/view.c:288) hangs below the vbranch that it finds: the vbranches on the way
-- down to the branch, with their siblings.
use treedb.Prelude.{
  ℕ, ◌+◌, ◌%◌, ◌≤◌, ◌<◌, ◌≡◌, refl, ap, ◌∙◌, sym, subst, inl, inr, true, false, Option, none, some,
  List, [], ◌∷◌, arith, ◌==◌, ==_self, if◌then◌else◌, Bool-cases, length, has, eq_of_==,
}
use treedb.Index.{Index}
use treedb.Branch.{Branches, elems, kids, u32_mod}
use treedb.View.{Vbranch, Vbranches, World, new_child, blank_vbranch}
use treedb.View.Frame.{
  Fits, Grows, Grows-refl, Grows-trans, SameTree-set_vbranch_list, Fits-set_vbranch_list,
  with_child, new_child-with_child,
}
use treedb.View.Mirror.{branches_of, pointers}
use treedb.Walk.{set_vchilds, set_vparent, adopt, hang, join, siblings}

-- The writes of adopt.
adopt_lem :
    (v : Vbranches) (l : List ℕ) (p x : ℕ)
    → adopt v l p x ≡ (if has x l then record (v x) { parent = some p } else v x)
unfolding adopt
adopt_lem v [] p x = refl
adopt_lem v (c ∷ l) p x = elim (Bool-cases (c == x)) [
  | inl here ↦ elim (Bool-cases (has x l)) [
    | inl more ↦
        adopt_lem (set_vparent v c p) l p x
        ∙ rw (more, here) (ap (λ y. record (v y) { parent = some p }) (eq_of_== c x here))
    | inr last ↦
        adopt_lem (set_vparent v c p) l p x
        ∙ rw (last, here) (ap (λ y. record (v y) { parent = some p }) (eq_of_== c x here))
  ]
  | inr there ↦ adopt_lem (set_vparent v c p) l p x ∙ rw there refl
]

-- The childs `l` of a vbranch stand over the branches `cl`, under it and in the view `u`.
pub record IsOpen (v : Vbranches) (u vb : ℕ) (cl l : List ℕ) : Type 0 where
  pub array : (v vb).child_list ≡ some l
  pub size : (v vb).child_n ≡ length l
  pub mirrors : branches_of v l ≡ pointers cl
  pub parents : (x : ℕ) → has x l ≡ true → ((v x).parent ≡ some vb) × ((v x).view ≡ some u)

-- From the vbranch `y` one comes down to a vbranch over `b`, through vbranches that are open, with
-- addresses from `low` on and below `high`.
pub data Leads (v : Vbranches) (h : Branches) (u b low : ℕ) : ℕ → ℕ → Type 0 where
  arrived : {high y : ℕ} → (v y).branch ≡ some b → Leads v h u b low high y
  down :
      {high next y z : ℕ} (p : ℕ) (l : List ℕ)
      → IsOpen v u y (kids h p) l
      → ((x : ℕ) → has x l ≡ true → (next ≤ x) × (low ≤ x) × (x < high))
      → has z l ≡ true
      → Leads v h u b low next z
      → Leads v h u b low high y

pub branches_of-same :
    (v w : Vbranches) (l : List ℕ)
    → ((x : ℕ) → has x l ≡ true → (w x).branch ≡ (v x).branch)
    → branches_of w l ≡ branches_of v l
branches_of-same v w [] same = refl
branches_of-same v w (x ∷ l) same =
    ap (λ t. t ∷ branches_of w l) (same x (rw (==_self x) refl))
    ∙ ap (λ t. (v x).branch ∷ t) (branches_of-same v w l (λ y m. same y (ground arith)))

-- Writes to other vbranches, and to the parent of `y`, do not matter.
pub Leads-same :
    {v w : Vbranches} {h g : Branches} {u b low high y : ℕ}
    → ((p : ℕ) → kids g p ≡ kids h p)
    → ((x : ℕ) → low ≤ x → x < high → w x ≡ v x)
    → (w y).branch ≡ (v y).branch
    → (w y).child_list ≡ (v y).child_list
    → (w y).child_n ≡ (v y).child_n
    → Leads v h u b low high y
    → Leads w g u b low high y
Leads-same trees same branch array size (arrived e) = arrived (branch ∙ e)
Leads-same {v} {w} {y} trees same branch array size (down {next} {z} p l o range m way) =
    let at = λ (x : ℕ) (e : has x l ≡ true). same x (range x e).1 (range x e).2 in
    down p l
      (record {
        array = array ∙ o.array;
        size = size ∙ o.size;
        mirrors =
            branches_of-same v w l (λ x e. ap (λ (t : Vbranch). t.branch) (at x e))
            ∙ (o.mirrors ∙ sym (ap pointers (trees p)));
        parents = λ x e. (
          ap (λ (t : Vbranch). t.parent) (at x e) ∙ (o.parents x e).0,
          ap (λ (t : Vbranch). t.view) (at x e) ∙ (o.parents x e).1,
        );
      })
      range m
      (Leads-same trees (λ x lo hi. same x lo (omega (arith, hi, (range z m).0, (range z m).2)))
        (ap (λ (t : Vbranch). t.branch) (at z m)) (ap (λ (t : Vbranch). t.child_list) (at z m))
        (ap (λ (t : Vbranch). t.child_n) (at z m)) way)

module _ {T : Type 0} where
  module _ (w : World T) (y : ℕ) (l : List ℕ) (apart : has y l ≡ false) where
    pub hang_self :
        (hang w y l).vbranches y
        ≡ record (w.vbranches y) { child_list = some l; child_n = length l }
    unfolding hang
    hang_self = adopt_lem (set_vchilds w.vbranches y l) l y y ∙ rw (apart, ==_self y) refl

    hang-child :
        (x : ℕ)
        → has x l ≡ true
        → (hang w y l).vbranches x ≡ record (w.vbranches x) { parent = some y }
    unfolding hang
    hang-child x m = elim (Bool-cases (y == x)) [
      | inl here ↦
          let never = sym apart ∙ (ap (λ t. has t l) (eq_of_== y x here) ∙ m) in absurd (cc)
      | inr other ↦ adopt_lem (set_vchilds w.vbranches y l) l y x ∙ rw (m, other) refl
    ]

    pub hang-other :
        (x : ℕ) → has x l ≡ false → (y == x) ≡ false → (hang w y l).vbranches x ≡ w.vbranches x
    unfolding hang
    hang-other x out other = adopt_lem (set_vchilds w.vbranches y l) l y x ∙ rw (out, other) refl

  -- Vbranches of the view `u` over the branches `cl`, from the address `start` on, from one of which one
  -- comes down to the branch `b`.
  pub record IsRow (w : World T) (u b low start : ℕ) (cl l : List ℕ) : Type 0 where
    pub mirrors : branches_of w.vbranches l ≡ pointers cl
    pub cells :
        (x : ℕ) → has x l ≡ true → (start ≤ x) × (x < w.vnext) × ((w.vbranches x).view ≡ some u)
    pub first : ℕ
    pub inside : has first l ≡ true
    pub way : Leads w.vbranches w.branches u b low start first

  -- A row that hangs below a vbranch.
  pub hang-Leads :
      (w : World T) (u b low start mid p y : ℕ) (l : List ℕ)
      → low ≤ start
      → ((x : ℕ) → has x l ≡ true → x < mid)
      → ((x : ℕ) → has x l ≡ true → (y == x) ≡ false)
      → ((x : ℕ) → low ≤ x → x < start → (y == x) ≡ false)
      → IsRow w u b low start (kids w.branches p) l
      → Leads (hang w y l).vbranches w.branches u b low mid y
  hang-Leads w u b low start mid p y l le under_mid apart far row =
      let out : has y l ≡ false = elim (Bool-cases (has y l)) [
        | inr no_y ↦ no_y
        | inl m ↦ let same = ==_self y in let other = apart y m in absurd (cc)
      ] in
      let at = hang-child w y l out in
      let z = row.first in
      let deeper = λ (x : ℕ) (lo : low ≤ x) (hi : x < start).
        hang-other w y l out x
          (elim (Bool-cases (has x l)) [
            | inr no_x ↦ no_x
            | inl m ↦ absurd (omega (arith, hi, (row.cells x m).0))
          ])
          (far x lo hi) in
      down p l
        (record {
          array = ap (λ (t : Vbranch). t.child_list) (hang_self w y l out);
          size = ap (λ (t : Vbranch). t.child_n) (hang_self w y l out);
          mirrors =
              branches_of-same w.vbranches (hang w y l).vbranches l
                (λ x m. ap (λ (t : Vbranch). t.branch) (at x m))
              ∙ row.mirrors;
          parents = λ x m. (
            ap (λ (t : Vbranch). t.parent) (at x m),
            ap (λ (t : Vbranch). t.view) (at x m) ∙ (row.cells x m).2,
          );
        })
        (λ x m. ((row.cells x m).0, omega (arith, le, (row.cells x m).0), under_mid x m)) row.inside
        (Leads-same (λ q. refl) deeper (ap (λ (t : Vbranch). t.branch) (at z row.inside))
          (ap (λ (t : Vbranch). t.child_list) (at z row.inside))
          (ap (λ (t : Vbranch). t.child_n) (at z row.inside)) row.way)

  -- New vbranches do not matter to a row.
  pub IsRow-Grows :
      {w v : World T} {u b low start : ℕ} {cl l : List ℕ}
      → start ≤ v.vnext
      → Grows w v
      → IsRow v u b low start cl l
      → IsRow w u b low start cl l
  IsRow-Grows {w} {v} {l} le g row =
      let at = λ (x : ℕ) (m : has x l ≡ true). g.kept x (row.cells x m).1 in
      let z = row.first in
      record {
        mirrors =
            branches_of-same v.vbranches w.vbranches l
              (λ x m. ap (λ (t : Vbranch). t.branch) (at x m))
            ∙ row.mirrors;
        cells = λ x m. (
          (row.cells x m).0,
          omega (arith, g.later, (row.cells x m).1),
          ap (λ (t : Vbranch). t.view) (at x m) ∙ (row.cells x m).2,
        );
        first = z;
        inside = row.inside;
        way =
            Leads-same (λ q. ap (λ t. elems t.3) (g.tree q))
              (λ x lo hi. g.kept x (omega (arith, le, hi)))
              (ap (λ (t : Vbranch). t.branch) (at z row.inside))
              (ap (λ (t : Vbranch). t.child_list) (at z row.inside))
              (ap (λ (t : Vbranch). t.child_n) (at z row.inside)) row.way;
      }

pub pointer_in :
    (v : Vbranches) (b : ℕ) (l cl : List ℕ)
    → branches_of v l ≡ pointers cl
    → has b cl ≡ true
    → (y : ℕ) × (has y l ≡ true) × ((v y).branch ≡ some b)
pointer_in v b [] [] e m = absurd (ground arith)
pointer_in v b (y ∷ l) [] e m = absurd cc
pointer_in v b [] (c ∷ cl) e m = absurd cc
pointer_in v b (y ∷ l) (c ∷ cl) e m = elim (Bool-cases (c == b)) [
  | inl here ↦
      let same = eq_of_== c b here in
      let first : (v y).branch ≡ some c = cc in
      (y, rw (==_self y) refl, first ∙ ap (λ t. some t) same)
  | inr there ↦
      let rest : branches_of v l ≡ pointers cl = cc in
      let (z, inside, over) = pointer_in v b l cl rest (ground arith) in (z, ground arith, over)
]

module _ {T : Type 0} ⦃ix : Index T⦄ where
  -- The lists of vbranches of the other branches stay.
  abbrev pub SameLists : World T → World T → List ℕ → Type 0
  SameLists w v cl =
      (q : ℕ)
      → has q cl ≡ false
      → (w.branches q).content.vbranch_list ≡ (v.branches q).content.vbranch_list

  pub made_lem :
      (w : World T) (c : ℕ) (parent : Option ℕ) (u : ℕ)
      → Fits w.branches
      → (w1 : World T) × (new_child w c parent (some u) ≡ some (w1, w.vnext))
        × Grows w1 w
        × (w1.vnext ≡ w.vnext + 1)
        × (w1.vbranches w.vnext
            ≡ record blank_vbranch { branch = some c; parent = parent; view = some u })
        × SameLists w1 w (c ∷ [])
  made_lem w c parent u f =
      let (l, made, longer) = new_child-with_child w c parent u f in
      let n = ((w.branches c).content.vbranch_n + 1) % u32_mod in
      (
        with_child w c parent u l,
        made,
        record {
          later = omega arith;
          kept = λ x low. ground arith;
          tree = SameTree-set_vbranch_list w.branches c l n;
          fits = Fits-set_vbranch_list w.branches c l n f (omega (arith, longer));
        },
        refl,
        rw (==_self w.vnext) refl,
        λ q out. let other : (c == q) ≡ false = ground arith in rw other refl,
      )

  -- The loop with no childs to hang.
  pub siblings-none :
      (w : World T) (cl : List ℕ) (u b : ℕ)
      → Fits w.branches
      → (w1 : World T) × (l : List ℕ) × (siblings (length cl) cl w u b none ≡ some (w1, l))
        × Grows w1 w
        × (branches_of w1.vbranches l ≡ pointers cl)
        × ((x : ℕ)
            → has x l ≡ true
            → (w.vnext ≤ x) × (x < w1.vnext) × ((w1.vbranches x).view ≡ some u))
        × SameLists w1 w cl
  unfolding siblings join
  siblings-none w [] u b f =
      (w, [], refl, Grows-refl w f, refl, λ x m. absurd (ground arith), λ q out. refl)
  siblings-none w (c ∷ cl) u b f =
      let (w1, made, g1, next, cell, lists1) = made_lem w c none u f in
      let (w2, l, rest, g2, mirrors, cells, lists2) = siblings-none w1 cl u b g1.fits in
      let same = g2.kept w.vnext (omega (arith, next)) in
      let round : siblings (length (c ∷ cl)) (c ∷ cl) w u b none ≡ some (w2, w.vnext ∷ l) =
        elim (Bool-cases (c == b)) [
          | inl e ↦ rw (siblings, made) (rw (e, rest) refl)
          | inr e ↦ rw (siblings, made) (rw (e, rest) refl)
        ] in
      (
        w2,
        w.vnext ∷ l,
        round,
        Grows-trans g2 g1,
        ap (λ t. t ∷ branches_of w2.vbranches l)
              (ap (λ (t : Vbranch). t.branch) same ∙ ap (λ (t : Vbranch). t.branch) cell)
            ∙ ap (λ t. some c ∷ t) mirrors,
        λ x m. elim (Bool-cases (w.vnext == x)) [
          | inl here ↦
              subst (λ y. (w.vnext ≤ y) × (y < w2.vnext) × ((w2.vbranches y).view ≡ some u))
                (eq_of_== w.vnext x here)
                (
                  omega arith,
                  omega (arith, next, g2.later),
                  ap (λ (t : Vbranch). t.view) same ∙ ap (λ (t : Vbranch). t.view) cell,
                )
          | inr there ↦
              let (lo, hi, sight) = cells x (ground arith) in (omega (arith, lo, next), hi, sight)
        ],
        λ q out. lists2 q (ground arith) ∙ lists1 q (ground arith),
      )
