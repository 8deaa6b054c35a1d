-- ===== src/Session/Rounds.antt =====
-- The first loop of insert (src/map.c:191), round by round.
use treedb.Prelude.{
  ℕ, zero, suc, ◌≤◌, ◌<◌, ◌≡◌, refl, ap, ◌∙◌, sym, subst, inl, inr, true, false, Option, some, List,
  [], ◌∷◌, ◌++◌, arith, ◌==◌, ==_self, Bool-cases, length, take, count, has, count_of_has, eq_of_==,
  append-nil, append_assoc,
}
use treedb.Session.Adds.{
  Adds, Adds-refl, Adds-trans, IsOwner, passed, insert_news, all_news, Spreads, Spreads-later,
  IsIndexed, IsKept, IsIndexed-later, IsKept-trans,
}
use treedb.Session.Spread.{
  IsReady, IsRound, add_vbranch_lem, child_cell, send_insert-leaf, spread_to, spread_to_lem,
}
use treedb.Codec.Hex.{id2hex32, id2hex64}
use treedb.Index.{Index}
use treedb.View.{Vbranch}
use treedb.Walk.{same_ptr, each}
use treedb.Message.{Node, map_insert}
use treedb.Session.{MapState, put, push, send_insert}
use treedb.Session.Insert.{add_vbranch, spread_one}

-- The facts of the loop that do not change: the new branch with its place and its object, the ids of
-- the views, and the vbranches that there were.
module _ {T : Type 0} ⦃ix : Index T⦄ (view : Option ℕ)
    (new_b pb parent_id branch_pos place low0 : ℕ) (object : Node) (vid : ℕ → ℕ) where
  spread_own :
      (m m2 : MapState T) (x y : ℕ)
      → same_ptr (m.vbranches x).view view ≡ true
      → add_vbranch m new_b x ≡ some (m2, y)
      → spread_one view new_b parent_id branch_pos x m ≡ some m2
  unfolding spread_one
  spread_own m m2 x y own added = rw added (rw own refl)

  spread_far :
      (m m2 m3 : MapState T) (x y : ℕ)
      → same_ptr (m.vbranches x).view view ≡ false
      → ((m.vbranches x).child_n == 0) ≡ false
      → add_vbranch m new_b x ≡ some (m2, y)
      → send_insert m2 y (id2hex64 parent_id) branch_pos ≡ some m3
      → spread_one view new_b parent_id branch_pos x m ≡ some m3
  unfolding spread_one
  spread_far m m2 m3 x y other opened added sent = rw added (rw (other, opened) sent)

  spread_closed :
      (m : MapState T) (x : ℕ)
      → same_ptr (m.vbranches x).view view ≡ false
      → ((m.vbranches x).child_n == 0) ≡ true
      → spread_one view new_b parent_id branch_pos x m ≡ some m
  unfolding spread_one
  spread_closed m x other closed = rw (other, closed) refl

  -- One round of the loop.
  spread_one_lem :
      (m : MapState T) (x : ℕ) (c : Vbranch)
      → IsReady view new_b pb parent_id branch_pos place low0 object vid m
      → IsOwner low0 x c
      → m.vbranches x ≡ c
      → (m1 : MapState T) × (spread_one view new_b parent_id branch_pos x m ≡ some m1)
        × IsRound view new_b pb parent_id branch_pos place low0 object vid m1 m x c
        × Spreads new_b place low0 (passed view c) x c m1
        × (m1.out_q ≡ m.out_q ++ insert_news view parent_id branch_pos object vid c c.view)
  spread_one_lem m x c k o cell =
      let sight = ap (λ (d : Vbranch). same_ptr d.view view) cell in
      let size = ap (λ (d : Vbranch). d.child_n == 0) cell in
      let (l, added, longer) =
        add_vbranch_lem view new_b pb parent_id branch_pos place low0 object vid m x c k o cell in
      let m2 : MapState T =
        put m (spread_to view new_b pb parent_id branch_pos place low0 object vid m x c o.of l) in
      let (round, spread) =
        spread_to_lem view new_b pb parent_id branch_pos place low0 object vid m x c k o cell l
          longer in
      let (y, old_y, new_y, cell_x, cell_y) = spread in
      let news = ap (insert_news view parent_id branch_pos object vid c) o.of_view in
      elim (Bool-cases (same_ptr c.view view)) [
        | inl own ↦ (
          m2,
          spread_own m m2 x m.vnext (sight ∙ own) added,
          round,
          rw own spread,
          sym (ap (λ t. m.out_q ++ t) (news ∙ rw own refl) ∙ append-nil m.out_q),
        )
        | inr other ↦ elim (Bool-cases (c.child_n == 0)) [
          | inl closed ↦ (
            m,
            spread_closed m x (sight ∙ other) (size ∙ closed),
            record {
              adds = Adds-refl m new_b;
              ready = k;
              others = λ z low e. refl;
              kept = λ u. inl refl;
              indexed = λ told. absurd (ground (arith, other, closed, told));
            },
            rw (other, closed) cell,
            sym (ap (λ t. m.out_q ++ t) (news ∙ rw (other, closed) refl) ∙ append-nil m.out_q),
          )
          | inr opened ↦
              let msg = map_insert (id2hex32 (vid o.of)) (id2hex64 parent_id) branch_pos object in
              (
                push m2 msg,
                spread_far m m2 (push m2 msg) x m.vnext (sight ∙ other) (size ∙ opened) added (
                    send_insert-leaf view new_b pb parent_id branch_pos place low0 object vid m2
                      m.vnext o.of x
                      (child_cell view new_b pb parent_id branch_pos place low0 object vid m x c o l
                        k.later)
                      round.ready.shown (round.ready.ids o.of)),
                record {
                  adds = record {
                    tree = round.adds.tree;
                    store = refl;
                    root = refl;
                    later = round.adds.later;
                    lists = round.adds.lists;
                    sights = round.adds.sights;
                    ids = round.adds.ids;
                  };
                  ready = record {
                    shape = round.ready.shape;
                    parent = round.ready.parent;
                    fits = round.ready.fits;
                    at = round.ready.at;
                    shown = round.ready.shown;
                    ids = round.ready.ids;
                    later = round.ready.later;
                  };
                  others = round.others;
                  kept = round.kept;
                  indexed = round.indexed;
                },
                rw (other, opened) (y, old_y, new_y, cell_x, cell_y),
                sym (ap (λ t. m.out_q ++ t) (news ∙ rw (other, opened) refl)),
              )
        ]
      ]

  -- The whole loop, over different vbranches.
  pub spread_loop :
      (v : ℕ → Vbranch) (n : ℕ) (l : List ℕ) (m : MapState T)
      → n ≤ length l
      → IsReady view new_b pb parent_id branch_pos place low0 object vid m
      → ((x : ℕ) → has x (take n l) ≡ true → IsOwner low0 x (v x))
      → ((x : ℕ) → has x (take n l) ≡ true → m.vbranches x ≡ v x)
      → ((x : ℕ) → count x (take n l) ≤ 1)
      → (m1 : MapState T) × (each (spread_one view new_b parent_id branch_pos) n l m ≡ some m1)
        × Adds m1 m new_b
        × IsReady view new_b pb parent_id branch_pos place low0 object vid m1
        × ((x : ℕ)
            → has x (take n l) ≡ true
            → Spreads new_b place low0 (passed view (v x)) x (v x) m1)
        × ((z : ℕ) → z < m.vnext → has z (take n l) ≡ false → m1.vbranches z ≡ m.vbranches z)
        × (m1.out_q ≡ m.out_q ++ all_news view parent_id branch_pos object vid v (take n l))
        × ((u : ℕ) → IsKept new_b low0 m1 m u)
        × ((x : ℕ)
            → has x (take n l) ≡ true
            → passed view (v x) ≡ false
            → (u : ℕ) → (v x).view ≡ some u
            → IsIndexed new_b low0 m1 u)
  unfolding each
  spread_loop v zero l m low k owners cells once = (
    m,
    refl,
    Adds-refl m new_b,
    k,
    λ x h. absurd (ground arith),
    λ z e h. refl,
    sym (append-nil m.out_q),
    λ u. inl refl,
    λ x h. absurd (ground arith),
  )
  spread_loop v (suc n) [] m low k owners cells once = absurd (omega arith)
  spread_loop v (suc n) (x ∷ l) m low k owners cells once =
      let first : has x (take (suc n) (x ∷ l)) ≡ true = rw (==_self x) refl in
      let o = owners x first in
      let alone : has x (take n l) ≡ false = elim (Bool-cases (has x (take n l))) [
        | inr out ↦ out
        | inl twice ↦ absurd (ground (arith, once x, ==_self x, count_of_has x (take n l) twice))
      ] in
      let apart = λ (z : ℕ) (h : has z (take n l) ≡ true).
        elim (Bool-cases (x == z)) as (λ t. (x == z) ≡ false) [
          | inr differ ↦ differ
          | inl same ↦
              let both = sym alone ∙ (ap (λ y. has y (take n l)) (eq_of_== x z same) ∙ h) in
              absurd (cc)
        ] in
      let (m1, made, round, spread, sent) = spread_one_lem m x (v x) k o (cells x first) in
      let (m2, rest, adds, ready, spreads, others, news, kept, indexed) =
        spread_loop v n l m1 (omega arith) round.ready (λ z h. owners z (ground arith))
          (λ z h.
            let differ : (x == z) ≡ false = apart z h in
            round.others z (omega (arith, (owners z (ground arith)).low, k.later)) differ
            ∙ cells z (ground arith))
          (λ z. ground (arith, once z)) in
      (
        m2,
        rw (each, made) rest,
        Adds-trans adds round.adds,
        ready,
        λ z h. elim (Bool-cases (x == z)) [
          | inl here ↦
              subst (λ y. Spreads new_b place low0 (passed view (v y)) y (v y) m2)
                (eq_of_== x z here)
                (Spreads-later new_b place low0 (passed view (v x)) x (v x) m1 m2 adds.later
                  (omega (arith, o.low, k.later, round.adds.later))
                  (λ y lt e. others y lt (elim (Bool-cases (has y (take n l))) [
                    | inr out ↦ out
                    | inl listed ↦ elim e [
                      | inl high ↦ absurd (omega (arith, (owners y (ground arith)).low))
                      | inr same ↦
                          let both = sym listed ∙ (ap (λ u. has u (take n l)) same ∙ alone) in
                          absurd (cc)
                    ]
                  ]))
                  spread)
          | inr there ↦ spreads z (ground arith)
        ],
        λ z e h.
            others z (omega (arith, round.adds.later)) (ground arith)
            ∙ round.others z e (ground arith),
        news
            ∙ (ap (λ q. q ++ all_news view parent_id branch_pos object vid v (take n l)) sent
                ∙ append_assoc m.out_q
                    (insert_news view parent_id branch_pos object vid (v x) (v x).view)
                    (all_news view parent_id branch_pos object vid v (take n l))),
        λ u. IsKept-trans new_b low0 m2 m1 m u adds (kept u) (round.kept u),
        λ z h told u e. elim (Bool-cases (x == z)) [
          | inl here ↦
              let one = eq_of_== x z here in
              IsIndexed-later new_b low0 m2 m1 u adds (kept u) (
                round.indexed (ap (λ y. passed view (v y)) one ∙ told) u
                  (ap (λ y. (v y).view) one ∙ e))
          | inr there ↦ indexed z (ground arith) told u e
        ],
      )
