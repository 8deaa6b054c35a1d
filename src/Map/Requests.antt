-- ===== src/Map/Requests.antt =====
-- move (src/map.c:437) and insert (src/map.c:117) on whatever ids a client sends.
use treedb.Prelude.{
  ℕ, zero, suc, ◌+◌, ◌<◌, ◌≡◌, refl, sym, ◌∙◌, inl, inr, Bool, true, false, Option, none, some,
  List, ◌∷◌, not, ◌&&◌, arith, ◌==◌, ==_self, if◌then◌else◌, Bool-cases, Option-cases, length, has,
  has_of_count, count-insert_at,
}
use treedb.Index.{Index}
use treedb.Branch.{Text, Branches, frame, parent_of, kids, clamp_pos, u16_mod}
use treedb.Branch.Forest.{parent-kid}
use treedb.Branch.Chain.{Up, top, climb}
use treedb.Store.{Store, to_int, fuel_of, branch_index_get}
use treedb.Store.Invariant.{IsStored, record_limit, length-Up_le}
use treedb.Store.Move.{relocate-IsStored}
use treedb.Store.Plant.{with_new}
use treedb.Store.Insert.{plant-IsStored}
use treedb.Map.{before_loop, move_known, move_to, move, insert_to, insert}

-- The walk finds `b` exactly if it is the start or above it.
before_loop_lem :
    {h : Branches} {c : ℕ} {us : List ℕ} (fuel b : ℕ) (n : Bool)
    → Up h c us
    → length us < fuel
    → before_loop fuel h b c n ≡ some (n && not (has b (c ∷ us)))
unfolding before_loop
before_loop_lem zero b n up low = absurd (omega arith)
before_loop_lem (suc fuel) b n (top {b = c} e) low = ground arith
before_loop_lem (suc fuel) b n (climb {b = c} {p} {us} e up) low =
    let rest = before_loop_lem fuel b (if c == b then false else n) up (omega arith) in ground arith

module _ {T : Type 0} ⦃ix : Index T⦄ {s : Store T} {live : ℕ → Bool} (inv : IsStored s live) where
  -- What a request may leave: a well-formed map with the same branches, whose ids, texts and places
  -- in the file are as they were; and the same map if it was refused.
  pub record IsMoveOf (t : Store T) (r : Bool) : Type 0 where
    pub stored : IsStored t live
    pub frames : (x : ℕ) → frame (t.branches x) ≡ frame (s.branches x)
    pub refused : r ≡ false → t ≡ s

  same : IsMoveOf s false
  same = record { stored = inv; frames = λ x. refl; refused = λ e. refl }

  move_known_lem :
      (b opb npb old_parent_id branch_pos : ℕ)
      → live b ≡ true
      → live npb ≡ true
      → parent_of s.branches b ≡ some opb
      → (s.branches npb).child_n + 1 < u16_mod
      → (t : Store T) × (r : Bool) × (move_known s b opb npb old_parent_id branch_pos ≡ some (t, r))
        × IsMoveOf t r
        × (r ≡ true → parent_of t.branches b ≡ some npb)
  unfolding move_known
  move_known_lem b opb npb old_parent_id branch_pos live_b live_npb parent room =
      let (us, up) = inv.forest.shape.chains npb in
      let walk =
        before_loop_lem (fuel_of s) b true up (omega (arith, length-Up_le inv live_npb up)) in
      elim (Bool-cases (has b (npb ∷ us))) [
        | inl cycle ↦ (s, false, rw walk (ground arith), same, λ e. absurd cc)
        | inr apart ↦ elim (Bool-cases ((s.branches opb).id == old_parent_id)) [
          | inr stale ↦ (s, false, rw walk (ground arith), same, λ e. absurd cc)
          | inl known ↦
              let (t, made, stored, parents, frames) =
                relocate-IsStored b opb npb branch_pos us inv live_b live_npb parent up apart
                  (ground arith) in
              (
                t,
                true,
                rw walk (ground (arith, made)),
                record { stored = stored; frames = frames; refused = λ e. absurd cc },
                λ e. ground (arith, parents b, ==_self b),
              )
        ]
      ]

  -- The branches of the two ids, and the new place, if the request is done.
  abbrev pub IsPlaced : Store T → ℕ → ℕ → Type 0
  IsPlaced t branch_id new_parent_id =
      (b npb : ℕ) × (ix.find s.branch_index branch_id ≡ some b)
      × (ix.find s.branch_index new_parent_id ≡ some npb)
      × (parent_of t.branches b ≡ some npb)

  -- On a well-formed map, for any three ids and any place, if the new parent, where the index finds
  -- one, has room for a child: move returns, and the map is well formed with the same branches, ids,
  -- texts and places in the file. If it returns 0, the map is as it was. If it returns 1, the index
  -- found the branch and the new parent, and the branch is now under it.
  pub move-IsMoveOf :
      (new_parent_id old_parent_id branch_id branch_pos : ℕ)
      → ((npb : ℕ)
          → ix.find s.branch_index new_parent_id ≡ some npb
          → (s.branches npb).child_n + 1 < u16_mod)
      → (t : Store T) × (r : Bool) × (move s new_parent_id old_parent_id branch_id branch_pos
          ≡ some (t, r))
        × IsMoveOf t r
        × (r ≡ true → IsPlaced t branch_id new_parent_id)
  unfolding move move_to branch_index_get
  move-IsMoveOf new_parent_id old_parent_id branch_id branch_pos room =
      elim (Option-cases (ix.find s.branch_index branch_id)) [
        | inl missing ↦ (s, false, rw (missing, move) refl, same, λ e. absurd cc)
        | inr (b, found) ↦ elim (Option-cases (parent_of s.branches b)) [
          | inl root ↦ (s, false, rw (found, move) (rw (root, move_to) refl), same, λ e. absurd cc)
          | inr (opb, parent) ↦ elim (Option-cases (ix.find s.branch_index new_parent_id)) [
            | inl nowhere ↦ (
              s,
              false,
              rw (found, move) (rw (parent, nowhere, move_to) refl),
              same,
              λ e. absurd cc,
            )
            | inr (npb, target) ↦
                let (t, r, made, new, placed) =
                  move_known_lem b opb npb old_parent_id branch_pos (inv.sound branch_id b found).0
                    (inv.sound new_parent_id npb target).0 parent (room npb target) in
                (
                  t,
                  r,
                  rw (found, move) (rw (parent, target, move_to) made),
                  new,
                  λ e. (b, npb, found, target, placed e),
                )
          ]
        ]
      ]

  abbrev pub grown : Option ℕ → ℕ → Bool
  grown none = live
  grown (some b) = with_new live b

  -- What insert leaves: a well-formed map, with the new branch if it returns one, and the same map if
  -- it returns none; and a branch is made if the id is free and the parent is there.
  pub record IsInsertOf (t : Store T) (o : Option ℕ) (parent_id id : ℕ) : Type 0 where
    pub stored : IsStored t (grown o)
    pub refused : o ≡ none → t ≡ s
    pub done :
        (pb : ℕ)
        → ix.find s.branch_index id ≡ none
        → ix.find s.branch_index parent_id ≡ some pb
        → (o ≡ some s.next)
          × (ix.find t.branch_index id ≡ some s.next)
          × (parent_of t.branches s.next ≡ some pb)

  insert_refused :
      (parent_id id : ℕ)
      → ((pb : ℕ)
          → ix.find s.branch_index id ≡ none
          → ix.find s.branch_index parent_id ≡ some pb
          → ⊥)
      → IsInsertOf s none parent_id id
  insert_refused parent_id id never = record {
    stored = inv;
    refused = λ e. refl;
    done = λ pb free target. absurd (never pb free target);
  }

  -- On a well-formed map, for any ids, text and place, if the file is below its limit and the parent,
  -- where the index finds one, has room for a child: insert returns, and the map is well formed. If
  -- it returns no branch, the map is as it was. If the id is free and the index finds the parent, it
  -- returns the new branch, which is then under the parent and in the index under its id.
  pub insert-IsInsertOf :
      (parent_id id branch_pos : ℕ) (text : Text) (mark document : ℕ)
      → s.branch_n < record_limit
      → ((pb : ℕ)
          → ix.find s.branch_index parent_id ≡ some pb
          → (s.branches pb).child_n + 1 < u16_mod)
      → (t : Store T) × (o : Option ℕ) × (insert s parent_id id branch_pos text mark document
          ≡ some (t, o))
        × IsInsertOf t o parent_id id
  unfolding insert insert_to branch_index_get
  insert-IsInsertOf parent_id id branch_pos text mark document low room =
      elim (Option-cases (ix.find s.branch_index id)) [
        | inr (nb, taken) ↦ (
          s,
          none,
          rw (taken, insert_to) refl,
          insert_refused parent_id id (λ pb free target. cc),
        )
        | inl free ↦ elim (Option-cases (ix.find s.branch_index parent_id)) [
          | inl missing ↦ (
            s,
            none,
            rw (free, missing, insert_to) refl,
            insert_refused parent_id id (λ pb e target. cc),
          )
          | inr (pb, target) ↦
              let (t, made, stored, array, words, found) =
                plant-IsStored id text mark document pb branch_pos inv
                  (inv.sound parent_id pb target).0 (room pb target) low free in
              (
                t,
                some s.next,
                rw (free, target, insert_to) (rw made refl),
                record {
                  stored = stored;
                  refused = λ e. absurd cc;
                  done = λ q e f. (
                    refl,
                    found,
                    (parent-kid pb s.next stored.forest.shape (
                          ground (
                            arith,
                            array,
                            has_of_count s.next (kids t.branches pb),
                            count-insert_at s.next
                                (clamp_pos (to_int branch_pos) (s.branches pb).child_n) s.next
                                (kids s.branches pb),
                            ==_self s.next,
                          )))
                        ∙ (sym target ∙ f),
                  );
                },
              )
        ]
      ]
