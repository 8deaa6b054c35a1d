-- ===== src/Map/Runs.antt =====
-- Sequences of insert and move (src/map.c) on a map that map_create_empty made.
use treedb.Prelude.{
  ℕ, ◌+◌, ◌<◌, ◌≡◌, refl, ◌∙◌, sym, Bool, Option, some, List, false, ◌>>=◌, ◌==◌, subst,
}
use treedb.Index.{Index}
use treedb.Branch.{Text, u16_mod}
use treedb.Io.{Bhead, Row}
use treedb.Store.{Store}
use treedb.Store.Invariant.{IsStored, record_limit}
use treedb.Load.{calloc_map, create_empty}
use treedb.Load.Fresh.{create_empty-IsStored}
use treedb.Map.{insert, move}
use treedb.Map.Requests.{grown, move-IsMoveOf, insert-IsInsertOf}

-- What a client may ask for, with the arguments of insert and of move.
pub data Request : Type 0 where
  to_insert : ℕ → ℕ → ℕ → Text → ℕ → ℕ → Request
  to_move : ℕ → ℕ → ℕ → ℕ → Request

module _ {T : Type 0} ⦃ix : Index T⦄ where
  unfoldable pub run : Store T → Request → Option (Store T)
  unfolding insert move
  run s (to_insert parent_id id at text mark document) =
      insert s parent_id id at text mark document >>= λ r. some (r.0)
  run s (to_move new_parent_id old_parent_id id at) =
      move s new_parent_id old_parent_id id at >>= λ r. some (r.0)

  -- The parent, where the index finds one, has room for a child.
  abbrev pub HasRoom : Store T → ℕ → Type 0
  HasRoom s id = (b : ℕ) → ix.find s.branch_index id ≡ some b → (s.branches b).child_n + 1 < u16_mod

  -- The new parent has room for a child, and the file for a record.
  abbrev pub Fits : Store T → Request → Type 0
  Fits s (to_insert parent_id id at text mark document) =
      HasRoom s parent_id × (s.branch_n < record_limit)
  Fits s (to_move new_parent_id old_parent_id id at) = HasRoom s new_parent_id

  -- The maps that come of a new one by requests that fit.
  pub data IsReached : Store T → Type 0 where
    created :
        (heads : ℕ → Bhead) (rows : List Row) {s : Store T} (root : ℕ)
        → create_empty (calloc_map (record { test = false; heads = heads; rows = rows }))
          ≡ some (s, root)
        → IsReached s
    asked : {s t : Store T} (r : Request) → IsReached s → Fits s r → run s r ≡ some t → IsReached t

  -- A request that fits returns, and leaves a well-formed map.
  run-IsStored :
      {s : Store T} {live : ℕ → Bool} (r : Request)
      → IsStored s live
      → Fits s r
      → (t : Store T) × (after : ℕ → Bool) × (run s r ≡ some t) × IsStored t after
  unfolding run
  run-IsStored {live} (to_insert parent_id id at text mark document) inv (room, low) =
      let (t, o, made, is) = insert-IsInsertOf inv parent_id id at text mark document low room in
      (t, grown inv o, rw made refl, is.stored)
  run-IsStored {live} (to_move new_parent_id old_parent_id id at) inv room =
      let (t, r, made, is, placed) = move-IsMoveOf inv new_parent_id old_parent_id id at room in
      (t, live, rw made refl, is.stored)

  stored_as : {s t : Store T} {live : ℕ → Bool} → s ≡ t → IsStored s live → IsStored t live
  stored_as {live} e inv = subst (λ x. IsStored x live) e inv

  -- Every map that map_create_empty and any sequence of inserts and moves lead to, with whatever ids,
  -- texts and places the requests have, is well formed, as long as no parent gets 65535 childs and
  -- the file stays below its limit; and each further request that fits returns, with such a map.
  pub IsReached-IsStored :
      (s : Store T)
      → IsReached s
      → (live : ℕ → Bool) × IsStored s live
        × ((r : Request) → Fits s r → (t : Store T) × (run s r ≡ some t) × IsReached t)
  IsReached-IsStored s reached =
      let (live, inv) = invariant reached in
      (
        live,
        inv,
        λ r fits.
            let (t, after, made, stored) = run-IsStored r inv fits in
            (t, made, asked r reached fits made),
      )
    where
      some_eq : {a b : Store T} → some a ≡ some b → a ≡ b
      some_eq e = cc

      invariant : {s : Store T} → IsReached s → (live : ℕ → Bool) × IsStored s live
      invariant {s} (created heads rows root e) =
          let (t, made, inv, found, childs, size) = create_empty-IsStored heads rows in
          let same : t ≡ s = cc in (λ x. x == 0, stored_as same inv)
      invariant (asked r before fits e) =
          let (live, inv) = invariant before in
          let (t, after, made, stored) = run-IsStored r inv fits in
          (after, stored_as (some_eq (sym made ∙ e)) stored)
