-- ===== src/Load/Fresh.antt =====
-- map_create_empty (src/map.c:1705): the map that it leaves is well formed.
use treedb.Prelude.{
  ℕ, ◌≡◌, refl, sym, subst, inl, inr, true, false, none, some, List, [], ◌∷◌, ◌++◌, arith, ◌==◌,
  if◌then◌else◌, Bool-cases, eq_of_==,
}
use treedb.Index.{Index}
use treedb.Branch.{Branches, kids, update, branch_increase, increase_loop}
use treedb.Branch.Chain.{top}
use treedb.Branch.Forest.{IsForest}
use treedb.Io.{Bhead, Row, offset, head_of, io_save_branch_head, io_save_branch_data, io_branch_new}
use treedb.Io.Heads.{head_at}
use treedb.Store.{Store, new_branch, branch_index_put}
use treedb.Store.Invariant.{IsStored}
use treedb.Load.{my_map, blank_branch, calloc_map, new_root, branch_calculate, create_empty}

abbrev root_alone : Branches
root_alone = update (λ x. blank_branch) 0 (new_branch 0 1 my_map 0)

root-IsForest : IsForest root_alone
root-IsForest = record {
  shape = record {
    linked = λ q c. ground arith;
    sized = λ q. ground arith;
    small = λ q. ground arith;
    chains = λ b. ([], top (ground arith));
  };
  counted = record { bounded = λ q. ground arith; counts = λ q. ground arith };
}

module _ (T : Type 0) ⦃ix : Index T⦄ where
  found : (k : ℕ) → ix.find (ix.replace ix.create 1 0) k ≡ (if 1 == k then some 0 else none)
  found k = ground (arith, ix.find-replace ix.create 1 0 k, ix.find-create k)

  root_sound :
      (k b : ℕ)
      → ix.find (ix.replace ix.create 1 0) k ≡ some b
      → ((b == 0) ≡ true) × ((root_alone b).id ≡ k)
  root_sound k b e = elim (Bool-cases (1 == k)) [
    | inl here ↦
        let at : b ≡ 0 = ground (arith, found k) in
        (ground arith, ground (arith, eq_of_== 1 k here))
    | inr other ↦ absurd (ground (arith, found k))
  ]

module _ {T : Type 0} ⦃ix : Index T⦄ (heads : ℕ → Bhead) (rows : List Row) where
  abbrev start : Store T
  start = calloc_map (record { test = false; heads = heads; rows = rows })

  -- The map that is made.
  abbrev fresh : Store T
  fresh = record {
    branches = root_alone;
    branch_index = ix.replace ix.create 1 0;
    branch_n = 1;
    disk = record {
      test = false;
      heads = update heads 0 (record { id = 1; parent_id = 0; place = 0; child_n = 0 });
      rows = rows ++ record { rowid = 1; note_id = 0; text = my_map } ∷ [];
    };
    next = 1;
  }

  create_empty-fresh : create_empty start ≡ some (fresh, 0)
  unfolding create_empty new_root branch_index_put branch_calculate branch_increase increase_loop
      io_branch_new io_save_branch_head io_save_branch_data head_of offset
  create_empty-fresh = refl

  -- In a map that calloc made, with a file: map_create_empty returns, and the map is well formed. Its
  -- only branch is the root, with the id 1 and no childs, which the index has and the file holds.
  pub create_empty-IsStored :
      (t : Store T) × (create_empty start ≡ some (t, 0))
      × IsStored t (λ x. x == 0)
      × (ix.find t.branch_index 1 ≡ some 0)
      × (kids t.branches 0 ≡ [])
      × (t.branch_n ≡ 1)
  unfolding offset
  create_empty-IsStored = (
    fresh,
    create_empty-fresh,
    record {
      forest = root-IsForest;
      in_use = λ x m. ground arith;
      unborn = λ x old. record {
        alone = ground arith;
        childless = ground arith;
        no_childs = ground arith;
        no_total = ground arith;
      };
      lineage = λ x p e. ground arith;
      sound = root_sound T;
      complete = λ b m. ground (arith, found T 1, eq_of_== b 0 m);
      placed = λ b m. ground arith;
      apart = λ a b la lb e. ground arith;
      limited = omega arith;
      on = refl;
      filed = λ b m.
          subst (λ x. fresh.disk.heads (offset fresh.branches x) ≡ head_at fresh.branches x)
            (sym (eq_of_== b 0 m)) refl;
    },
    found T 1,
    refl,
    refl,
  )
