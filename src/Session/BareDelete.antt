-- ===== src/Session/BareDelete.antt =====
-- delete (src/map.c:794) where no view shows the map, for a branch without childs.
use treedb.Prelude.{
  append-nil, ℕ, ◌+◌, ◌≡◌, refl, subst, ap, sym, ◌∙◌, inl, inr, Bool, Option, none, some, List, [],
  ◌∷◌, ◌++◌, ◌==◌, if◌then◌else◌, Bool-cases, Option-cases, nil_of_length,
}
use treedb.Codec.Hex.{id2hex64, id2hex32}
use treedb.Index.{Index}
use treedb.Branch.{parent_of}
use treedb.Io.{offset}
use treedb.Message.{Message, map_remove_mark}
use treedb.Store.{Store, branch_index_get, prune}
use treedb.Store.Invariant.{IsStored}
use treedb.Store.Cleared.{without}
use treedb.Store.Prune.{prune-IsStored}
use treedb.Session.{MapState}
use treedb.Session.Bare.{no_views}
use treedb.Session.Delete.{move_childs, delete_one, send_unmark, delete_found, delete}

module _ {T : Type 0} ⦃ix : Index T⦄ where
  -- The one message about a branch with a note.
  abbrev pub unmark_of : MapState T → ℕ → List Message
  unmark_of m b =
      if (m.store.branches b).content.note_id == 0
      then []
      else map_remove_mark (id2hex32 m.id) (id2hex64 (m.store.branches b).content.note_id)
          (id2hex64 (m.store.branches b).id)
        ∷ []

  module _ (m : MapState T) {live : ℕ → Bool} (inv : IsStored m.store live) (branch_id : ℕ) where
    -- What delete leaves: the map as it was, if there is no branch of the id or it is the root, and
    -- else a well-formed map without the branch, after at most one message.
    pub record IsDeleteOf (t : Store T) (q : List Message) : Type 0 where
      pub missing : ix.find m.store.branch_index branch_id ≡ none → (t ≡ m.store) × (q ≡ m.out_q)
      pub kept :
          (b : ℕ)
          → ix.find m.store.branch_index branch_id ≡ some b
          → parent_of m.store.branches b ≡ none
          → (t ≡ m.store) × (q ≡ m.out_q)
      pub gone :
          (b p : ℕ)
          → ix.find m.store.branch_index branch_id ≡ some b
          → parent_of m.store.branches b ≡ some p
          → IsStored t (without live b)
            × (ix.find t.branch_index branch_id ≡ none)
            × ((t.disk.heads (offset m.store.branches b)).id ≡ 0)
            × (q ≡ m.out_q ++ unmark_of m b)

    unmarked : (b : ℕ) → send_unmark m b ≡ record m { out_q = m.out_q ++ unmark_of m b }
    unfolding send_unmark
    unmarked b = elim (Bool-cases ((m.store.branches b).content.note_id == 0)) [
      | inl none_at ↦ rw none_at (ap (λ q. record m { out_q = q }) (sym (append-nil m.out_q)))
      | inr some_at ↦ rw some_at refl
    ]

    no_childs :
        (b : ℕ)
        → (m.store.branches b).child_n ≡ 0
        → move_childs ((m.store.branches b).child_n + 1) 0 b m ≡ some m
    unfolding move_childs
    no_childs b leaf = rw leaf (rw (move_childs, leaf) refl)

    delete_found-bare :
        (view : Option ℕ) (b p : ℕ) {t : Store T}
        → (m.store.branches b).child_n ≡ 0
        → (m.store.branches m.branch).content.vbranch_n ≡ 0
        → prune m.store b ≡ some t
        → delete_found m view b p ≡ some (record m { store = t; out_q = m.out_q ++ unmark_of m b })
    unfolding delete_found
    delete_found-bare view b p {t} leaf empty made =
        let calm = no_views (delete_one view b p) m.branch m empty in
        rw (no_childs b leaf) (rw calm (rw (unmarked b) (rw made refl)))

    -- On a well-formed map whose root is in no view, for any id, whichever view asks, if the branch
    -- of that id, where the index finds one, has no childs: delete returns. Without such a branch, or
    -- where it is the root, nothing changes. Else the map without the branch is well formed, the
    -- index no longer finds the id, the record in the file holds the id 0, and mapRemoveMark goes out
    -- exactly if the branch has a note. The rest of the map is as it was.
    pub delete-IsDeleteOf :
        (view : Option ℕ)
        → (m.store.branches m.branch).content.vbranch_n ≡ 0
        → ((b : ℕ)
            → ix.find m.store.branch_index branch_id ≡ some b
            → (m.store.branches b).child_n ≡ 0)
        → (t : Store T) × (q : List Message) × (delete m view branch_id
            ≡ some (record m { store = t; out_q = q }))
          × IsDeleteOf t q
    unfolding delete branch_index_get
    delete-IsDeleteOf view empty leaf =
        elim (Option-cases (ix.find m.store.branch_index branch_id)) [
          | inl missing ↦ (
            m.store,
            m.out_q,
            rw (delete, missing) refl,
            record {
              missing = λ e. (refl, refl);
              kept = λ b e f. (refl, refl);
              gone = λ b p e f. absurd cc;
            },
          )
          | inr (b, found) ↦ elim (Option-cases (parent_of m.store.branches b)) [
            | inl root ↦ (
              m.store,
              m.out_q,
              rw (delete, found) (rw root refl),
              record {
                missing = λ e. (refl, refl);
                kept = λ c e f. (refl, refl);
                gone = λ c p e f. absurd cc;
              },
            )
            | inr (p, parent) ↦
                let (lb, named) = inv.sound branch_id b found in
                let bare = nil_of_length _ (sym (inv.forest.shape.sized b) ∙ leaf b found) in
                let (t, made, stored, lost, zeroed) = prune-IsStored b p inv lb parent bare in
                (
                  t,
                  m.out_q ++ unmark_of m b,
                  rw (delete, found)
                      (rw parent (delete_found-bare view b p (leaf b found) empty made)),
                  record {
                    missing = λ e. absurd cc;
                    kept = λ c e f. absurd cc;
                    gone = λ c d e f.
                        let same : b ≡ c = cc in
                        subst
                          (λ x.
                            IsStored t (without live x)
                            × (ix.find t.branch_index branch_id ≡ none)
                            × ((t.disk.heads (offset m.store.branches x)).id ≡ 0)
                            × (m.out_q ++ unmark_of m b ≡ m.out_q ++ unmark_of m x))
                          same (stored, rw (sym named) lost, zeroed, refl);
                  },
                )
          ]
        ]
