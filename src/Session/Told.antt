-- ===== src/Session/Told.antt =====
-- update (src/map.c:360): what it writes, and whom it tells.
use treedb.Prelude.{
  append-nil, append_assoc, ℕ, zero, suc, ◌≤◌, ◌≡◌, refl, ap, ◌∙◌, sym, inl, inr, true, Option,
  none, some, List, [], ◌∷◌, ◌++◌, arith, ◌==◌, ==_self, if◌then◌else◌, Bool-cases, Option-cases,
  length, take, has, eq_of_==, subst,
}
use treedb.Codec.Hex.{id2hex32, id2hex64}
use treedb.Codec.Utf8.{utf8len, utf8slice}
use treedb.Codec.Utf8.Slice.{utf8slice_lem}
use treedb.Index.{Index}
use treedb.Branch.{Text, Branch}
use treedb.Branch as Tree
use treedb.Io.{Row, Disk, io_save_branch_data}
use treedb.Store.{branch_index_get}
use treedb.Walk.{same_ptr, not_null, each}
use treedb.Message.{Message, map_update, mark_of}
use treedb.Session.{MapState, view_hexid}
use treedb.Session.Insert.{each_vbranch}
use treedb.Session.Update.{rewritten, send_update, update_found, update}

rewritten-rest :
    (c : Branch) (t : Option Text) (document : ℕ)
    → ((rewritten c t document).content.vbranch_n ≡ c.content.vbranch_n)
      × ((rewritten c t document).content.vbranch_list ≡ c.content.vbranch_list)
      × ((rewritten c t document).id ≡ c.id)
      × ((rewritten c t document).content.note_id ≡ document)
rewritten-rest c none document = (refl, refl, refl, refl)
rewritten-rest c (some t) document = (refl, refl, refl, refl)

update-rewritten :
    (h : Tree.Branches) (b x : ℕ) (t : Option Text) (document : ℕ)
    → Tree.update h b (rewritten (h b) t document) x
      ≡ (if b == x then rewritten (h x) t document else h x)
update-rewritten h b x t document = elim (Bool-cases (b == x)) [
  | inl here ↦ rw here (ap (λ y. rewritten (h y) t document) (eq_of_== b x here))
  | inr there ↦ rw there refl
]

-- The text that a branch with the text `old` has after a request with the text `new`.
abbrev pub IsTextOf : Option Text → Option Text → Text → Type 0
IsTextOf old none t = old ≡ some t
IsTextOf old (some new) t =
    (t ≡ utf8slice new 5000)
    × ((rest : Text) × (t ++ rest ≡ new))
    × (utf8len t ≤ 5000)
    × (length t ≤ 20000)
    × (utf8len new ≤ 5000 → length new ≤ 20000 → t ≡ new)

abbrev pub with_text : Branch → Text → ℕ → Branch
with_text b t document = record b {
  content = record (b.content) { text = some t; note_id = document };
}

rewritten-with_text :
    (c : Branch) (new : Option Text) (document : ℕ)
    → (new ≡ none → (old : Text) × (c.content.text ≡ some old))
    → (t : Text) × (rewritten c new document ≡ with_text c t document)
      × IsTextOf c.content.text new t
rewritten-with_text c none document has_text =
    let (t, e) = has_text refl in
    (t, ap (λ o. record c { content = record (c.content) { text = o; note_id = document } }) e, e)
rewritten-with_text c (some new) document has_text =
    let (prefix, few, short, whole) = utf8slice_lem new 5000 in
    (utf8slice new 5000, refl, (refl, prefix, few, short, whole))

module _ {T : Type 0} where
  -- The message about the branch `b` for a view, if there is one.
  abbrev pub news : MapState T → ℕ → ℕ → Option ℕ → List Message
  news m b branch_id none = []
  news m b branch_id (some u) =
      let c = (m.store.branches b).content in
      map_update (id2hex32 (m.views u).id) (id2hex64 branch_id) c.text (mark_of c.note_id) ∷ []

  -- The messages for the views of the vbranches `l`, but for the view of the client.
  abbrev pub told : MapState T → Option ℕ → ℕ → ℕ → List ℕ → List Message
  told m view b branch_id [] = []
  told m view b branch_id (vb ∷ l) =
      (if same_ptr (m.vbranches vb).view view then [] else news m b branch_id (m.vbranches vb).view)
      ++ told m view b branch_id l

module _ {T : Type 0} ⦃ix : Index T⦄ where
  send_update_lem :
      (m : MapState T) (view : Option ℕ) (b branch_id vb : ℕ)
      → not_null (m.vbranches vb).view ≡ true
      → send_update view b branch_id vb m
        ≡ some (record m {
          out_q =
              m.out_q
              ++ (if same_ptr (m.vbranches vb).view view
                  then []
                  else news m b branch_id (m.vbranches vb).view);
        })
  unfolding send_update view_hexid
  send_update_lem m view b branch_id vb owned =
      elim (Bool-cases (same_ptr (m.vbranches vb).view view)) [
        | inl own ↦
            rw (send_update, own)
              (ap (λ q. some (record m { out_q = q })) (sym (append-nil m.out_q)))
        | inr other ↦ elim (Option-cases (m.vbranches vb).view) [
          | inl lost ↦ absurd (ground arith)
          | inr (u, e) ↦ ground arith
        ]
      ]

  each-told :
      (m : MapState T) (view : Option ℕ) (b branch_id n : ℕ) (l : List ℕ)
      → n ≤ length l
      → ((x : ℕ) → has x l ≡ true → not_null (m.vbranches x).view ≡ true)
      → each (send_update view b branch_id) n l m
        ≡ some (record m { out_q = m.out_q ++ told m view b branch_id (take n l) })
  unfolding each
  each-told m view b branch_id zero l low owned =
      ap (λ q. some (record m { out_q = q })) (sym (append-nil m.out_q))
  each-told m view b branch_id (suc n) [] low owned = absurd (omega arith)
  each-told m view b branch_id (suc n) (vb ∷ l) low owned =
      let one =
        if same_ptr (m.vbranches vb).view view
        then []
        else news m b branch_id (m.vbranches vb).view in
      let m1 : MapState T = record m { out_q = m.out_q ++ one } in
      let rest = each-told m1 view b branch_id n l (omega arith) (λ x h. owned x (ground arith)) in
      rw (each, send_update_lem m view b branch_id vb (owned vb (ground (arith, ==_self vb))))
        (rest
          ∙ ap (λ q. some (record m { out_q = q }))
              (append_assoc m.out_q one (told m view b branch_id (take n l))))

  each_vbranch-list :
      (f : ℕ → MapState T → Option (MapState T)) (b : ℕ) (m : MapState T) (n : ℕ) (l : List ℕ)
      → (m.store.branches b).content.vbranch_n ≡ n
      → (m.store.branches b).content.vbranch_list ≡ l
      → each_vbranch f b m ≡ each f n l m
  unfolding each_vbranch
  each_vbranch-list f b m n l size list = rw (size, list) refl

  update_found_lem :
      (m : MapState T) (view : Option ℕ) (b branch_id : ℕ) (branch_text : Option Text)
      (document : ℕ) {m2 : MapState T} {d : Disk}
      → each_vbranch (send_update view b branch_id) b (record m {
        store = record (m.store) {
          branches =
              Tree.update m.store.branches b (rewritten (m.store.branches b) branch_text document);
        };
      })
        ≡ some m2
      → io_save_branch_data m2.store.branches m2.store.disk b ≡ some d
      → update_found m view b branch_id branch_text document
        ≡ some (record m2 { store = record (m2.store) { disk = d } })
  unfolding update_found
  update_found_lem m view b branch_id branch_text document sent saved = rw (sent, saved) refl

  update-rewritten_cell :
      (m : MapState T) (view : Option ℕ) (branch_id : ℕ) (branch_text : Option Text)
      (mark document b : ℕ) {t : Text}
      → ix.find m.store.branch_index branch_id ≡ some b
      → (m.store.branches b).content.vbranch_n ≤ length (m.store.branches b).content.vbranch_list
      → ((x : ℕ)
          → has x (m.store.branches b).content.vbranch_list ≡ true
          → not_null (m.vbranches x).view ≡ true)
      → (rewritten (m.store.branches b) branch_text document).content.text ≡ some t
      → (m1 : MapState T) × (update m view branch_id branch_text mark document ≡ some (m1, true))
        × ((x : ℕ)
            → m1.store.branches x ≡ (
                if b == x
                then rewritten (m.store.branches x) branch_text document
                else m.store.branches x))
        × (m1.out_q
            ≡ m.out_q
              ++ told m1 view b branch_id (
                  take
                    (m.store.branches b).content.vbranch_n
                    (m.store.branches b).content.vbranch_list))
        × (m1.store.disk.rows
            ≡ m.store.disk.rows
              ++ record { rowid = (m.store.branches b).id; note_id = document; text = t } ∷ [])
        × (m1.vbranches ≡ m.vbranches)
  unfolding update branch_index_get io_save_branch_data
  update-rewritten_cell m view branch_id branch_text mark document b {t} found fit owned text =
      let h = m.store.branches in
      let cell = rewritten (h b) branch_text document in
      let m0 : MapState T = record m {
        store = record (m.store) { branches = Tree.update h b cell };
      } in
      let c = (h b).content in
      let m2 : MapState T = record m0 {
        out_q = m.out_q ++ told m0 view b branch_id (take c.vbranch_n c.vbranch_list);
      } in
      let row : Row = record { rowid = (h b).id; note_id = document; text = t } in
      let d = record (m.store.disk) { rows = m.store.disk.rows ++ row ∷ [] } in
      let self : Tree.update h b cell b ≡ cell = rw (==_self b) refl in
      let kept = rewritten-rest (h b) branch_text document in
      let sent : each_vbranch (send_update view b branch_id) b m0 ≡ some m2 =
        each_vbranch-list (send_update view b branch_id) b m0 c.vbranch_n c.vbranch_list
          (ap (λ (x : Branch). x.content.vbranch_n) self ∙ kept.0)
          (ap (λ (x : Branch). x.content.vbranch_list) self ∙ kept.1)
        ∙ each-told m0 view b branch_id c.vbranch_n c.vbranch_list fit owned in
      let saved : io_save_branch_data m2.store.branches m2.store.disk b ≡ some d =
        rw (==_self b) (ground (arith, text, kept)) in
      (
        record m2 { store = record (m2.store) { disk = d } },
        rw (update, found)
            (rw (update_found_lem m view b branch_id branch_text document sent saved) refl),
        λ x. update-rewritten h b x branch_text document,
        refl,
        refl,
        refl,
      )

  -- Take an id that the index finds, a branch whose list of vbranches has the entries that its size
  -- promises, each of them in a view, and a branch that has a text if the request has none. Then
  -- update returns 1. Of the tree only this branch changes, and in it only the text and the note: the
  -- text is the old one if the request has none, and else what utf8slice gives of the new one, which is
  -- the whole text if it has at most 5000 characters and 20000 bytes, and else its beginning. Every view
  -- that has the branch, but the view of the client, gets one message, with the text and the note
  -- that are then in the branch, behind the messages before; and the table of texts gets the row with
  -- the same text and note. The vbranches stay.
  pub update-told :
      (m : MapState T) (view : Option ℕ) (branch_id : ℕ) (branch_text : Option Text)
      (mark document b : ℕ)
      → ix.find m.store.branch_index branch_id ≡ some b
      → (m.store.branches b).content.vbranch_n ≤ length (m.store.branches b).content.vbranch_list
      → ((x : ℕ)
          → has x (m.store.branches b).content.vbranch_list ≡ true
          → not_null (m.vbranches x).view ≡ true)
      → (branch_text ≡ none → (old : Text) × ((m.store.branches b).content.text ≡ some old))
      → (m1 : MapState T) × (t : Text) × (update m view branch_id branch_text mark document
          ≡ some (m1, true))
        × IsTextOf (m.store.branches b).content.text branch_text t
        × ((x : ℕ)
            → m1.store.branches x
              ≡ (if b == x then with_text (m.store.branches x) t document else m.store.branches x))
        × (m1.out_q
            ≡ m.out_q
              ++ told m1 view b branch_id (
                  take
                    (m.store.branches b).content.vbranch_n
                    (m.store.branches b).content.vbranch_list))
        × (m1.store.disk.rows
            ≡ m.store.disk.rows
              ++ record { rowid = (m.store.branches b).id; note_id = document; text = t } ∷ [])
        × (m1.vbranches ≡ m.vbranches)
  update-told m view branch_id branch_text mark document b found fit owned text =
      let h = m.store.branches in
      let (t, cell, is) = rewritten-with_text (h b) branch_text document text in
      let (m1, made, cells, out, rows, kept) =
        update-rewritten_cell m view branch_id branch_text mark document b found fit owned
          (ap (λ (c : Branch). c.content.text) cell) in
      (
        m1,
        t,
        made,
        is,
        λ x. cells x ∙ elim (Bool-cases (b == x)) [
          | inl here ↦ rw here (
              subst (λ y. rewritten (h y) branch_text document ≡ with_text (h y) t document)
                (eq_of_== b x here) cell)
          | inr there ↦ rw there refl
        ],
        out,
        rows,
        kept,
      )
