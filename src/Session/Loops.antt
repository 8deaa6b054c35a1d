-- ===== src/Session/Loops.antt =====
-- The two loops of insert (src/map.c:191) after the change of the tree: what they leave.
use treedb.Prelude.{
  ℕ, ◌≤◌, ◌<◌, ◌≡◌, refl, ap, ◌∙◌, sym, subst, Bool, true, false, Option, none, some, List, ◌++◌,
  arith, take, has, count, append_assoc,
}
use treedb.Index.{Index}
use treedb.Branch.{Text, kids, parent_of}
use treedb.Branch.Arrays.{index_of}
use treedb.Branch.Chain.{Up, Up-same}
use treedb.Store.{Store, allocate}
use treedb.Store.Invariant.{IsStored, length-Up_le}
use treedb.Store.Plant.{with_new, live_old}
use treedb.Message.{Message}
use treedb.View.Frame.{SameTree}
use treedb.View.Stored.{IsStored-SameTree}
use treedb.Session.{MapState}
use treedb.Session.Adds.{leaf, passed, Spreads, Spreads-later, IsIndexed, all_news, Adds}
use treedb.Session.Spread.{IsReady}
use treedb.Session.Rounds.{spread_loop}
use treedb.Session.Climb.{shown_as}
use treedb.Session.Counting.{IsCountable, all_counts, count_loop}
use treedb.Session.Viewed.{IsViewed, IsPlanted, Fits-plant, shown_eq}
use treedb.Session.Insert.{each_vbranch, spread_one, count_one}

module _ {T : Type 0} ⦃ix : Index T⦄ where
  module _ (m : MapState T) (view : Option ℕ) (parent_id branch_pos pb : ℕ) where
    -- The messages to the views that show the childs of the parent, of the new branch in the tree `t`.
    abbrev pub insert_messages : Store T → List Message
    insert_messages t =
        all_news view parent_id branch_pos (leaf (t.branches m.store.next)) (λ u. (m.views u).id)
          m.vbranches (shown_as m pb)

    -- What insert leaves, where the tree with its index and files is `t`.
    pub record IsSpread (live : ℕ → Bool) (t : Store T) (m1 : MapState T) : Type 0 where
      pub tree : SameTree m1.store.branches t.branches
      pub store : record (m1.store) { branches = t.branches } ≡ t
      pub stored : IsStored m1.store (with_new live m.store.next)
      pub root : m1.branch ≡ m.branch
      pub spread :
          (x : ℕ)
          → has x (shown_as m pb) ≡ true
          → Spreads m.store.next
              (index_of m.store.next (kids t.branches pb))
              m.vnext
              (passed view (m.vbranches x))
              x
              (m.vbranches x)
              m1
      pub others :
          (x : ℕ) → x < m.vnext → has x (shown_as m pb) ≡ false → m1.vbranches x ≡ m.vbranches x
      pub indexed :
          (x : ℕ)
          → has x (shown_as m pb) ≡ true
          → passed view (m.vbranches x) ≡ false
          → (u : ℕ) → (m.vbranches x).view ≡ some u
          → IsIndexed m.store.next m.vnext m1 u
      -- The ancestors of the parent, the nearest first.
      pub above : List ℕ
      pub chain : Up t.branches pb above
      pub sent :
          m1.out_q
          ≡ m.out_q ++ (insert_messages t ++ all_counts m1 view pb above (shown_as m m.branch))

    module _ {live : ℕ → Bool} (inv : IsStored m.store live) (seen : IsViewed m live) (id : ℕ)
        (text : Text) (mark document : ℕ) (t : Store T) (here : live pb ≡ true)
        (here_root : live m.branch ≡ true)
        (only : parent_of m.store.branches pb ≡ none → pb ≡ m.branch)
        (is : IsPlanted m.store t (allocate m.store id text mark document) pb)
        (stored : IsStored t (with_new live m.store.next))
        (up : parent_of t.branches m.store.next ≡ some pb) where
      ready :
          IsReady view m.store.next pb parent_id branch_pos
            (index_of m.store.next (kids t.branches pb))
            m.vnext
            (leaf (t.branches m.store.next))
            (λ u. (m.views u).id)
            (record m { store = t })
      ready = record {
        shape = stored.forest.shape;
        parent = up;
        fits = Fits-plant m inv seen id branch_pos text mark document t pb here is;
        at = refl;
        shown = refl;
        ids = λ u. refl;
        later = omega arith;
      }

      listed :
          (m2 : MapState T)
          → Adds m2 (record m { store = t }) m.store.next
          → (b : ℕ) → live b ≡ true
          → take (m2.store.branches b).content.vbranch_n (m2.store.branches b).content.vbranch_list
            ≡ shown_as m b
      listed m2 adds b lb =
          let (list, n) = adds.lists b (live_old inv id text mark document b lb) in
          (ap (λ k. take k (m2.store.branches b).content.vbranch_list) n
            ∙ ap (take (t.branches b).content.vbranch_n) list)
          ∙ shown_eq m inv seen id branch_pos text mark document t pb here is b lb

      countable :
          (m2 : MapState T)
          → Adds m2 (record m { store = t }) m.store.next
          → IsReady view m.store.next pb parent_id branch_pos
              (index_of m.store.next (kids t.branches pb))
              m.vnext
              (leaf (t.branches m.store.next))
              (λ u. (m.views u).id)
              m2
          → IsCountable m2 pb
      countable m2 adds k =
          let (us, chain) = stored.forest.shape.chains pb in
          let next = ap (λ (s : Store T). s.next) adds.store in
          record {
            fits = k.fits;
            ups = us;
            chain = Up-same (λ x. ap (λ t. t.2) (adds.tree x)) chain;
            short = omega (arith, next, length-Up_le stored (ground (arith, here)) chain);
            top = λ e.
                let old = live_old inv id text mark document pb here in
                let alone : parent_of m.store.branches pb ≡ none =
                  ground (arith, old, is.parents pb, e, ap (λ t. t.2) (adds.tree pb)) in
                only alone ∙ sym adds.root;
            over = λ x h.
                let h0 = ap (has x) (sym (listed m2 adds pb here)) ∙ h in
                (adds.sights x (seen.owners pb x here h0).low).1 ∙ seen.over pb x here h0;
            owned = λ x h.
                let h0 =
                  ap (has x) (sym (listed m2 adds m.branch here_root))
                  ∙ (ap (λ b. has x (shown_as m2 b)) (sym adds.root) ∙ h) in
                let o = seen.owners m.branch x here_root h0 in
                (o.of, (adds.sights x o.low).0 ∙ o.of_view);
          }

      pub loops :
          (m2 : MapState T) × (m3 : MapState T) × (each_vbranch
              (spread_one view m.store.next parent_id branch_pos)
              pb
              (record m { store = t })
            ≡ some m2)
          × (each_vbranch (count_one view pb) m2.branch m2 ≡ some m3)
          × IsSpread live t m3
      unfolding each_vbranch
      loops =
          let m1 : MapState T = record m { store = t } in
          let c = (t.branches pb).content in
          let list = shown_eq m inv seen id branch_pos text mark document t pb here is pb here in
          let back = λ (x : ℕ) (h : has x (take c.vbranch_n c.vbranch_list) ≡ true).
            ap (has x) (sym list) ∙ h in
          let (m2, made, adds, k, spread, others, news, kept, indexed) =
            spread_loop view m.store.next pb parent_id branch_pos
              (index_of m.store.next (kids t.branches pb)) m.vnext (leaf (t.branches m.store.next))
              (λ u. (m.views u).id) m.vbranches c.vbranch_n c.vbranch_list m1 (ready.fits pb) ready
              (λ x h. seen.owners pb x here (back x h)) (λ x h. refl)
              (λ x. subst (λ l. count x l ≤ 1) (sym list) (seen.once pb x here)) in
          let d = (m2.store.branches m2.branch).content in
          let able = countable m2 adds k in
          let told =
            count_loop view pb d.vbranch_n d.vbranch_list m2 (k.fits m2.branch) able (λ x h. h) in
          let counts = all_counts m2 view pb able.ups (shown_as m m.branch) in
          let listed_root : take d.vbranch_n d.vbranch_list ≡ shown_as m m.branch =
            ap (shown_as m2) adds.root ∙ listed m2 adds m.branch here_root in
          let m3 : MapState T = record m2 { out_q = m2.out_q ++ counts } in
          (
            m2,
            m3,
            made,
            told
                ∙ ap
                    (λ l. some (record m2 { out_q = m2.out_q ++ all_counts m2 view pb able.ups l }))
                    listed_root,
            record {
              tree = adds.tree;
              store = adds.store;
              stored =
                  subst (λ s. IsStored s (with_new live m.store.next))
                    (sym
                      (ap (λ (s : Store T). record s { branches = m2.store.branches }) adds.store))
                    (IsStored-SameTree m2.store.branches adds.tree stored);
              root = adds.root;
              spread = λ x h.
                  Spreads-later m.store.next (index_of m.store.next (kids t.branches pb)) m.vnext
                    (passed view (m.vbranches x)) x (m.vbranches x) m2 m3 (omega arith)
                    (omega (arith, adds.later, (seen.owners pb x here h).low)) (λ z low e. refl)
                    (spread x (ap (has x) list ∙ h));
              others = λ x low h. others x low (ap (has x) list ∙ h);
              indexed = λ x h told u e. indexed x (ap (has x) list ∙ h) told u e;
              above = able.ups;
              chain = Up-same (λ x. sym (ap (λ b. b.2) (adds.tree x))) able.chain;
              sent =
                  ap (λ q. q ++ counts)
                    (news
                      ∙ ap
                          (λ l.
                            m.out_q
                            ++ all_news view parent_id branch_pos (leaf (t.branches m.store.next))
                                (λ u. (m.views u).id) m.vbranches l)
                          list)
                  ∙ append_assoc m.out_q (insert_messages t) counts;
            },
          )
