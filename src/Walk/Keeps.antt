-- ===== src/Walk/Keeps.antt =====
-- What the walks of src/view.c that add vbranches to a view keep: the tree, the views of the
-- vbranches, and what view_get_vbranch finds.
use treedb.Prelude.{ℕ, ◌+◌, ◌≤◌, ◌<◌, ◌≡◌, refl, ◌∙◌, true, some, arith, has}
use treedb.Index.{Index}
use treedb.Branch.{u32_mod}
use treedb.View.{Vbranches, World}
use treedb.View.Frame.{Fits, SameTree}
use treedb.Walk.{view_get_vbranch}
use treedb.Walk.Find.{find_view-same}

-- The number of vbranches of a branch.
abbrev pub vbranch_n_of : {T : Type 0} → World T → ℕ → ℕ
vbranch_n_of w b = (w.branches b).content.vbranch_n

module _ {T : Type 0} where
  -- The lists of vbranches have the entries that their sizes promise, and hold vbranches that there
  -- are.
  pub record IsSound (w : World T) : Type 0 where
    pub fits : Fits w.branches
    pub inside : (b x : ℕ) → has x (w.branches b).content.vbranch_list ≡ true → x < w.vnext

module _ {T : Type 0} ⦃ix : Index T⦄ where
  -- view_get_vbranch finds a vbranch for the branch `b` in the view `u`.
  abbrev pub Sees : World T → ℕ → ℕ → Type 0
  Sees w u b = (vb : ℕ) × (view_get_vbranch w (some u) b ≡ some (some vb))

  -- From `v` to `w` each branch `b` has got at most `n b` vbranches.
  pub record Keeps (w v : World T) (n : ℕ → ℕ) : Type 0 where
    pub tree : SameTree w.branches v.branches
    pub sound : IsSound w
    pub later : v.vnext ≤ w.vnext
    pub sights : (x : ℕ) → x < v.vnext → (w.vbranches x).view ≡ (v.vbranches x).view
    pub added : (b : ℕ) → vbranch_n_of w b ≤ vbranch_n_of v b + n b
    pub seen : (u b : ℕ) → Sees v u b → Sees w u b

  -- The counters of the vbranches have room for `n b` more.
  abbrev pub Room : World T → (ℕ → ℕ) → Type 0
  Room w n = (b : ℕ) → vbranch_n_of w b + n b < u32_mod

  pub Keeps-refl : (w : World T) → IsSound w → Keeps w w (λ b. 0)
  Keeps-refl w s = record {
    tree = λ x. refl;
    sound = s;
    later = omega arith;
    sights = λ x low. refl;
    added = λ b. omega arith;
    seen = λ u b e. e;
  }

  pub Keeps-trans :
      {u v w : World T} {m n : ℕ → ℕ} → Keeps w v n → Keeps v u m → Keeps w u (λ b. m b + n b)
  Keeps-trans a c = record {
    tree = λ x. a.tree x ∙ c.tree x;
    sound = a.sound;
    later = omega (arith, a.later, c.later);
    sights = λ x low. a.sights x (omega (arith, c.later)) ∙ c.sights x low;
    added = λ b. omega (arith, a.added b, c.added b);
    seen = λ u b e. a.seen u b (c.seen u b e);
  }

  pub Keeps-weaken :
      {w v : World T} {m n : ℕ → ℕ} → ((b : ℕ) → m b ≤ n b) → Keeps w v m → Keeps w v n
  Keeps-weaken low k = record {
    tree = k.tree;
    sound = k.sound;
    later = k.later;
    sights = k.sights;
    added = λ b. omega (arith, k.added b, low b);
    seen = k.seen;
  }

  -- A write to other fields of the vbranches than the view.
  pub Keeps-sights :
      (w : World T) (v : Vbranches)
      → IsSound w
      → ((x : ℕ) → (v x).view ≡ (w.vbranches x).view)
      → Keeps (record w { vbranches = v }) w (λ b. 0)
  unfolding view_get_vbranch
  Keeps-sights w v s same = record {
    tree = λ x. refl;
    sound = record { fits = s.fits; inside = s.inside };
    later = omega arith;
    sights = λ x low. same x;
    added = λ b. omega arith;
    seen = λ u b (vb, e).
        let c = (w.branches b).content in
        (vb, find_view-same w.vbranches v c.vbranch_n c.vbranch_list (some u) (λ x m. same x) ∙ e);
  }
