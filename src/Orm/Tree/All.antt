-- ===== src/Orm/Tree/All.antt =====
-- What `SaveAll` of orm/save.go achieves when it returns without error.
use dyndao.Base.{List, map, ℕ, ◌≡◌, refl, sym, ◌∙◌, Option, some, true}
use dyndao.Base.Outcome.{Error, Outcome, ok, err, panic, wrap}
use dyndao.Base.Int.{ℤ}
use dyndao.Object.{Object}
use dyndao.Orm.{Act, Orm, check_ctx, ◌>>=◌, ◌>>◌, pure}
use dyndao.Orm.Post.{Post, bind-Post, weaken-Post}
use dyndao.Orm.Write.Shape.{TreeHooks}
use dyndao.Orm.Tree.{
  Forest, error_text, on_db, rolled_back, or_rollback, recurse_and_save, save_all_inside_tx,
  save_all,
}
use dyndao.Orm.Tree.Shape.{shape_of}
use dyndao.Orm.Tree.Clean.{recurse_and_save-Saved, Saved}
use dyndao.Orm.Tree.Clean.Step.{Below, clean_at}

module _ {S : Type 0} (o : Orm S) where
  -- A call of the database touches no object.
  abbrev SameObjects : {A : Type 0} → Forest S → A → Forest S → Type 0
  SameObjects h a h' = h'.objects ≡ h.objects

module _ {S A : Type 0} (o : Orm S) where
  on_db-Post : (m : Act S A) (h : Forest S) → Post (SameObjects o h) (on_db o m h)
  on_db-Post m h = go (m h.world).0
    where
      go : (r : Outcome A) → Post (SameObjects o h) (r, record h { world = (m h.world).1 })
      go (ok a) = refl
      go (err e) = tt
      go (panic p) = tt

  module _ (Q : A → Forest S → Type 0) (tx : ℕ) where
    -- Nothing is returned after a rollback.
    rolled_back-Post : (e : Error) (h : Forest S) → Post Q (rolled_back o tx e h)
    unfolding rolled_back
    rolled_back-Post e h = go (o.raw_conn.rollback tx h.world)
      where
        go :
            (ran : Outcome (Unit {0}) × S)
            → Post Q (elim ran.0 [
              | ok _ ↦ (err e, record h { world = ran.1 })
              | err e2 ↦ (err (wrap e (error_text e2)), record h { world = ran.1 })
              | panic p ↦ (panic p, record h { world = ran.1 })
            ])
        go (ok a, w) = tt
        go (err e2, w) = tt
        go (panic p, w) = tt

    or_rollback-Post :
        (m : Act (Forest S) A) (h : Forest S) → Post Q (m h) → Post Q (or_rollback o tx m h)
    or_rollback-Post m h holds = go (m h) holds
      where
        go :
            (ran : Outcome A × Forest S)
            → Post Q ran
            → Post Q (elim ran.0 [
              | ok a ↦ (ok a, ran.1)
              | err e ↦ rolled_back o tx e ran.1
              | panic p ↦ (panic p, ran.1)
            ])
        go (ok a, h') held = held
        go (err e, h') held = rolled_back-Post e h'
        go (panic p, h') held = tt

module _ {S : Type 0} (o : Orm S) (hooks : TreeHooks S o) where
  -- What holds of the objects of a forest after the tree at an address is saved
  abbrev pub TreeSaved : ℕ → List Object → List Object → Type 0
  TreeSaved at before after =
      ((x : ℕ) → Below (map (λ obj. obj.children) before) at x → clean_at after x ≡ true)
      × ((x : ℕ) → clean_at before x ≡ true → clean_at after x ≡ true)

  abbrev Done : ℕ → List Object → ℤ → Forest S → Type 0
  Done at before n h' = TreeSaved at before h'.objects

  recurse-Done :
      (fuel : ℕ) (tx : Option ℕ) (at : ℕ) (before : List Object) (h : Forest S)
      → h.objects ≡ before
      → Post (Done at before) (recurse_and_save o fuel tx at h)
  recurse-Done fuel tx at before h same =
      weaken-Post (Done at before) (λ n. Saved o hooks (shape_of h) (λ c. at ≡ c) h)
        (recurse_and_save o fuel tx at h)
        (λ n h' saved.
          let done : TreeSaved at h.objects h'.objects =
            (λ x below. saved.1 at x refl below, saved.0) in
          rw same at done)
        (recurse_and_save-Saved o hooks (shape_of h) fuel tx at h refl)

  inside-Done :
      (fuel tx at : ℕ) (before : List Object) (h : Forest S)
      → h.objects ≡ before
      → Post (Done at before) (save_all_inside_tx o fuel tx at h)
  unfolding save_all_inside_tx
  inside-Done fuel tx at before h here =
      bind-Post (SameObjects o h) (Done at before) (on_db o (check_ctx o))
        (λ u. or_rollback o tx (recurse_and_save o fuel (some tx) at)) h
        (on_db-Post o (check_ctx o) h)
        λ u h1 same.
          or_rollback-Post o (Done at before) tx (recurse_and_save o fuel (some tx) at) h1
            (recurse-Done fuel (some tx) at before h1 (same ∙ here))

  save_all-Done : (fuel at : ℕ) (h : Forest S) → Post (Done at h.objects) (save_all o fuel at h)
  unfolding save_all
  save_all-Done fuel at h =
      let Q = Done at h.objects in
      let committed : ℕ → ℤ → Act (Forest S) ℤ =
        λ tx rows. or_rollback o tx (on_db o (o.raw_conn.commit tx)) >> pure rows in
      let in_tx : ℕ → Act (Forest S) ℤ =
        λ tx. or_rollback o tx (save_all_inside_tx o fuel tx at) >>= committed tx in
      bind-Post (SameObjects o h) Q (on_db o (check_ctx o))
        (λ u. on_db o o.raw_conn.begin_tx >>= in_tx) h (on_db-Post o (check_ctx o) h)
        λ u h1 same1.
          bind-Post (SameObjects o h1) Q (on_db o o.raw_conn.begin_tx) in_tx h1
            (on_db-Post o o.raw_conn.begin_tx h1)
            λ tx h2 same2.
              bind-Post Q Q (or_rollback o tx (save_all_inside_tx o fuel tx at)) (committed tx) h2
                (or_rollback-Post o Q tx (save_all_inside_tx o fuel tx at) h2
                  (inside-Done fuel tx at h.objects h2 (same2 ∙ same1)))
                λ rows h3 done.
                  bind-Post (SameObjects o h3) Q (or_rollback o tx (on_db o (o.raw_conn.commit tx)))
                    (λ v. pure rows) h3
                    (or_rollback-Post o (SameObjects o h3) tx (on_db o (o.raw_conn.commit tx)) h3
                      (on_db-Post o (o.raw_conn.commit tx) h3))
                    (λ v h4 same4. rw (sym same4) at done)

  -- With hooks that keep the children of their object: whenever `SaveAll` returns without error, every
  -- object in the tree, the root and whatever hangs below it at any depth, is clean, an object that is
  -- reached from several parents too, and every object of the heap that was clean before still is.
  pub saved_tree_is_clean :
      (fuel at : ℕ) (h h' : Forest S) (n : ℤ)
      → save_all o fuel at h ≡ (ok n, h')
      → TreeSaved at h.objects h'.objects
  saved_tree_is_clean fuel at h h' n ran = rw ran at (save_all-Done fuel at h)
