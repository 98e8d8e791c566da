-- ===== src/Orm/Tree/Handles.antt =====
-- The statements that saving a tree (orm/save.go) opens are closed again.
use dyndao.Base.{ℕ, ◌≡◌, ◌≤◌, arith, Option, some}
use dyndao.Base.Outcome.{Error, Outcome, ok, err, panic}
use dyndao.Base.Int.{ℤ}
use dyndao.Schema.{Table}
use dyndao.Value.{Value}
use dyndao.Orm.{Act, Database, Orm, check_ctx, proceed, ◌>>=◌, ◌>>◌, pure}
use dyndao.Orm.Handles.{Counts}
use dyndao.Orm.Keeps.{Keeps}
use dyndao.Orm.Save.{save}
use dyndao.Orm.Save.Keeps.{save-Keeps}
use dyndao.Orm.Write.Handles.{KeepsCount, open_of, live-open, insert-open, update-open}
use dyndao.Orm.Tree.{
  Forest, on_db, on_object, propagate, rolled_back, or_rollback, recurse_and_save,
  save_all_inside_tx, save_all,
}
use dyndao.Orm.Tree.Keeps.{recurse_and_save-Keeps}

-- A driver whose transactions open no statement; their end may close some.
pub record CountsTx {S : Type 0} (db : Database S) (open_stmts : S → ℕ) : Type 0 where
  pub count_begin : (w : S) → open_stmts (db.begin_tx w).1 ≡ open_stmts w
  pub count_commit : (tx : ℕ) (w : S) → open_stmts (db.commit tx w).1 ≤ open_stmts w
  pub count_rollback : (tx : ℕ) (w : S) → open_stmts (db.rollback tx w).1 ≤ open_stmts w

-- The action leaves no more of it than there was.
abbrev NoMore : {S A : Type 0} → (S → ℕ) → Act S A → Type 0
NoMore {S} part m = (s : S) → part (m s).1 ≤ part s

module _ {S A B : Type 0} (part : S → ℕ) where
  proceed-NoMore :
      (r : Outcome A) (k : A → Act S B) (s : S)
      → ((a : A) → NoMore part (k a))
      → part (proceed r k s).1 ≤ part s
  proceed-NoMore (ok a) k s rest = rest a s
  proceed-NoMore (err e) k s rest = omega arith
  proceed-NoMore (panic p) k s rest = omega arith

  bind-NoMore :
      (m : Act S A) (k : A → Act S B)
      → NoMore part m
      → ((a : A) → NoMore part (k a))
      → NoMore part (m >>= k)
  bind-NoMore m k first rest s = omega (arith, first s, proceed-NoMore (m s).0 k (m s).1 rest)

-- Hooks that leave no statement open
pub record HooksClose {S : Type 0} (o : Orm S) (open_stmts : S → ℕ)
    (counts : Counts o.raw_conn open_stmts) : Type 0 where
  pub before_create : KeepsCount o open_stmts counts o.before_create_hooks
  pub after_create : KeepsCount o open_stmts counts o.after_create_hooks
  pub before_update : KeepsCount o open_stmts counts o.before_update_hooks
  pub after_update : KeepsCount o open_stmts counts o.after_update_hooks

module _ {S : Type 0} (o : Orm S) (open_stmts : S → ℕ) (counts : Counts o.raw_conn open_stmts)
    (hooks : HooksClose o open_stmts counts) (txs : CountsTx o.raw_conn open_stmts) where
  abbrev open_in : Forest S → ℕ
  open_in h = open_stmts h.world

  save-open : (tx : Option ℕ) → Keeps (open_of o open_stmts counts) (save o tx)
  save-open tx =
      save-Keeps o (open_of o open_stmts counts) tx (live-open o open_stmts counts)
        (insert-open o open_stmts counts tx hooks.before_create hooks.after_create)
        (update-open o open_stmts counts tx hooks.before_update hooks.after_update)

  on_object-open : (tx : Option ℕ) (at : ℕ) → Keeps open_in (on_object o at (save o tx))
  unfolding on_object
  on_object-open tx at h = grind (arith, save-open)

  propagate-open : (t : Table) (v : Value) (at : ℕ) → Keeps open_in (propagate o t v at)
  unfolding propagate
  propagate-open t v at h = grind arith

  recurse-open : (fuel : ℕ) (tx : Option ℕ) (at : ℕ) → Keeps open_in (recurse_and_save o fuel tx at)
  recurse-open = recurse_and_save-Keeps o open_in propagate-open on_object-open

  check_ctx-open : Keeps open_stmts (check_ctx o)
  unfolding check_ctx
  check_ctx-open w = ground arith

  rolled_back-open : (A : Type 0) (tx : ℕ) (e : Error) → NoMore {A = A} open_in (rolled_back o tx e)
  unfolding rolled_back
  rolled_back-open A tx e h = ground (arith, txs.count_rollback tx h.world)

  or_rollback-open :
      {A : Type 0} (tx : ℕ) (m : Act (Forest S) A)
      → NoMore open_in m
      → NoMore open_in (or_rollback o tx m)
  or_rollback-open {A} tx m keeps h = go (m h) (keeps h)
    where
      go :
          (ran : Outcome A × Forest S)
          → open_in ran.1 ≤ open_in h
          → open_in
              (elim ran.0 as (λ r. Outcome A × Forest S) [
                | ok a ↦ (ok a, ran.1)
                | err e ↦ rolled_back o tx e ran.1
                | panic p ↦ (panic p, ran.1)
              ]).1
            ≤ open_in h
      go (ok a, h') kept = kept
      go (err e, h') kept = omega (arith, rolled_back-open A tx e h', kept)
      go (panic p, h') kept = kept

  inside-open : (fuel tx at : ℕ) → NoMore open_in (save_all_inside_tx o fuel tx at)
  unfolding save_all_inside_tx
  inside-open fuel tx at =
      bind-NoMore open_in (on_db o (check_ctx o))
        (λ u. or_rollback o tx (recurse_and_save o fuel (some tx) at))
        (λ h. omega (arith, check_ctx-open h.world))
        (λ u.
          or_rollback-open tx (recurse_and_save o fuel (some tx) at)
            (λ h. omega (arith, recurse-open fuel (some tx) at h)))

  all-open : (fuel at : ℕ) → NoMore open_in (save_all o fuel at)
  unfolding save_all
  all-open fuel at =
      let committed : ℕ → ℤ → Act (Forest S) ℤ =
        λ tx rows. or_rollback o tx (on_db o (o.raw_conn.commit tx)) >> pure rows in
      let in_tx : ℕ → Act (Forest S) ℤ =
        λ tx. or_rollback o tx (save_all_inside_tx o fuel tx at) >>= committed tx in
      bind-NoMore open_in (on_db o (check_ctx o)) (λ u. on_db o o.raw_conn.begin_tx >>= in_tx)
        (λ h. omega (arith, check_ctx-open h.world))
        λ u.
          bind-NoMore open_in (on_db o o.raw_conn.begin_tx) in_tx
            (λ h. omega (arith, txs.count_begin h.world))
            λ tx.
              bind-NoMore open_in (or_rollback o tx (save_all_inside_tx o fuel tx at))
                (committed tx)
                (or_rollback-open tx (save_all_inside_tx o fuel tx at) (inside-open fuel tx at))
                λ rows.
                  bind-NoMore open_in (or_rollback o tx (on_db o (o.raw_conn.commit tx)))
                    (λ v. pure rows)
                    (or_rollback-open tx (on_db o (o.raw_conn.commit tx))
                      (λ h. txs.count_commit tx h.world))
                    (λ v h. omega arith)

  -- With hooks that leave no statement open, however many objects the tree has and however it ends:
  -- the recursion of `SaveAll` leaves exactly as many statements open as there were, so that its own
  -- are closed before the transaction ends. With a driver whose transactions open no statement,
  -- whether their end closes some or not, `SaveAll` as a whole leaves no more open than there were.
  pub save_all_closes_statements :
      (fuel at : ℕ) (tx : Option ℕ) (h : Forest S)
      → (open_stmts (recurse_and_save o fuel tx at h).1.world ≡ open_stmts h.world)
        × (open_stmts (save_all o fuel at h).1.world ≤ open_stmts h.world)
  save_all_closes_statements fuel at tx h = (recurse-open fuel tx at h, all-open fuel at h)
