-- ===== src/Orm/Load/Loaded.antt =====
-- What a retrieval (orm/load.go) returns and leaves behind.
use dyndao.Base.{
  ℕ, eqb, length, String, Bool, true, not, ◌&&◌, Option, none, some, List, [], ◌∷◌, ◌≡◌, refl,
  arith,
}
use dyndao.Base.Map.{Map}
use dyndao.Base.Outcome.{Error, Outcome, ok, err, panic}
use dyndao.Value.{Value}
use dyndao.Object.{Object, is_dirty, mark_dirty, reset_changed_columns}
use dyndao.SqlGen.{ColumnType, Dest}
use dyndao.Orm.{Orm, check_ctx, stmt_from_db_or_tx}
use dyndao.Orm.Handles.{Counts}
use dyndao.Orm.Load.{
  retrieve_many, retrieve_many_core, retrieve_many_from_custom_sql, run_query, read_rows,
  read_result,
}

-- Every object that is returned is clean, with none of its columns recorded as changed.
abbrev pub all_clean : List Object → Bool
all_clean [] = true
all_clean (obj ∷ objs) =
    (not (is_dirty obj) && eqb 0 (length obj.changed_columns)) && all_clean objs

abbrev pub gives_clean : Outcome (List Object) → Bool
gives_clean (ok objs) = all_clean objs
gives_clean (err e) = true
gives_clean (panic p) = true

module _ {S : Type 0} (o : Orm S) where
  more_rows-clean :
      (table : String) (names : List String) (types : List ColumnType) (pointers : List Dest)
      (scan : List Dest → Outcome (List Dest)) (scans : List (List Dest → Outcome (List Dest)))
      (end_err : Option Error)
      → ((filled : List Dest)
          → gives_clean (read_rows o table names types filled scans end_err) ≡ true)
      → gives_clean (read_rows o table names types pointers (scan ∷ scans) end_err) ≡ true
  unfolding read_rows is_dirty mark_dirty reset_changed_columns
  more_rows-clean table names types pointers scan scans end_err rest = grind (arith, rest)

  read_rows-clean :
      (table : String) (names : List String) (types : List ColumnType) (pointers : List Dest)
      (scans : List (List Dest → Outcome (List Dest))) (end_err : Option Error)
      → gives_clean (read_rows o table names types pointers scans end_err) ≡ true
  unfolding read_rows
  read_rows-clean table names types pointers [] none = refl
  read_rows-clean table names types pointers [] (some e) = refl
  read_rows-clean table names types pointers (scan ∷ scans) end_err =
      more_rows-clean table names types pointers scan scans end_err
        λ filled. read_rows-clean table names types filled scans end_err

  run_query-clean :
      (table : String) (names : List String) (args : List Value) (stmt : ℕ) (w : S)
      → gives_clean (run_query o table names args stmt w).0 ≡ true
  unfolding run_query read_result
  run_query-clean table names args stmt w = grind (arith, read_rows-clean)

  many-clean :
      (tx : Option ℕ) (table : String) (query : Map Value) (w : S)
      → gives_clean (retrieve_many_core o tx table query w).0 ≡ true
  unfolding retrieve_many_core check_ctx stmt_from_db_or_tx
  many-clean tx table query w = grind (arith, run_query-clean)

  custom-clean :
      (table sql : String) (names : List String) (args : List Value) (w : S)
      → gives_clean (retrieve_many_from_custom_sql o table sql names args w).0 ≡ true
  unfolding retrieve_many_from_custom_sql check_ctx
  custom-clean table sql names args w = grind (arith, run_query-clean)

  -- Every object that `RetrieveMany` or `RetrieveManyFromCustomSQL` returns is clean, and none of its
  -- columns is recorded as changed.
  pub retrieved_are_clean :
      (table sql : String) (names : List String) (args : List Value) (query : Map Value) (w : S)
      → (gives_clean (retrieve_many o table query w).0 ≡ true)
        × (gives_clean (retrieve_many_from_custom_sql o table sql names args w).0 ≡ true)
  unfolding retrieve_many
  retrieved_are_clean table sql names args query w =
      (many-clean none table query w, custom-clean table sql names args w)

module _ {S : Type 0} (o : Orm S) (open_stmts : S → ℕ) (counts : Counts o.raw_conn open_stmts) where
  -- With a driver that counts its open statements, `RetrieveMany`, inside a transaction too, and
  -- `RetrieveManyFromCustomSQL` leave as many statements open as there were, however they end.
  pub retrieves_close_statements :
      (tx : Option ℕ) (table sql : String) (names : List String) (args : List Value)
      (query : Map Value) (w : S)
      → (open_stmts (retrieve_many_core o tx table query w).1 ≡ open_stmts w)
        × (open_stmts (retrieve_many_from_custom_sql o table sql names args w).1 ≡ open_stmts w)
  unfolding retrieve_many_core retrieve_many_from_custom_sql check_ctx stmt_from_db_or_tx run_query
  retrieves_close_statements tx table sql names args query w = (
    grind (
      arith, counts.count_query, counts.count_prepare, counts.count_close, counts.count_close_rows,
    ),
    grind (
      arith, counts.count_query, counts.count_prepare, counts.count_close, counts.count_close_rows,
    ),
  )
