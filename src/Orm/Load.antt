-- ===== src/Orm/Load.antt =====
pub mod Loaded
pub mod Typed
pub mod NullLob
-- orm/load.go: retrieval. A method returns the objects that it made; `tx` is none for RawConn.
use dyndao.Base.{
  ℕ, zero, suc, String, ◌<>◌, Bool, true, false, not, ◌||◌, Option, none, some, List, [], ◌∷◌, ◌++◌,
  length, ◌==◌, if◌then◌else◌, or_else,
}
use dyndao.Base.Map.{Map, lookup, insert, keys, entries}
use dyndao.Base.Outcome
use dyndao.Base.Outcome.{Error, Outcome, ok, err, panic, message}
use dyndao.Value.{Value, nil}
use dyndao.Schema.{Column, Table, Schema, ChildTable, get_table, get_column_name}
use dyndao.Object as Object
use dyndao.Object.{Object, get, mark_dirty, reset_changed_columns}
use dyndao.SqlGen.{ColumnType, Dest}
use dyndao.Core.Statements.{binding_retrieve}
use dyndao.Orm.{
  Act, pure, fail, lift, or_fail, or_crash, wrapped, deferred, ◌>>=◌, ◌>>◌, proceed, ResultSet, Orm,
  check_ctx, stmt_from_db_or_tx,
}

-- The values that identify a parent: its identity, foreign key and primary key columns
unfoldable pub pk_query_vals_from_kv : Object → Schema → String → Outcome (Map Value)
pk_query_vals_from_kv obj sch parent = elim (get_table sch parent) [
  | none ↦ err (message ("pkQueryValsFromKV: no schema table for table named " <> parent))
  | some t ↦ ok (pick t.primary (entries t.columns))
]
  where
    pick : String → Map Column → Map Value
    pick primary [] = []
    pick primary ((name, f) ∷ rest) =
        if f.is_identity || f.is_foreign_key || (f.name == primary)
        then (name, get name obj) ∷ pick primary rest
        else pick primary rest

-- Query values under the real column names
rename : Table → Map Value → Map Value → Map Value
rename t [] kv = kv
rename t ((k, v) ∷ rest) kv = rename t rest (insert (get_column_name t k) v kv)

unfoldable pub make_query_obj : Table → Map Value → Object
unfolding rename
make_query_obj t query_vals = elim t.column_aliases [
  | none ↦ record (Object.new t.name) { kv = query_vals }
  | some aliases ↦ record (Object.new t.name) { kv = rename t query_vals [] }
]

-- A row that was scanned makes a clean object.
abbrev loaded : Object → Object
loaded obj = reset_changed_columns (mark_dirty false obj)

module _ {S : Type 0} (o : Orm S) where
  -- The loop over the rows; the pointers keep what the last `Scan` wrote.
  read_rows :
      String
      → List String
      → List ColumnType
      → List Dest
      → List (List Dest → Outcome (List Dest))
      → Option Error
      → Outcome (List Object)
  read_rows table names types pointers [] none = ok []
  read_rows table names types pointers [] (some e) = err e
  read_rows table names types pointers (scan ∷ scans) end_err =
      Outcome.◌>>=◌ (scan pointers) λ filled.
        Outcome.◌>>=◌
          (o.sql_gen.dynamic_object_setter o.std o.sql_gen.classes names filled types
            (Object.new table))
          λ obj.
            Outcome.◌>>=◌ (read_rows table names types filled scans end_err)
              λ objs. ok (loaded obj ∷ objs)

  pub read_result : String → List String → ResultSet → Outcome (List Object)
  unfolding read_rows
  read_result table names res = Outcome.◌>>=◌ res.column_types λ types.
      Outcome.◌>>=◌ (o.sql_gen.make_column_pointers o.sql_gen.classes (length names) types)
        λ pointers. read_rows table names types pointers res.scans res.end_err

  -- The query, and the two deferred closes
  run_query : String → List String → List Value → ℕ → Act S (List Object)
  unfolding read_result
  run_query table names args stmt = deferred (o.raw_conn.close_stmt stmt) (do
    res ← o.raw_conn.query stmt args
    deferred o.raw_conn.close_rows (lift (read_result table names res)))

  unfoldable pub retrieve_many_core : Option ℕ → String → Map Value → Act S (List Object)
  unfolding run_query
  retrieve_many_core tx table query_vals = do
    check_ctx o
    t ←
        or_fail (get_table o.schema table)
          (message ("RetrieveMany: unknown object table " <> table))
    if t.name == ""
        then fail (message "RetrieveMany: schema table object has unset 'Name' property")
        else do
          (sql, names, args) ←
              lift (binding_retrieve o.sql_gen o.schema (make_query_obj t query_vals))
          stmt ← stmt_from_db_or_tx o tx sql
          run_query table names args stmt

  unfoldable pub retrieve_many_tx : ℕ → String → Map Value → Act S (List Object)
  retrieve_many_tx tx table query_vals = retrieve_many_core (some tx) table query_vals

  unfoldable pub retrieve_many : String → Map Value → Act S (List Object)
  retrieve_many table query_vals = retrieve_many_core none table query_vals

  -- The first row's object, or nil. An array without rows is nil, since it is only appended to.
  abbrev first_object : List Object → Option Object
  first_object [] = none
  first_object (obj ∷ objs) = some obj

  unfoldable pub retrieve_core : Option ℕ → String → Map Value → Act S (Option Object)
  retrieve_core tx table query_vals = do
    check_ctx o
    objs ← retrieve_many_core tx table query_vals
    pure (first_object objs)

  unfoldable pub retrieve_tx : Option ℕ → String → Map Value → Act S (Option Object)
  retrieve_tx tx table query_vals = retrieve_core tx table query_vals

  unfoldable pub retrieve : String → Map Value → Act S (Option Object)
  retrieve table query_vals = retrieve_core none table query_vals

  unfoldable pub retrieve_many_from_custom_sql :
      String → String → List String → List Value → Act S (List Object)
  unfolding run_query
  retrieve_many_from_custom_sql table sql names bind_args = do
    check_ctx o
    stmt ← o.raw_conn.prepare none sql
    run_query table names bind_args stmt

  parents_from : Object → List String → Act S (List Object)
  parents_from child [] = pure []
  parents_from child (pt ∷ pts) = do
    query_vals ← lift (pk_query_vals_from_kv child o.schema pt)
    objs ← retrieve_many pt query_vals
    rest ← parents_from child pts
    pure (objs ++ rest)

  unfoldable pub get_parents_via_child : Object → Act S (List Object)
  unfolding parents_from
  get_parents_via_child child = do
    check_ctx o
    t ←
        or_fail (get_table o.schema child.object_type)
          (message ("GetParentsViaChild: unknown object table " <> child.object_type))
    parents ← or_fail t.parent_tables (
        message (
          "GetParentsViaChild: cannot retrieve parents for table " <> child.object_type
          <> ", schema ParentTables is nil"))
    parents_from child parents
