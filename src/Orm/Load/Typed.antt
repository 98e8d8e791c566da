-- ===== src/Orm/Load/Typed.antt =====
-- The types of the values of an object that orm/load.go retrieves, with the column code of
-- adapters/core.
use dyndao.Base.{String, ◌≡◌, refl, Option, none, some, List, [], ◌∷◌, All}
use dyndao.Base.Outcome.{Error, Outcome, ok, OnOk, OnOk-each, OnOk-then}
use dyndao.Object.{Object, new, mark_dirty, reset_changed_columns}
use dyndao.SqlGen.{ColumnType, Dest}
use dyndao.Core.Columns.{dynamic_object_setter}
use dyndao.Core.Columns.Typed.{AllBelong, setter-AllBelong}
use dyndao.Orm.{Orm, ResultSet}
use dyndao.Orm.Load.{read_rows, read_result}

module _ {S : Type 0} (o : Orm S)
    (core : (names : List String) (ds : List Dest) (cts : List ColumnType) (obj : Object)
      → o.sql_gen.dynamic_object_setter o.std o.sql_gen.classes names ds cts obj
        ≡ dynamic_object_setter o.std o.sql_gen.classes names ds cts obj)
    (table : String) (names : List String) where
  -- Every value of the object has the type of the result's column of its name.
  abbrev pub HasColumnTypes : List ColumnType → Object → Type 0
  HasColumnTypes cts obj = AllBelong o.std o.sql_gen.classes names cts obj.kv

  read_rows-HasColumnTypes :
      (cts : List ColumnType) (pointers : List Dest)
      (scans : List (List Dest → Outcome (List Dest))) (end_err : Option Error)
      → OnOk (All (HasColumnTypes cts)) (read_rows o table names cts pointers scans end_err)
  unfolding read_rows mark_dirty reset_changed_columns
  read_rows-HasColumnTypes cts pointers [] none = tt
  read_rows-HasColumnTypes cts pointers [] (some e) = tt
  read_rows-HasColumnTypes cts pointers (scan ∷ scans) end_err =
      OnOk-each (All (HasColumnTypes cts)) (scan pointers) _ λ filled.
        OnOk-then (All (HasColumnTypes cts)) (HasColumnTypes cts)
          (o.sql_gen.dynamic_object_setter o.std o.sql_gen.classes names filled cts (new table)) _
          (rw (core names filled cts (new table)) (
            setter-AllBelong o.std o.sql_gen.classes names filled cts (new table)
              (unfold new in refl)))
          λ obj typed.
            OnOk-then (All (HasColumnTypes cts)) (All (HasColumnTypes cts))
              (read_rows o table names cts filled scans end_err) _
              (read_rows-HasColumnTypes cts filled scans end_err) λ objs others. (typed, others)

  -- With the column code of adapters/core: every object that is read from a result set has under every
  -- key a value of the type that belongs to a column of that name. A timestamp column gives a time.Time; a
  -- text or LOB column an sql.NullString if it is nullable, and a string if it is not; a number column
  -- an int64; a floating column a float64.
  pub rows_are_typed :
      (res : ResultSet) (cts : List ColumnType)
      → res.column_types ≡ ok cts
      → OnOk (All (HasColumnTypes cts)) (read_result o table names res)
  unfolding read_result
  rows_are_typed res cts typed =
      rw (typed, read_result)
        (OnOk-each (All (HasColumnTypes cts)) (o.sql_gen.make_column_pointers _ _ _) _
          λ pointers. read_rows-HasColumnTypes cts pointers res.scans res.end_err)
