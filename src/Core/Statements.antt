-- ===== src/Core/Statements.antt =====
-- adapters/core: retrieve.go, delete.go, create_table.go, drop_table.go and transact.go
use dyndao.Base.{
  String, ◌<>◌, Option, none, some, List, [], ◌∷◌, length, join, eqb, ◌==◌, if◌then◌else◌,
}
use dyndao.Base.Map.{Map, lookup, insert, entries}
use dyndao.Base.Outcome.{Outcome, ok, err, panic, message, wrap, ◌>>=◌}
use dyndao.Value.{Value, Std}
use dyndao.Schema.{Column, Table, Schema, get_table, override_name}
use dyndao.Object.{Object}
use dyndao.SqlGen.{Generator}
use dyndao.Core.Where.{render_where_clause}

-- `errors.Wrap` on the error of a call, which is handed on otherwise
abbrev pub wrap_err {ℓ} : {A : Type ℓ} → String → Outcome A → Outcome A
wrap_err text (ok a) = ok a
wrap_err text (err e) = err (wrap e text)
wrap_err text (panic p) = panic p

essential : String → Option (List String) → Outcome (List String)
essential table none =
    err (message ("BindingRetrieve: EssentialColumns is empty for table " <> table))
essential table (some []) =
    err (message ("BindingRetrieve: EssentialColumns is empty for table " <> table))
essential table (some (c ∷ cs)) = ok (c ∷ cs)

-- The statement, the column names and the arguments
unfoldable pub binding_retrieve :
    Generator → Schema → Object → Outcome (String × List String × List Value)
unfolding essential
binding_retrieve g sch o = elim (get_table sch o.object_type) [
  | none ↦ err (message ("BindingRetrieve: Table map unavailable for table " <> o.object_type))
  | some t ↦ do
    (clause, args) ← wrap_err "BindingRetrieve" (render_where_clause g t o)
    cols ← essential o.object_type t.essential_columns
    let where_str = if clause == "" then "" else "WHERE"
    ok (
      "SELECT "
          <> join cols ","
          <> " FROM "
          <> override_name t.name o.object_type
          <> " "
          <> where_str
          <> " "
          <> clause,
      cols,
      args,
    )
]

unfoldable pub binding_delete : Generator → Schema → Object → Outcome (String × List Value)
binding_delete g sch o = elim (get_table sch o.object_type) [
  | none ↦ err (message ("BindingDelete: Table map unavailable for table " <> o.object_type))
  | some t ↦ do
    (clause, args) ← render_where_clause g t o
    let where_string = if eqb (length args) 0 then "" else "WHERE"
    ok (
      "DELETE FROM " <> override_name t.name o.object_type <> " " <> where_string <> " " <> clause,
      args,
    )
]

-- The column definitions in the order of the map. A renderer may change the column that it is
-- given, so the map comes back too.
unfoldable pub render_columns : Std → Generator → Map Column → Outcome (List String × Map Column)
render_columns s g [] = ok ([], [])
render_columns s g ((k, f) ∷ rest) = do
  (text, f') ← g.render_create_column s f
  (texts, rest') ← render_columns s g rest
  ok (text ∷ texts, (k, f') ∷ rest')

abbrev pub with_columns : Map Column → Table → Table
with_columns cols t = record t { columns = elim t.columns [ none ↦ none | some _ ↦ some cols ] }

-- `CreateTable` looks the table up by its key alone, without aliases.
unfoldable pub create_table : Std → Generator → Schema → String → Outcome (String × Schema)
unfolding render_columns
create_table s g sch table = elim (lookup table sch.tables) [
  | none ↦ err (message ("dyndao: unknown schema for table with name " <> table))
  | some t ↦ do
    (texts, cols) ← render_columns s g (entries t.columns)
    ok (
      "CREATE TABLE " <> override_name t.name table <> " (\n\t" <> join texts ",\n" <> "\n)\n",
      record sch { tables = insert table (with_columns cols t) sch.tables },
    )
]

unfoldable pub drop_table : String → String
drop_table name = "DROP TABLE " <> name

unfoldable pub begin : String → String
begin name = "BEGIN " <> name

unfoldable pub commit : String
commit = "COMMIT"
