-- ===== src/Migrator/Prints.antt =====
-- examples/migrator/main.go prints every table.
use dyndao.Base.{some, String, ◌<>◌, ◌≡◌, List, [], ◌∷◌, length}
use dyndao.Base.Map.{keys}
use dyndao.Base.Outcome.{Outcome, ok}
use dyndao.Value.{Value, Std}
use dyndao.Schema.{Schema}
use dyndao.SqlGen.{Generator}
use dyndao.SqlGen.Vtable.{Vtable, resolve}
use dyndao.Orm.Tables.Succeeds.{create_texts}
use dyndao.Migrator.{translate, get_sql_gen}

-- A DROP and a CREATE statement for each table, each with a semicolon
abbrev pub script : Generator → List String → List String → List String
script g (name ∷ names) (text ∷ texts) =
    (g.drop_table name <> ";") ∷ (text <> ";") ∷ script g names texts
script g _ _ = []

module _ (s : Std) (remove_nils : List Value → List Value) (db_trace : String) (sch : Schema) where
  -- What is printed, with the generator of MySQL: the statements of all tables of the translated
  -- schema, in their order, with a text of CreateTable for each one
  abbrev pub Prints : Outcome (List String) → Type 0
  Prints printed =
      let translated = translate s sch in
      let names = keys translated.tables in
      (v : Vtable) × (g : Generator) × (get_sql_gen remove_nils db_trace ≡ ok v)
      × (resolve v ≡ some g)
      × (printed ≡ ok (script g names (create_texts s g translated names)))
      × (length (create_texts s g translated names) ≡ length sch.tables)
