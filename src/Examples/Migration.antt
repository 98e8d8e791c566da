-- ===== src/Examples/Migration.antt =====
-- Migrating a schema of one Oracle table.
use dyndao.Base.{◌≡◌, refl, All, some, [], ◌∷◌, false}
use dyndao.Schema.{Schema}
use dyndao.Migrator.{translate}
use dyndao.Migrator.Prints.{Prints}
use dyndao.Migrator.Types.{KeepsUpper, AllTranslated, translate-AllTranslated}
use dyndao.Examples.Data.{std, schema, people, column}

abbrev oracle_schema : Schema
oracle_schema = record schema {
  tables =
      (
        "people",
        record people {
          columns = some (("Name", record (column "Name" false) { db_type = "VARCHAR2" }) ∷ []);
        },
      )
      ∷ [];
}

std-KeepsUpper : KeepsUpper std
std-KeepsUpper = record {
  upper_varchar = refl;
  upper_integer = refl;
  upper_datetime = refl;
  upper_text = refl;
}

translate-AllTranslated_example :
    All (λ e. AllTranslated std e.1) (translate std oracle_schema).tables
    × (translate std (translate std oracle_schema) ≡ translate std oracle_schema)
translate-AllTranslated_example = translate-AllTranslated std std-KeepsUpper oracle_schema
