-- ===== src/Schema.antt =====
-- schema/types.go, schema/schema.go and schema/validate.go. The maps hold no nil pointers; a slice
-- or map that the code compares with nil is an Option.
pub mod Laws
pub mod Infoschema
pub mod Json
pub mod OracleMetadata
use dyndao.Base.{
  String, ◌<>◌, Bool, true, false, Option, none, some, List, [], ◌∷◌, ◌==◌, if◌then◌else◌, or_else,
}
use dyndao.Base.Map.{Map, lookup, entries}
use dyndao.Base.Outcome.{Error, Outcome, ok, err, panic, message}
use dyndao.Base.Int.{ℤ, pos}

pub record Column : Type 0 where
  pub allow_null : Bool
  pub is_number : Bool
  pub is_identity : Bool
  pub is_foreign_key : Bool
  pub is_unique : Bool
  pub length : ℤ
  pub name : String
  pub default_value : String
  pub db_type : String

pub record ChildTable : Type 0 where
  pub parent_table : String
  pub multi_key : Bool
  pub local_column : String
  pub foreign_column : String
  pub local_columns : Option (List String)
  pub foreign_columns : Option (List String)

pub record Table : Type 0 where
  pub caller_supplies_pk : Bool
  pub multi_key : Bool
  pub primary : String
  pub name : String
  pub alias_name : String
  pub foreign_keys : Option (List String)
  pub columns : Option (Map Column)
  pub column_aliases : Option (Map String)
  pub essential_columns : Option (List String)
  pub parent_tables : Option (List String)
  pub children : Map ChildTable

pub record Schema : Type 0 where
  pub name : String
  pub tables : Map Table
  pub table_aliases : Option (Map String)

unfoldable pub default_schema : Schema
default_schema = record { name = ""; tables = []; table_aliases = none }

unfoldable pub default_table : Table
default_table = record {
  caller_supplies_pk = false;
  multi_key = false;
  primary = "";
  name = "";
  alias_name = "";
  foreign_keys = none;
  columns = some [];
  column_aliases = none;
  essential_columns = none;
  parent_tables = none;
  children = [];
}

unfoldable pub default_column : Column
default_column = record {
  allow_null = false;
  is_number = false;
  is_identity = false;
  is_foreign_key = false;
  is_unique = false;
  length = pos 0;
  name = "";
  default_value = "";
  db_type = "";
}

unfoldable pub default_child_table : ChildTable
default_child_table = record {
  parent_table = "";
  multi_key = false;
  local_column = "";
  foreign_column = "";
  local_columns = none;
  foreign_columns = none;
}

-- Schema.GetTableName
unfoldable pub get_table_name : Schema → String → String
get_table_name s n = elim s.table_aliases [
  | none ↦ n
  | some aliases ↦ elim (lookup n aliases) [ none ↦ n | some real_name ↦ real_name ]
]

unfoldable pub get_table : Schema → String → Option Table
get_table s n = elim s.table_aliases [
  | none ↦ lookup n s.tables
  | some aliases ↦ elim (lookup n aliases) [
    | none ↦ lookup n s.tables
    | some real_name ↦ lookup real_name s.tables
  ]
]

unfoldable pub get_column_name : Table → String → String
get_column_name t n = elim t.column_aliases [
  | none ↦ n
  | some aliases ↦ elim (lookup n aliases) [ none ↦ n | some real_name ↦ real_name ]
]

unfoldable pub get_column : Table → String → Option Column
get_column t n = elim t.column_aliases [
  | none ↦ lookup n (entries t.columns)
  | some aliases ↦ elim (lookup n aliases) [
    | none ↦ lookup n (entries t.columns)
    | some real_name ↦ lookup real_name (entries t.columns)
  ]
]

-- schema.GetTableName of types.go, a function of two names
unfoldable pub override_name : String → String → String
override_name override our_default = if override == "" then our_default else override

unfoldable pub error_helper : Table → String → Error
error_helper t msg =
    message ("dyndao/schema/Validate: schema.Table named '" <> t.name <> "' has error " <> msg)

-- The body of the loop of `Validate`
unfoldable pub validate_table : Table → Outcome (Unit {0})
unfolding error_helper
validate_table t =
    if t.name == "" then err (error_helper t "empty Name property") else elim t.essential_columns [
      | none ↦ err (error_helper t "EssentialColumns is nil")
      | some [] ↦ err (error_helper t "EssentialColumns is of length zero")
      | some (c ∷ cs) ↦ ok tt
    ]

validate_tables : Map Table → Outcome (Unit {0})
unfolding validate_table
validate_tables [] = ok tt
validate_tables ((k, t) ∷ ts) = elim (validate_table t) [
  | ok _ ↦ validate_tables ts
  | err e ↦ err e
  | panic p ↦ panic p
]

unfoldable pub validate : Schema → Outcome (Unit {0})
unfolding validate_tables
validate s = validate_tables s.tables
