-- ===== src/Adapters/Sqlite/Types.antt =====
-- adapters/sqlite/types.go
use text.Mathlib.Text.{starts_with}
use dyndao.Base.{String, Bool, true, List, [], ◌∷◌, if◌then◌else◌}
use dyndao.SqlGen.{Classes}
use dyndao.Adapters.Member.{member}

abbrev pub string_types : List String
string_types =
    "TEXT" ∷ "text" ∷ "CHARACTER" ∷ "character" ∷ "VARCHAR" ∷ "varchar" ∷ "VARYING CHARACTER"
    ∷ "varying character" ∷ "NCHAR" ∷ "nchar" ∷ "NATIVE CHARACTER" ∷ "native character" ∷ "NVARCHAR"
    ∷ "nvarchar" ∷ "CLOB" ∷ "clob" ∷ []

abbrev pub num_types : List String
num_types =
    "INTEGER" ∷ "integer" ∷ "INT" ∷ "int" ∷ "TINYINT" ∷ "tinyint" ∷ "SMALLINT" ∷ "smallint"
    ∷ "MEDIUMINT" ∷ "mediumint" ∷ "BIGINT" ∷ "bigint" ∷ "INT2" ∷ "int2" ∷ "INT8" ∷ "int8" ∷ []

abbrev pub float_types : List String
float_types =
    "REAL" ∷ "real" ∷ "DOUBLE" ∷ "double" ∷ "DOUBLE PRECISION" ∷ "double precision" ∷ "FLOAT"
    ∷ "float" ∷ []

abbrev pub timestamp_types : List String
timestamp_types = "datetime" ∷ "DATETIME" ∷ []

abbrev pub lob_types : List String
lob_types = "BLOB" ∷ "blob" ∷ []

unfoldable pub is_string_type : String → Bool
unfolding member
is_string_type k = if starts_with k "VARCHAR" then true else member k string_types

unfoldable pub is_number_type : String → Bool
unfolding member
is_number_type k = member k num_types

unfoldable pub is_floating_type : String → Bool
unfolding member
is_floating_type k = member k float_types

unfoldable pub is_timestamp_type : String → Bool
unfolding member
is_timestamp_type k = member k timestamp_types

unfoldable pub is_lob_type : String → Bool
unfolding member
is_lob_type k = member k lob_types

abbrev pub classes : Classes
classes = record {
  is_string_type = is_string_type;
  is_number_type = is_number_type;
  is_floating_type = is_floating_type;
  is_timestamp_type = is_timestamp_type;
  is_lob_type = is_lob_type;
}
