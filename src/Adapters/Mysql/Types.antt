-- ===== src/Adapters/Mysql/Types.antt =====
-- adapters/mysql/types.go
use dyndao.Base.{String, Bool, List, [], ◌∷◌}
use dyndao.SqlGen.{Classes}
use dyndao.Adapters.Member.{member}

abbrev pub string_types : List String
string_types = "VARSTRING" ∷ "VARCHAR2" ∷ "varchar2" ∷ "VARCHAR" ∷ "varchar" ∷ "CHAR" ∷ "char" ∷ []

abbrev pub num_types : List String
num_types = "NUMBER" ∷ "number" ∷ "INT" ∷ "int" ∷ []

abbrev pub float_types : List String
float_types = "float" ∷ "FLOAT" ∷ []

abbrev pub timestamp_types : List String
timestamp_types = "timestamp" ∷ "TIMESTAMP" ∷ []

abbrev pub lob_types : List String
lob_types = "TEXT" ∷ "text" ∷ "BLOB" ∷ "blob" ∷ []

unfoldable pub is_string_type : String → Bool
unfolding member
is_string_type k = member k string_types

unfoldable pub is_number_type : String → Bool
unfolding member
is_number_type k = member k num_types

unfoldable pub is_floating_type : String → Bool
unfolding member
is_floating_type k = member k float_types

unfoldable pub is_timestamp_type : String → Bool
unfolding member
is_timestamp_type k = member k timestamp_types

unfoldable pub is_lob_type : String → Bool
unfolding member
is_lob_type k = member k lob_types

abbrev pub classes : Classes
classes = record {
  is_string_type = is_string_type;
  is_number_type = is_number_type;
  is_floating_type = is_floating_type;
  is_timestamp_type = is_timestamp_type;
  is_lob_type = is_lob_type;
}
