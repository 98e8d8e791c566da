-- ===== src/SqlGen.antt =====
-- sqlgen/types.go: the parts of `SQLGenerator` that adapters fill. A function that the source
-- hands the generator itself takes here the type classes that it reads of it. The statement
-- builders (BindingInsert and so on), which no adapter replaces, are called directly in Core.
pub mod Vtable
use dyndao.Base.{ℕ, String, Bool, Option, List}
use dyndao.Base.Outcome.{Outcome}
use dyndao.Base.Int.{ℤ}
use dyndao.Value.{Value, Time, NullString, Std}
use dyndao.Schema.{Column, Table}
use dyndao.Object.{Object}

-- FnIsStringType and its like
pub record Classes : Type 0 where
  pub is_string_type : String → Bool
  pub is_number_type : String → Bool
  pub is_floating_type : String → Bool
  pub is_timestamp_type : String → Bool
  pub is_lob_type : String → Bool

-- What the code reads of a `*sql.ColumnType`
pub record ColumnType : Type 0 where
  pub database_type_name : String
  pub nullable : Bool

-- A column pointer with the value that it points to; `nothing` is a nil interface.
pub data Dest : Type 0 where
  nothing : Dest
  string : String → Dest
  null_string : NullString → Dest
  int64 : ℤ → Dest
  null_int64 : Option ℤ → Dest  -- sql.NullInt64
  float64 : ℕ → Dest
  null_float64 : Option ℕ → Dest  -- sql.NullFloat64
  time : Time → Dest
  lob : String → Dest  -- LobDST of the Oracle adapter

pub record Generator : Type 0 where
  pub tracing : Bool
  pub fix_last_insert_id_bug : Bool
  pub classes : Classes
  pub render_create_column : Std → Column → Outcome (String × Column)
  pub drop_table : String → String
  pub render_binding_value : Column → String
  pub render_binding_value_with_int : Column → ℕ → String
  pub render_insert_value : Std → Column → Value → Outcome Value
  pub dynamic_object_setter :
      Std → Classes → List String → List Dest → List ColumnType → Object → Outcome Object
  pub make_column_pointers : Classes → ℕ → List ColumnType → Outcome (List Dest)
  pub binding_insert_sql : Table → String → List String → List String → String → String
