-- ===== src/SqlGen/Vtable.antt =====
-- sqlgen/types.go and sqlgen/validate.go: `SQLGenerator` as a table of slots that may be nil, and
-- the check that none is. `resolve` reads the slots that adapters fill.
use dyndao.Base.{ℕ, String, ◌≡◌, Bool, true, false, Option, none, some, List, is_some, arith}
use dyndao.Base.Map.{Map}
use dyndao.Base.Outcome.{Outcome, ok, panic, ◌>>◌}
use dyndao.Value.{Value, Std}
use dyndao.Schema.{Column, Table, Schema}
use dyndao.Object.{Object}
use dyndao.SqlGen.{Classes, ColumnType, Dest, Generator}

pub record Vtable : Type 0 where
  pub tracing : Bool
  pub fix_last_insert_id_bug : Bool
  pub binding_insert :
      Option
        (Generator → Std → Schema → String → Option (Map Value) → Outcome (String × List Value))
  pub binding_update :
      Option (Generator → Std → Schema → Object → Outcome (String × List Value × List Value))
  pub binding_retrieve :
      Option (Generator → Schema → Object → Outcome (String × List String × List Value))
  pub binding_delete : Option (Generator → Schema → Object → Outcome (String × List Value))
  pub create_table : Option (Generator → Std → Schema → String → Outcome (String × Schema))
  pub drop_table : Option (String → String)
  pub render_binding_value : Option (Column → String)
  pub render_binding_value_with_int : Option (Column → ℕ → String)
  pub is_string_type : Option (String → Bool)
  pub is_number_type : Option (String → Bool)
  pub is_floating_type : Option (String → Bool)
  pub is_timestamp_type : Option (String → Bool)
  pub is_lob_type : Option (String → Bool)
  pub dynamic_object_setter :
      Option (Std → Classes → List String → List Dest → List ColumnType → Object → Outcome Object)
  pub make_column_pointers : Option (Classes → ℕ → List ColumnType → Outcome (List Dest))
  pub render_where_clause : Option (Generator → Table → Object → Outcome (String × List Value))
  pub render_update_where_clause :
      Option (Generator → Table → Map Column → Object → Outcome (String × List Value))
  pub core_binding_insert : Option (
      Generator
      → Std
      → Table
      → Map Column
      → Map Value
      → Outcome (List String × List String × List Value))
  pub render_create_column : Option (Std → Column → Outcome (String × Column))
  pub render_insert_value : Option (Std → Column → Value → Outcome Value)
  pub binding_insert_sql : Option (Table → String → List String → List String → String → String)

-- `new(SQLGenerator)`: the zero value
abbrev pub zero_vtable : Vtable
zero_vtable = record {
  tracing = false;
  fix_last_insert_id_bug = false;
  binding_insert = none;
  binding_update = none;
  binding_retrieve = none;
  binding_delete = none;
  create_table = none;
  drop_table = none;
  render_binding_value = none;
  render_binding_value_with_int = none;
  is_string_type = none;
  is_number_type = none;
  is_floating_type = none;
  is_timestamp_type = none;
  is_lob_type = none;
  dynamic_object_setter = none;
  make_column_pointers = none;
  render_where_clause = none;
  render_update_where_clause = none;
  core_binding_insert = none;
  render_create_column = none;
  render_insert_value = none;
  binding_insert_sql = none;
}

-- `if g.Slot == nil { panic(…) }`
abbrev require {ℓ} : {A : Type ℓ} → Option A → String → Outcome (Unit {0})
require (some f) text = ok tt
require none text = panic text

unfoldable pub panic_if_invalid : Vtable → Outcome (Unit {0})
panic_if_invalid g = do
  require g.binding_insert "dyndao: vtable BindingInsert is nil"
  require g.binding_update "dyndao: vtable BindingUpdate is nil"
  require g.binding_retrieve "dyndao: vtable BindingRetrieve is nil"
  require g.binding_delete "dyndao: vtable BindingDelete is nil"
  require g.create_table "dyndao: vtable CreateTable is nil"
  require g.drop_table "dyndao: vtable DropTable is nil"
  require g.render_binding_value "dyndao: vtable RenderBindingValue is nil"
  require g.render_binding_value_with_int "dyndao: vtable RenderBindingValueWithInt is nil"
  require g.is_string_type "dyndao: vtable IsStringType is nil"
  require g.is_number_type "dyndao: vtable IsNumberType is nil"
  require g.is_floating_type "dyndao: vtable IsFloatingType is nil"
  require g.is_timestamp_type "dyndao: vtable IsTimestampType is nil"
  require g.is_lob_type "dyndao: vtable IsLOBType is nil"
  require g.dynamic_object_setter "dyndao: vtable DynamicObjectSetter is nil"
  require g.make_column_pointers "dyndao: vtable MakeColumnPointers is nil"
  require g.render_where_clause "dyndao: vtable RenderWhereClause is nil"
  require g.render_update_where_clause "dyndao: vtable RenderUpdateWhereClause is nil"
  require g.core_binding_insert "dyndao: vtable CoreBindingInsert is nil"
  require g.render_create_column "dyndao: vtable RenderCreateColumn is nil"
  require g.render_insert_value "dyndao: vtable RenderInsertValue is nil"
  require g.binding_insert_sql "dyndao: vtable BindingInsertSQL is nil"

infixl 5 ◌<*>◌
abbrev ◌<*>◌ {ℓ κ} : {A : Type ℓ} {B : Type κ} → Option (A → B) → Option A → Option B
some f <*> some a = some (f a)
some f <*> none = none
none <*> o = none

abbrev classes_of : (s n f t l : String → Bool) → Classes
classes_of s n f t l = record {
  is_string_type = s;
  is_number_type = n;
  is_floating_type = f;
  is_timestamp_type = t;
  is_lob_type = l;
}

-- The generator that the slots make up, if none that an adapter fills is nil
unfoldable pub resolve : Vtable → Option Generator
resolve v =
    some (λ s n f t l create drop bind bind_int insert setter pointers insert_sql. record {
      tracing = v.tracing;
      fix_last_insert_id_bug = v.fix_last_insert_id_bug;
      classes = classes_of s n f t l;
      render_create_column = create;
      drop_table = drop;
      render_binding_value = bind;
      render_binding_value_with_int = bind_int;
      render_insert_value = insert;
      dynamic_object_setter = setter;
      make_column_pointers = pointers;
      binding_insert_sql = insert_sql;
    })
    <*> v.is_string_type
    <*> v.is_number_type
    <*> v.is_floating_type
    <*> v.is_timestamp_type
    <*> v.is_lob_type
    <*> v.render_create_column
    <*> v.drop_table
    <*> v.render_binding_value
    <*> v.render_binding_value_with_int
    <*> v.render_insert_value
    <*> v.dynamic_object_setter
    <*> v.make_column_pointers
    <*> v.binding_insert_sql

-- A generator that passes `PanicIfInvalid` has every slot that the statement builders call.
pub valid_resolves : (v : Vtable) → panic_if_invalid v ≡ ok tt → is_some (resolve v) ≡ true
unfolding panic_if_invalid resolve
valid_resolves v h = ground arith
