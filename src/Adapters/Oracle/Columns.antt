-- ===== src/Adapters/Oracle/Columns.antt =====
-- adapters/oracle/setter.go: as in the core adapter, but with plain strings for nullable texts and
-- LobDST for LOBs, and with the classes tested in another order.
use dyndao.Base.{ℕ, zero, suc, String, ◌<>◌, Option, none, some, List, [], ◌∷◌, if◌then◌else◌}
use dyndao.Base.Outcome.{Outcome, ok, err, panic, message, ◌>>=◌}
use dyndao.Value.{Value, Std}
use dyndao.Object.{Object}
use dyndao.SqlGen.{Classes, ColumnType, Dest}
use dyndao.Core.Columns.{
  bad_assertion, as_time, as_string, as_number, as_float, set_if, number_pointer, time_pointer,
}

-- A nil pointer becomes a new SQLValue; the address of what is allocated is the argument `at`.
abbrev as_lob : ℕ → Dest → Outcome (Option Value)
as_lob at Dest.nothing = ok (some (Value.sql_value_ptr at "NULL"))
as_lob at (Dest.lob t) = ok (some (Value.string t))
as_lob at _ = bad_assertion

unfoldable pub column_value : ℕ → Classes → ColumnType → Dest → Outcome (Option Value)
column_value at c ct d =
    let name = ct.database_type_name in
    if c.is_timestamp_type name
    then as_time d
    else if c.is_string_type name
    then as_string d
    else if c.is_number_type name
    then as_number ct.nullable d
    else if c.is_floating_type name
    then as_float ct.nullable d
    else if c.is_lob_type name
    then as_lob at d
    else err (message ("dynamicObjectSetter: Unrecognized type: " <> name))

unfoldable pub dynamic_object_setter :
    ℕ → Std → Classes → List String → List Dest → List ColumnType → Object → Outcome Object
unfolding column_value
dynamic_object_setter at s c names [] cts o = ok o
dynamic_object_setter at s c names (d ∷ ds) [] o = panic "index out of range"
dynamic_object_setter at s c [] (d ∷ ds) (ct ∷ cts) o =
    let rest = dynamic_object_setter (suc at) s c [] ds cts o in
    column_value at c ct d >>= elim [ none ↦ rest | some v ↦ panic "index out of range" ]
dynamic_object_setter at s c (k ∷ names) (d ∷ ds) (ct ∷ cts) o = do
  v ← column_value at c ct d
  dynamic_object_setter (suc at) s c names ds cts (set_if s k v o)

unfoldable pub column_pointer : Classes → ColumnType → Outcome Dest
column_pointer c ct =
    let name = ct.database_type_name in
    if c.is_string_type name
    then ok (Dest.string "")
    else if c.is_number_type name
    then ok (number_pointer ct.nullable)
    else if c.is_timestamp_type name
    then ok time_pointer
    else if c.is_lob_type name
    then ok (Dest.lob "")
    else err (message ("makeColumnPointers: Unrecognized type: " <> name))

unfoldable pub make_column_pointers : Classes → ℕ → List ColumnType → Outcome (List Dest)
unfolding column_pointer
make_column_pointers c zero cts = ok []
make_column_pointers c (suc n) [] = panic "index out of range"
make_column_pointers c (suc n) (ct ∷ cts) = do
  d ← column_pointer c ct
  ds ← make_column_pointers c n cts
  ok (d ∷ ds)
