-- ===== src/Core/Columns.antt =====
-- adapters/core/setter.go: column pointers for a result set, and the object that a row fills.
pub mod Fit
pub mod Typed
use dyndao.Base.{
  ℕ, zero, suc, String, ◌<>◌, Bool, true, false, Option, none, some, List, [], ◌∷◌, if◌then◌else◌,
}
use dyndao.Base.Outcome.{Outcome, ok, err, panic, message, ◌>>=◌}
use dyndao.Base.Int.{pos}
use dyndao.Value.{Value, Time, NullString, Std}
use dyndao.Object.{Object, set}
use dyndao.SqlGen.{Classes, ColumnType, Dest}

-- A type assertion on a pointer of another type
abbrev pub bad_assertion {ℓ} : {A : Type ℓ} → Outcome A
bad_assertion = panic "interface conversion"

-- What a pointer contributes, after the assertion for its class; `none` is a NULL that is skipped.
abbrev pub as_time : Dest → Outcome (Option Value)
as_time (Dest.time t) = ok (some (Value.time t))
as_time _ = bad_assertion

abbrev pub as_string : Dest → Outcome (Option Value)
as_string (Dest.string t) = ok (some (Value.string t))
as_string _ = bad_assertion

abbrev pub as_null_string : Dest → Outcome (Option Value)
as_null_string (Dest.null_string t) = ok (some (Value.null_string t))
as_null_string _ = bad_assertion

abbrev pub as_number : Bool → Dest → Outcome (Option Value)
as_number true (Dest.null_int64 none) = ok none
as_number true (Dest.null_int64 (some n)) = ok (some (Value.int64 n))
as_number false (Dest.int64 n) = ok (some (Value.int64 n))
as_number _ _ = bad_assertion

abbrev pub as_float : Bool → Dest → Outcome (Option Value)
as_float true (Dest.null_float64 none) = ok none
as_float true (Dest.null_float64 (some x)) = ok (some (Value.float64 x))
as_float false (Dest.float64 x) = ok (some (Value.float64 x))
as_float _ _ = bad_assertion

abbrev pub as_text : Bool → Dest → Outcome (Option Value)
as_text true d = as_null_string d
as_text false d = as_string d

-- The chain of tests in `DynamicObjectSetter`
unfoldable pub column_value : Classes → ColumnType → Dest → Outcome (Option Value)
column_value c ct d =
    let name = ct.database_type_name in
    if c.is_timestamp_type name
    then as_time d
    else if c.is_string_type name
    then as_text ct.nullable d
    else if c.is_number_type name
    then as_number ct.nullable d
    else if c.is_floating_type name
    then as_float ct.nullable d
    else if c.is_lob_type name
    then as_text ct.nullable d
    else err (message ("DynamicObjectSetter: Unrecognized type: " <> name))

abbrev pub set_if : Std → String → Option Value → Object → Object
set_if s k none o = o
set_if s k (some v) o = set s k v o

-- The loop over the pointers; `columnTypes` and `columnNames` are indexed alongside. A NULL number
-- sets nothing, so its name is not read.
unfoldable pub dynamic_object_setter :
    Std → Classes → List String → List Dest → List ColumnType → Object → Outcome Object
unfolding column_value
dynamic_object_setter s c names [] cts o = ok o
dynamic_object_setter s c names (d ∷ ds) [] o = panic "index out of range"
dynamic_object_setter s c [] (d ∷ ds) (ct ∷ cts) o =
    let rest = dynamic_object_setter s c [] ds cts o in
    column_value c ct d >>= elim [ none ↦ rest | some v ↦ panic "index out of range" ]
dynamic_object_setter s c (k ∷ names) (d ∷ ds) (ct ∷ cts) o = do
  v ← column_value c ct d
  dynamic_object_setter s c names ds cts (set_if s k v o)

abbrev text_pointer : Bool → Dest
text_pointer true = Dest.null_string (record { text = ""; valid = false })
text_pointer false = Dest.string ""

abbrev pub number_pointer : Bool → Dest
number_pointer true = Dest.null_int64 none
number_pointer false = Dest.int64 (pos 0)

-- The zero `time.Time`
abbrev pub time_pointer : Dest
time_pointer = Dest.time (record { instant = pos 0; zone = 0 })

-- The chain of tests in `MakeColumnPointers`: floating types are not among them.
unfoldable pub column_pointer : Classes → ColumnType → Outcome Dest
column_pointer c ct =
    let name = ct.database_type_name in
    if c.is_number_type name
    then ok (number_pointer ct.nullable)
    else if c.is_timestamp_type name
    then ok time_pointer
    else if c.is_lob_type name
    then ok (text_pointer ct.nullable)
    else if c.is_string_type name
    then ok (text_pointer ct.nullable)
    else err (message ("MakeColumnPointers: Unrecognized type: " <> name))

unfoldable pub make_column_pointers : Classes → ℕ → List ColumnType → Outcome (List Dest)
unfolding column_pointer
make_column_pointers c zero cts = ok []
make_column_pointers c (suc n) [] = panic "index out of range"
make_column_pointers c (suc n) (ct ∷ cts) = do
  d ← column_pointer c ct
  ds ← make_column_pointers c n cts
  ok (d ∷ ds)
