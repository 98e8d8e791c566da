-- ===== src/Object.antt =====
-- object/object.go and object/sqlvalue.go: `object.Object` and its methods. A method with a
-- pointer receiver returns the new object. `KV` is never nil here: `New` makes it, and the maps
-- that callers hand over (`orm`'s queryVals and createKV) are taken to be made.
pub mod Tracking
pub mod Getters
use dyndao.Base.{
  ℕ, zero, suc, String, ◌<>◌, Bool, true, false, not, ◌&&◌, Option, none, some, List, [], ◌∷◌,
  length, ltb, ◌==◌, if◌then◌else◌, or_else,
}
use dyndao.Base.Map.{Map, lookup, insert, entries}
use dyndao.Base.Outcome.{Outcome, ok, err, panic, key_was_missing, value_was_nil, message}
use dyndao.Base.Int.{ℤ, pos, to_int64, to_uint64}
use dyndao.Value.{
  Value, nil, bool, string, int64, uint64, float64, null_string, null_string_ptr, sql_value_ptr,
  Std, format_int, format_uint, same, type_name, is_nil,
}

-- A child is a pointer to another object: its address, or none for nil.
abbrev pub Array : Type 0
Array = List (Option ℕ)

pub record Object : Type 0 where
  pub object_type : String
  pub kv : Map Value
  pub hidden_kv : Option (Map Value)
  pub changed_columns : Map Value
  pub children : Map Array
  pub dirty : Bool

abbrev pub make_empty_map : Map Value
make_empty_map = []

abbrev pub make_empty_children_map : Map Array
make_empty_children_map = []

unfoldable pub new : String → Object
new t = record {
  object_type = t;
  kv = make_empty_map;
  hidden_kv = none;
  changed_columns = make_empty_map;
  children = make_empty_children_map;
  dirty = true;
}

unfoldable pub make_array : ℕ → Array
make_array zero = []
make_array (suc n) = none ∷ make_array n

unfoldable pub new_array : Option ℕ → Array
new_array val = val ∷ []

unfoldable pub new_empty_array : Array
new_empty_array = []

unfoldable pub make_hidden_kv_if_needed : Object → Object
make_hidden_kv_if_needed o = record o { hidden_kv = some (entries o.hidden_kv) }

unfoldable pub get : String → Object → Value
unfolding lookup
get k o = or_else nil (lookup k o.kv)

unfoldable pub get_with_flag : String → Object → Value × Bool
unfolding lookup
get_with_flag k o = elim (lookup k o.kv) [ none ↦ (nil, false) | some v ↦ (v, true) ]

abbrev as_bool : Value → Bool × Bool
as_bool (bool b) = (b, true)
as_bool _ = (false, false)

abbrev as_string : Value → String × Bool
as_string (string t) = (t, true)
as_string _ = ("", false)

abbrev as_int : Value → ℤ × Bool
as_int (int64 n) = (n, true)
as_int _ = (pos 0, false)

abbrev as_float : Value → ℕ × Bool
as_float (float64 x) = (x, true)
as_float _ = (0, false)

unfoldable pub get_bool : String → Object → Bool × Bool
unfolding get
get_bool k o = as_bool (get k o)

unfoldable pub get_string : String → Object → String × Bool
unfolding get
get_string k o = as_string (get k o)

unfoldable pub get_int : String → Object → ℤ × Bool
unfolding get
get_int k o = as_int (get k o)

unfoldable pub get_float : String → Object → ℕ × Bool
unfolding get
get_float k o = as_float (get k o)

-- The switch of `HiddenGetStringAlways`
hidden_string_of : Std → Value → Outcome String
hidden_string_of s (float64 x) = ok (s.format_float x)
hidden_string_of s (int64 n) = ok (format_int n)
hidden_string_of s (uint64 n) = ok (format_uint n)
hidden_string_of s (string t) = ok t
hidden_string_of s nil = err value_was_nil
hidden_string_of s v = err (message ("HiddenGetStringAlways: unrecognized type " <> type_name v))

-- The switch of `GetStringAlways`
string_of : Std → Value → Outcome String
string_of s (float64 x) = ok (s.format_float x)
string_of s (int64 n) = ok (format_int n)
string_of s (uint64 n) = ok (format_uint n)
string_of s (string t) = ok t
string_of s (null_string t) = ok t.text
string_of s (null_string_ptr _ t) = ok t.text
string_of s nil = err value_was_nil
string_of s v = err (message ("GetStringAlways: unrecognized type " <> type_name v))

-- The switch of `GetFloatAlways`: an int64 is asserted to be a float64.
float_of : Std → Value → Outcome ℕ
float_of s (float64 x) = ok x
float_of s (int64 n) = panic "interface conversion: interface {} is int64, not float64"
float_of s (uint64 n) = ok (s.float_of_uint n)
float_of s (string t) = s.parse_float t
float_of s nil = err value_was_nil
float_of s v = err (message ("GetFloatAlways: unrecognized type " <> type_name v))

-- The switch of `GetIntAlways`
int_of : Std → Value → Outcome ℤ
int_of s (float64 x) = ok (s.float_to_int x)
int_of s (int64 n) = ok n
int_of s (uint64 n) = ok (to_int64 n)
int_of s (string t) = s.parse_int t
int_of s nil = err value_was_nil
int_of s v = err (message ("GetIntAlways: unrecognized type " <> type_name v))

-- The switch of `GetUintAlways`
uint_of : Std → Value → Outcome ℕ
uint_of s (float64 x) = ok (s.float_to_uint x)
uint_of s (int64 n) = ok (to_uint64 n)
uint_of s (uint64 n) = ok n
uint_of s (string t) = s.parse_uint t
uint_of s nil = err value_was_nil
uint_of s v = err (message ("GetUintAlways: unrecognized type " <> type_name v))

-- `v, ok := m[k]`, with an error on a missing key
abbrev always {ℓ} : {A : Type ℓ} → (Value → Outcome A) → Option Value → Outcome A
always f none = err key_was_missing
always f (some v) = f v

unfoldable pub hidden_get_string_always : Std → String → Object → Outcome String
unfolding hidden_string_of
hidden_get_string_always s k o = always (hidden_string_of s) (lookup k (entries o.hidden_kv))

unfoldable pub get_string_always : Std → String → Object → Outcome String
unfolding string_of
get_string_always s k o = always (string_of s) (lookup k o.kv)

unfoldable pub get_float_always : Std → String → Object → Outcome ℕ
unfolding float_of
get_float_always s k o = always (float_of s) (lookup k o.kv)

unfoldable pub get_int_always : Std → String → Object → Outcome ℤ
unfolding int_of
get_int_always s k o = always (int_of s) (lookup k o.kv)

unfoldable pub get_uint_always : Std → String → Object → Outcome ℕ
unfolding uint_of
get_uint_always s k o = always (uint_of s) (lookup k o.kv)

unfoldable pub is_dirty : Object → Bool
is_dirty o = o.dirty

unfoldable pub mark_dirty : Bool → Object → Object
mark_dirty status o = record o { dirty = status }

unfoldable pub reset_changed_columns : Object → Object
reset_changed_columns o = record o { changed_columns = [] }

unfoldable pub column_changed : String → Value → Object → Object
column_changed k old o = record o { changed_columns = insert k old o.changed_columns }

unfoldable pub set_core : String → Value → Object → Object
set_core k v o = record o { kv = insert k v o.kv }

-- `if !o.IsDirty() { o.MarkDirty(true) }; o.SetCore(k, v)`
abbrev touch : String → Value → Object → Object
touch k v o = set_core k v (if not (is_dirty o) then mark_dirty true o else o)

unfoldable pub set : Std → String → Value → Object → Object
unfolding get set_core is_dirty mark_dirty column_changed
set s k v o =
    let old = get k o in
    if is_nil old
    then touch k v o
    else if same s old v
    then o
    else touch k v (column_changed k old o)

unfoldable pub set_where_needed : Std → String → Value → Object → Object
unfolding set set_core is_dirty
set_where_needed s k v o =
    if ltb 0 (length o.changed_columns)
    then set s k v o
    else if is_dirty o && ltb 0 (length o.kv)
    then set_core k v o
    else o

-- object/sqlvalue.go: the constructors allocate, so they take the address.
unfoldable pub new_sql_value : ℕ → String → Value
new_sql_value at t = sql_value_ptr at t

unfoldable pub new_null_value : ℕ → Value
new_null_value at = sql_value_ptr at "NULL"

unfoldable pub value_is_null : Value → Bool
value_is_null (sql_value_ptr _ t) = if t == "NULL" then true else false
value_is_null _ = false
