-- ===== src/Value.antt =====
-- The values that an object holds (`interface{}`), and what the program uses of Go's standard
-- library on them. A float64 is its bit pattern. A pointer is its address with what it points to:
-- no code of the repository writes through these pointers. Values of types that Go cannot compare
-- (slices, maps, functions) are not modelled.
use dyndao.Base.{
  ℕ, zero, suc, ◌/◌, ◌%◌, ◌+◌, String, ◌<>◌, Bool, true, false, ◌&&◌, Option, [], ◌∷◌, get_elem?,
  or_else, ltb, eqb, ◌==◌, if◌then◌else◌,
}
use dyndao.Base.Outcome.{Outcome}
use dyndao.Base.Int.{ℤ, pos, negsuc, eqb_ℤ}

-- `time.Time`: an instant, in nanoseconds from the zero time, and a location
pub record Time : Type 0 where
  pub instant : ℤ
  pub zone : ℕ

-- `Time.IsZero`
unfoldable pub is_zero : Time → Bool
is_zero t = eqb_ℤ t.instant (pos 0)

-- `sql.NullString`
pub record NullString : Type 0 where
  pub text : String
  pub valid : Bool

pub data Value : Type 0 where
  nil : Value
  bool : Bool → Value
  string : String → Value
  int int32 int64 : ℤ → Value
  uint64 float64 : ℕ → Value
  null_string : NullString → Value
  null_string_ptr : ℕ → NullString → Value
  time : Time → Value
  time_ptr : ℕ → Option Time → Value  -- `none` is the nil `*time.Time`
  sql_value : String → Value  -- object.SQLValue
  sql_value_ptr : ℕ → String → Value  -- *object.SQLValue
  gjson_result : ℕ → Value
  named : String → Value → Value  -- `sql.Named(name, value)`
  out : Value  -- `sql.Out`, whose destination is the local variable of `Insert`
  other : String → ℕ → Value  -- another comparable type, by its name

-- What the model leaves open of the standard library: floats, times, text forms of numbers that
-- are read back, `string(rune)` and `strings.ToUpper`.
pub record Std : Type 0 where
  pub float_eq : ℕ → ℕ → Bool
  pub format_float : ℕ → String  -- fmt.Sprintf("%f", x)
  pub float_of_uint : ℕ → ℕ  -- float64(x)
  pub float_to_int : ℕ → ℤ  -- int64(x)
  pub float_to_uint : ℕ → ℕ  -- uint64(x)
  pub parse_float : String → Outcome ℕ
  pub parse_int : String → Outcome ℤ
  pub parse_uint : String → Outcome ℕ
  pub parse_time : String → Outcome Time  -- time.Parse(time.RFC3339, s)
  pub rune_string : ℤ → String  -- string(x)
  pub to_upper : String → String

digit : ℕ → String
digit d = or_else "9" (get_elem? ("0" ∷ "1" ∷ "2" ∷ "3" ∷ "4" ∷ "5" ∷ "6" ∷ "7" ∷ "8" ∷ []) d)

decimal : ℕ → ℕ → String
decimal zero n = ""
decimal (suc f) n =
    let more = decimal f (n / 10) <> digit (n % 10) in if ltb n 10 then digit n else more

-- fmt.Sprintf("%d", n) for n < 2 ^ 64, which has at most 20 digits
unfoldable pub format_uint : ℕ → String
unfolding decimal digit
format_uint n = decimal 20 n

unfoldable pub format_int : ℤ → String
unfolding format_uint
format_int (pos n) = format_uint n
format_int (negsuc n) = "-" <> format_uint (n + 1)

abbrev bool_eq : Bool → Bool → Bool
bool_eq true y = y
bool_eq false true = false
bool_eq false false = true

abbrev null_string_eq : NullString → NullString → Bool
null_string_eq a b = (a.text == b.text) && bool_eq a.valid b.valid

abbrev time_eq : Time → Time → Bool
time_eq a b = eqb_ℤ a.instant b.instant && eqb a.zone b.zone

-- `a == b` on two interfaces: the same dynamic type, and equal values of it
unfoldable pub same : Std → Value → Value → Bool
same s nil nil = true
same s (bool a) (bool b) = bool_eq a b
same s (string a) (string b) = a == b
same s (int a) (int b) = eqb_ℤ a b
same s (int32 a) (int32 b) = eqb_ℤ a b
same s (int64 a) (int64 b) = eqb_ℤ a b
same s (uint64 a) (uint64 b) = eqb a b
same s (float64 a) (float64 b) = s.float_eq a b
same s (null_string a) (null_string b) = null_string_eq a b
same s (null_string_ptr a _) (null_string_ptr b _) = eqb a b
same s (time a) (time b) = time_eq a b
same s (time_ptr a _) (time_ptr b _) = eqb a b
same s (sql_value a) (sql_value b) = a == b
same s (sql_value_ptr a _) (sql_value_ptr b _) = eqb a b
same s (gjson_result a) (gjson_result b) = eqb a b
same s (named a v) (named b w) = (a == b) && same s v w
same s out out = true
same s (other a m) (other b n) = (a == b) && eqb m n
same s _ _ = false

-- The dynamic type's name, as `reflect.TypeOf` prints it.
unfoldable pub type_name : Value → String
type_name nil = "<nil>"
type_name (bool _) = "bool"
type_name (string _) = "string"
type_name (int _) = "int"
type_name (int32 _) = "int32"
type_name (int64 _) = "int64"
type_name (uint64 _) = "uint64"
type_name (float64 _) = "float64"
type_name (null_string _) = "sql.NullString"
type_name (null_string_ptr _ _) = "*sql.NullString"
type_name (time _) = "time.Time"
type_name (time_ptr _ _) = "*time.Time"
type_name (sql_value _) = "object.SQLValue"
type_name (sql_value_ptr _ _) = "*object.SQLValue"
type_name (gjson_result _) = "gjson.Result"
type_name (named _ _) = "sql.NamedArg"
type_name out = "sql.Out"
type_name (other t _) = t

abbrev pub is_nil : Value → Bool
is_nil nil = true
is_nil _ = false
