-- ===== src/Examples/Documents.antt =====
-- The JSON texts of two Booleans under one name (jsonmapper/experiments), of which there are nine, and
-- paths into them.
use mathlib.Core.Option as Option
use dyndao.Base.{
  String, ◌<>◌, Bool, true, false, ◌||◌, Option, none, some, List, [], ◌∷◌, ◌≡◌, ◌≢◌, ◌⊎◌, refl,
  sym, inl, inr, map, ◌==◌, if◌then◌else◌, arith,
}
use dyndao.Base.Outcome.{Outcome, ok, err, message}
use dyndao.Value.{Value, bool}
use dyndao.Jsonmapper.Experiments.Paths.{Packages}
use dyndao.Jsonmapper.Experiments.Laws.{PathLaws}

abbrev pub bool_text : Bool → String
bool_text true = "true"
bool_text false = "false"

abbrev pub text_of : Option Bool → Option Bool → String
text_of none none = "{}"
text_of (some a) none = "{\"people\":{\"active\":" <> bool_text a <> "}}"
text_of none (some b) = "{\"people\":{\"admin\":" <> bool_text b <> "}}"
text_of (some a) (some b) =
    "{\"people\":{\"active\":" <> bool_text a <> ",\"admin\":" <> bool_text b <> "}}"

abbrev pub is_any : String → List String → Bool
is_any json [] = false
is_any json (t ∷ ts) = (json == t) || is_any json ts

abbrev pub options : List (Option Bool)
options = none ∷ some true ∷ some false ∷ []

abbrev pub active_of : String → Option Bool
active_of json =
    if is_any json (map (text_of (some true)) options)
    then some true
    else if is_any json (map (text_of (some false)) options)
    then some false
    else none

abbrev pub admin_of : String → Option Bool
admin_of json =
    if is_any json (map (λ a. text_of a (some true)) options)
    then some true
    else if is_any json (map (λ a. text_of a (some false)) options)
    then some false
    else none

active_of-text_of : (a b : Option Bool) → active_of (text_of a b) ≡ a
active_of-text_of none none = refl
active_of-text_of none (some true) = refl
active_of-text_of none (some false) = refl
active_of-text_of (some true) none = refl
active_of-text_of (some true) (some true) = refl
active_of-text_of (some true) (some false) = refl
active_of-text_of (some false) none = refl
active_of-text_of (some false) (some true) = refl
active_of-text_of (some false) (some false) = refl

admin_of-text_of : (a b : Option Bool) → admin_of (text_of a b) ≡ b
admin_of-text_of none none = refl
admin_of-text_of none (some true) = refl
admin_of-text_of none (some false) = refl
admin_of-text_of (some true) none = refl
admin_of-text_of (some true) (some true) = refl
admin_of-text_of (some true) (some false) = refl
admin_of-text_of (some false) none = refl
admin_of-text_of (some false) (some true) = refl
admin_of-text_of (some false) (some false) = refl

abbrev pub get_path : String → String → Option Value
get_path json path =
    if path == "people.active"
    then Option.map bool (active_of json)
    else if path == "people.admin"
    then Option.map bool (admin_of json)
    else none

abbrev pub set_path : String → String → Value → Outcome String
set_path json path (bool b) =
    if path == "people.active"
    then ok (text_of (some b) (admin_of json))
    else if path == "people.admin"
    then ok (text_of (active_of json) (some b))
    else err (message "no such path")
set_path json path v = err (message "no such value")

abbrev pub go : Packages
go = record {
  set_path = set_path;
  set_raw = λ json path raw. ok (if raw == "{}" then json else "");
  get_many = λ json paths. map (get_path json) paths;
  print_array = λ v. "[]";
  print_child_table = λ v. "{}";
}

abbrev pub IsText : String → Type 0
IsText json = (a : Option Bool) × (b : Option Bool) × (json ≡ text_of a b)

abbrev pub IsName : String → Type 0
IsName name = (name ≡ "active") ⊎ (name ≡ "admin")

abbrev pub Written : String → String → Value → Type 0
Written json name v =
    (after : String) × (set_path json (("people" <> ".") <> name) v ≡ ok after)
    × IsText after
    × (get_path after ("people" <> "." <> name) ≡ some v)
    × ((apart : String)
        → IsName apart
        → name ≢ apart
        → get_path after ("people" <> "." <> apart) ≡ get_path json ("people" <> "." <> apart))

active-Written : (a b : Option Bool) (c : Bool) → Written (text_of a b) "active" (bool c)
active-Written a b c = (
  text_of (some c) b,
  rw (admin_of-text_of a b) refl,
  (some c, b, refl),
  rw (active_of-text_of (some c) b) refl,
  λ apart name differ. elim name [
    | inl same ↦ absurd (differ (sym same))
    | inr same ↦ rw (same, admin_of-text_of (some c) b, admin_of-text_of a b) refl
  ],
)

admin-Written : (a b : Option Bool) (c : Bool) → Written (text_of a b) "admin" (bool c)
admin-Written a b c = (
  text_of a (some c),
  rw (active_of-text_of a b) refl,
  (a, some c, refl),
  rw (admin_of-text_of a (some c)) refl,
  λ apart name differ. elim name [
    | inl same ↦ rw (same, active_of-text_of a (some c), active_of-text_of a b) refl
    | inr same ↦ absurd (differ (sym same))
  ],
)

pub either-Written :
    (json name : String) (v : Value)
    → IsText json
    → IsName name
    → (c : Bool) × (v ≡ bool c)
    → Written json name v
either-Written json name v (a, b, is_text) (inl same) (c, is_bool) =
    rw (is_text, same, is_bool) (active-Written a b c)
either-Written json name v (a, b, is_text) (inr same) (c, is_bool) =
    rw (is_text, same, is_bool) (admin-Written a b c)

pub get_empty : (path : String) → get_path "{}" path ≡ none
get_empty path = ground arith

abbrev pub go_laws : PathLaws go "people"
go_laws = record {
  get = get_path;
  decoded = λ v. v;
  IsDocument = IsText;
  IsPlain = IsName;
  IsKept = λ v. (c : Bool) × (v ≡ bool c);
  get_each = λ json paths. refl;
  empty_document = (none, none, refl);
  get_empty = get_empty;
  set_found = either-Written;
}
