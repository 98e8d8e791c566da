-- ===== src/Adapters/Common.antt =====
-- adapters/common/render_create_column.go
use dyndao.Base.{String, ◌<>◌, Bool, false, Option, none, some, [], ◌∷◌, join, ltb, if◌then◌else◌}
use dyndao.Base.Int.{ℤ, pos, negsuc}
use dyndao.Value.{Std, format_int}
use dyndao.Schema.{Column}

-- `x > 0`
abbrev pub is_positive : ℤ → Bool
is_positive (pos n) = ltb 0 n
is_positive (negsuc n) = false

-- `fmt.Sprintf("%s(%d)", dataType, f.Length)` where the column has a length
abbrev pub with_length : Column → String → String
with_length f data_type =
    if is_positive f.length then data_type <> "(" <> format_int f.length <> ")" else data_type

unfoldable pub render_create_column : Std → Column → String → Option (String → String) → String
render_create_column s f identity_str map_type =
    let upper = s.to_upper f.db_type in
    let identity : String = if f.is_identity then identity_str else "" in
    let not_null : String = if f.allow_null then "NULL" else "NOT NULL" in
    let mapped : String = elim map_type [ none ↦ upper | some m ↦ m upper ] in
    let unique : String = if f.is_unique then "UNIQUE" else "" in
    join (f.name ∷ with_length f mapped ∷ identity ∷ not_null ∷ unique ∷ []) " "
