-- ===== src/Migrator/Types.antt =====
-- The column types that examples/migrator/main.go leaves.
use dyndao.Base.Map.{Map, entries}
use dyndao.Base.{
  List, [], ◌∷◌, map, All, Option, none, some, ap, String, ◌≡◌, ◌≢◌, refl, false, ◌==◌, eq_iff,
  arith, Bool-cases, inl, inr,
}
use dyndao.Value.{Std}
use dyndao.Schema.{Column, Table, Schema}
use dyndao.Migrator.{translate_column, translate_columns, translate_table, translate}

-- strings.ToUpper on the types that columns get
pub record KeepsUpper (s : Std) : Type 0 where
  pub upper_varchar : s.to_upper "VARCHAR" ≡ "VARCHAR"
  pub upper_integer : s.to_upper "INTEGER" ≡ "INTEGER"
  pub upper_datetime : s.to_upper "DATETIME" ≡ "DATETIME"
  pub upper_text : s.to_upper "TEXT" ≡ "TEXT"

-- No type that the migrator looks for
abbrev pub IsTranslated : Std → Column → Type 0
IsTranslated s f =
    (s.to_upper f.db_type ≢ "VARCHAR2")
    × (s.to_upper f.db_type ≢ "NUMBER")
    × (f.db_type ≢ "TIMESTAMP")
    × (f.db_type ≢ "CLOB")

differs : (a b : String) → (a == b) ≡ false → a ≢ b
differs a b apart = ground (arith, eq_iff a b)

is_not : (a b : String) → a ≢ b → (a == b) ≡ false
is_not a b apart = ground (arith, eq_iff a b)

-- A type that upper-casing leaves alone
settled-IsTranslated :
    (s : Std) (f : Column) (t : String)
    → s.to_upper t ≡ t
    → (t == "VARCHAR2") ≡ false
    → (t == "NUMBER") ≡ false
    → (t == "TIMESTAMP") ≡ false
    → (t == "CLOB") ≡ false
    → f.db_type ≡ t
    → IsTranslated s f
settled-IsTranslated s f t upper a b c d e =
    rw (e, upper)
      (differs t "VARCHAR2" a, differs t "NUMBER" b, differs t "TIMESTAMP" c, differs t "CLOB" d)

translated_again : (s : Std) (f : Column) → IsTranslated s f → translate_column s f ≡ f
unfolding translate_column
translated_again s f (a, b, c, d) = rw (
  is_not (s.to_upper f.db_type) "VARCHAR2" a,
  is_not (s.to_upper f.db_type) "NUMBER" b,
  is_not f.db_type "TIMESTAMP" c,
  is_not f.db_type "CLOB" d,
)

module _ (s : Std) (f : Column) (upper : KeepsUpper s) where
  translated : IsTranslated s (translate_column s f)
  unfolding translate_column
  translated = elim (Bool-cases (s.to_upper f.db_type == "VARCHAR2")) [
    | inl string_type ↦
        settled-IsTranslated s (translate_column s f) "VARCHAR" upper.upper_varchar refl refl refl
          refl (rw (string_type, upper.upper_varchar))
    | inr no_string ↦ elim (Bool-cases (s.to_upper f.db_type == "NUMBER")) [
      | inl number_type ↦
          settled-IsTranslated s (translate_column s f) "INTEGER" upper.upper_integer refl refl refl
            refl (rw (no_string, number_type))
      | inr no_number ↦ elim (Bool-cases (f.db_type == "TIMESTAMP")) [
        | inl time_type ↦
            settled-IsTranslated s (translate_column s f) "DATETIME" upper.upper_datetime refl refl
              refl refl (rw (no_string, no_number, time_type))
        | inr no_time ↦ elim (Bool-cases (f.db_type == "CLOB")) [
          | inl lob_type ↦
              settled-IsTranslated s (translate_column s f) "TEXT" upper.upper_text refl refl refl
                refl (rw (no_string, no_number, no_time, lob_type))
          | inr no_lob ↦
              rw (no_string, no_number, no_time, no_lob)
                (
                  differs (s.to_upper f.db_type) "VARCHAR2" no_string,
                  differs (s.to_upper f.db_type) "NUMBER" no_number,
                  differs f.db_type "TIMESTAMP" no_time,
                  differs f.db_type "CLOB" no_lob,
                )
        ]
      ]
    ]
  ]

  translate_column-IsTranslated :
      IsTranslated s (translate_column s f)
      × (translate_column s (translate_column s f) ≡ translate_column s f)
  translate_column-IsTranslated = (translated, translated_again s (translate_column s f) translated)

map-each :
    {A B : Type 0} (P : B → Type 0) (f : A → B) (g : B → B) (xs : List A)
    → ((x : A) → P (f x) × (g (f x) ≡ f x))
    → All P (map f xs) × (map g (map f xs) ≡ map f xs)
map-each P f g [] each = (tt, refl)
map-each P f g (x ∷ xs) each =
    let rest = map-each P f g xs each in (((each x).0, rest.0), cc ((each x).1, rest.1))

-- Every column of the table
abbrev pub AllTranslated : Std → Table → Type 0
AllTranslated s t = All (λ c. IsTranslated s c.1) (entries t.columns)

module _ (s : Std) (upper : KeepsUpper s) where
  columns-IsTranslated :
      (columns : Option (Map Column))
      → All (λ c. IsTranslated s c.1) (entries (translate_columns s columns))
        × (translate_columns s (translate_columns s columns) ≡ translate_columns s columns)
  columns-IsTranslated none = (tt, refl)
  columns-IsTranslated (some cols) =
      let again : String × Column → String × Column = λ (k, f). (k, translate_column s f) in
      let each =
        map-each (λ c. IsTranslated s c.1) again again cols
          (λ (k, f).
            let (holds, same) = translate_column-IsTranslated s f upper in
            (holds, ap (λ f'. (k, f')) same)) in
      (each.0, ap some each.1)

  -- With a ToUpper that leaves the MySQL types as they are, no column of a translated schema has one
  -- of the Oracle types that the migrator looks for, whatever its columns had before, and translating
  -- the schema again changes nothing.
  pub translate-AllTranslated :
      (sch : Schema)
      → All (λ e. AllTranslated s e.1) (translate s sch).tables
        × (translate s (translate s sch) ≡ translate s sch)
  unfolding translate
  translate-AllTranslated sch =
      let again : String × Table → String × Table = λ (k, t). (k, translate_table s t) in
      let each =
        map-each (λ e. AllTranslated s e.1) again again sch.tables
          (λ (k, t).
            let (holds, same) = columns-IsTranslated t.columns in
            (holds, ap (λ columns. (k, record t { columns = columns })) same)) in
      (each.0, ap (λ tables. record sch { tables = tables }) each.1)
