-- ===== src/Core/Columns/Typed.antt =====
-- The types of the values that adapters/core/setter.go puts into an object.
use dyndao.Base.{
  ℕ, String, ◌≡◌, refl, Bool, true, false, Option, none, some, ◌⊎◌, inl, inr, List, [], ◌∷◌, All,
  arith,
}
use dyndao.Base.Map.{Map}
use dyndao.Base.Entries.{All-insert}
use dyndao.Base.Int.{ℤ}
use dyndao.Base.Outcome.{Outcome, panic, OnOk, OnOk-if, OnOk-each, OnOk-then}
use dyndao.Value.{Value, Std, Time, NullString}
use dyndao.Object.{Object, set, set_core}
use dyndao.SqlGen.{Classes, ColumnType, Dest}
use dyndao.Core.Columns.{
  column_value, dynamic_object_setter, set_if, as_time, as_text, as_number, as_float,
}

-- A value of the type that belongs to a column: its class decides, the earlier one if the type's name
-- is in several, and whether the column may be NULL.
pub data HasColumnType (c : Classes) (ct : ColumnType) : Value → Type 0 where
  timestamp :
      (t : Time)
      → c.is_timestamp_type ct.database_type_name ≡ true
      → HasColumnType c ct (Value.time t)
  text :
      (t : String)
      → ct.nullable ≡ false
      → (c.is_string_type ct.database_type_name ≡ true)
        ⊎ (c.is_lob_type ct.database_type_name ≡ true)
      → HasColumnType c ct (Value.string t)
  nullable_text :
      (t : NullString)
      → ct.nullable ≡ true
      → (c.is_string_type ct.database_type_name ≡ true)
        ⊎ (c.is_lob_type ct.database_type_name ≡ true)
      → HasColumnType c ct (Value.null_string t)
  number :
      (n : ℤ) → c.is_number_type ct.database_type_name ≡ true → HasColumnType c ct (Value.int64 n)
  floating :
      (x : ℕ)
      → c.is_floating_type ct.database_type_name ≡ true
      → HasColumnType c ct (Value.float64 x)

-- The value has the type of a column of that name.
pub data Belongs (c : Classes) (k : String) (v : Value)
    : List String → List ColumnType → Type 0 where
  here :
      {ct : ColumnType} {names : List String} {cts : List ColumnType}
      → HasColumnType c ct v
      → Belongs c k v (k ∷ names) (ct ∷ cts)
  there :
      {j : String} {ct : ColumnType} {names : List String} {cts : List ColumnType}
      → Belongs c k v names cts
      → Belongs c k v (j ∷ names) (ct ∷ cts)

module _ (s : Std) (c : Classes) where
  -- What a pointer contributes has its column's type.
  abbrev Fits : ColumnType → Option Value → Type 0
  Fits ct none = Unit
  Fits ct (some v) = HasColumnType c ct v

  as_time-Fits :
      (ct : ColumnType) (d : Dest)
      → c.is_timestamp_type ct.database_type_name ≡ true
      → OnOk (Fits ct) (as_time d)
  as_time-Fits ct (Dest.time t) is_time = timestamp t is_time
  as_time-Fits ct _ is_time = tt

  as_text-Fits :
      (ct : ColumnType) (nullable : Bool) (d : Dest)
      → ct.nullable ≡ nullable
      → (c.is_string_type ct.database_type_name ≡ true)
        ⊎ (c.is_lob_type ct.database_type_name ≡ true)
      → OnOk (Fits ct) (as_text nullable d)
  as_text-Fits ct true (Dest.null_string t) nulls is_text = nullable_text t nulls is_text
  as_text-Fits ct false (Dest.string t) nulls is_text = text t nulls is_text
  as_text-Fits ct true _ nulls is_text = tt
  as_text-Fits ct false _ nulls is_text = tt

  as_number-Fits :
      (ct : ColumnType) (nullable : Bool) (d : Dest)
      → c.is_number_type ct.database_type_name ≡ true
      → OnOk (Fits ct) (as_number nullable d)
  as_number-Fits ct true (Dest.null_int64 none) is_number = tt
  as_number-Fits ct true (Dest.null_int64 (some n)) is_number = number n is_number
  as_number-Fits ct false (Dest.int64 n) is_number = number n is_number
  as_number-Fits ct true _ is_number = tt
  as_number-Fits ct false _ is_number = tt

  as_float-Fits :
      (ct : ColumnType) (nullable : Bool) (d : Dest)
      → c.is_floating_type ct.database_type_name ≡ true
      → OnOk (Fits ct) (as_float nullable d)
  as_float-Fits ct true (Dest.null_float64 none) is_float = tt
  as_float-Fits ct true (Dest.null_float64 (some x)) is_float = floating x is_float
  as_float-Fits ct false (Dest.float64 x) is_float = floating x is_float
  as_float-Fits ct true _ is_float = tt
  as_float-Fits ct false _ is_float = tt

  column_value-Fits : (ct : ColumnType) (d : Dest) → OnOk (Fits ct) (column_value c ct d)
  unfolding column_value
  column_value-Fits ct d = OnOk-if (Fits ct) _ _ _ (as_time-Fits ct d) λ not_time.
      OnOk-if (Fits ct) _ _ _ (λ is_text. as_text-Fits ct ct.nullable d refl (inl is_text))
        λ not_text. OnOk-if (Fits ct) _ _ _ (as_number-Fits ct ct.nullable d) λ not_number.
          OnOk-if (Fits ct) _ _ _ (as_float-Fits ct ct.nullable d) λ not_float.
            OnOk-if (Fits ct) _ _ _ (λ is_lob. as_text-Fits ct ct.nullable d refl (inr is_lob))
              λ not_lob. tt

  -- Each value of the object has the type of a column of its name.
  abbrev pub AllBelong : List String → List ColumnType → Map Value → Type 0
  AllBelong names cts = All (λ (k, v). Belongs c k v names cts)

  module _ (P : String × Value → Type 0) where
    abbrev Holds : Object → Type 0
    Holds o = All P o.kv

    set-Holds : (k : String) (v : Value) (o : Object) → Holds o → P (k, v) → Holds (set s k v o)
    unfolding set set_core
    set-Holds k v o holds fits = grind (arith, All-insert P k v o.kv fits holds)

    set_if-Holds :
        (k : String) (ct : ColumnType) (v : Option Value) (o : Object)
        → Holds o
        → ((w : Value) → HasColumnType c ct w → P (k, w))
        → Fits ct v
        → Holds (set_if s k v o)
    set_if-Holds k ct none o holds known fits = holds
    set_if-Holds k ct (some v) o holds known fits = set-Holds k v o holds (known v fits)

    -- A pointer without a column name
    unnamed-Holds :
        (v : Option Value) (r : Outcome Object)
        → OnOk Holds r
        → OnOk Holds (elim v [ none ↦ r | some w ↦ panic "index out of range" ])
    unnamed-Holds none r holds = holds
    unnamed-Holds (some w) r holds = tt

    setter-Holds :
        (names : List String) (ds : List Dest) (cts : List ColumnType) (o : Object)
        → Holds o
        → ((k : String) (v : Value) → Belongs c k v names cts → P (k, v))
        → OnOk Holds (dynamic_object_setter s c names ds cts o)
    unfolding dynamic_object_setter
    setter-Holds names [] cts o holds known = holds
    setter-Holds names (d ∷ ds) [] o holds known = tt
    setter-Holds [] (d ∷ ds) (ct ∷ cts) o holds known = OnOk-each Holds (column_value c ct d) _ λ v.
        unnamed-Holds v (dynamic_object_setter s c [] ds cts o)
          (setter-Holds [] ds cts o holds (λ k w belongs. elim belongs [ ]))
    setter-Holds (k ∷ names) (d ∷ ds) (ct ∷ cts) o holds known =
        OnOk-then Holds (Fits ct) (column_value c ct d) _ (column_value-Fits ct d) λ v fits.
          setter-Holds names ds cts (set_if s k v o)
            (set_if-Holds k ct v o holds (λ w typed. known k w (here typed)) fits)
            λ j w belongs. known j w (there belongs)

  -- What `DynamicObjectSetter` puts into an object without values
  pub setter-AllBelong :
      (names : List String) (ds : List Dest) (cts : List ColumnType) (o : Object)
      → o.kv ≡ []
      → OnOk (λ filled. AllBelong names cts filled.kv) (dynamic_object_setter s c names ds cts o)
  setter-AllBelong names ds cts o bare =
      setter-Holds (λ (k, v). Belongs c k v names cts) names ds cts o (rw bare tt)
        λ k v belongs. belongs
