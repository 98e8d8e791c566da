-- ===== src/Core/Columns/Fit.antt =====
-- The two chains of tests in adapters/core/setter.go fit each other where the type classes are
-- disjoint: what MakeColumnPointers allocates, DynamicObjectSetter can read.
use dyndao.Base.{
  ℕ, String, ◌≡◌, refl, Bool, true, some, List, [], ◌∷◌, ◌++◌, length, arith, if◌then◌else◌,
}
use dyndao.Base.Outcome.{Outcome, ok, err, panic, Succeeds, Succeeds-eq, ◌>>=◌}
use dyndao.Value.{Value, Std}
use dyndao.Object.{Object}
use dyndao.SqlGen.{Classes, ColumnType, Dest}
use dyndao.Adapters.Disjoint.{AreDisjoint}
use dyndao.Core.Columns.{
  column_value, column_pointer, make_column_pointers, dynamic_object_setter, set_if,
}

-- `Scan` writes through a pointer: its type stays, whatever value arrives.
abbrev pub SameType : Dest → Dest → Type 0
SameType Dest.nothing Dest.nothing = Unit
SameType (Dest.string _) (Dest.string _) = Unit
SameType (Dest.null_string _) (Dest.null_string _) = Unit
SameType (Dest.int64 _) (Dest.int64 _) = Unit
SameType (Dest.null_int64 _) (Dest.null_int64 _) = Unit
SameType (Dest.float64 _) (Dest.float64 _) = Unit
SameType (Dest.null_float64 _) (Dest.null_float64 _) = Unit
SameType (Dest.time _) (Dest.time _) = Unit
SameType (Dest.lob _) (Dest.lob _) = Unit
SameType _ _ = ⊥

abbrev pub Scanned : List Dest → List Dest → Type 0
Scanned [] [] = Unit
Scanned (d ∷ ds) (e ∷ es) = SameType d e × Scanned ds es
Scanned _ _ = ⊥

module _ (c : Classes) (dis : AreDisjoint c) (ct : ColumnType) where
  column_fits :
      (d e : Dest) → column_pointer c ct ≡ ok d → SameType d e → Succeeds (column_value c ct e)
  unfolding column_value column_pointer
  column_fits d e made same_type = ground (
    arith,
    dis.time_string ct.database_type_name,
    dis.time_number ct.database_type_name,
    dis.time_lob ct.database_type_name,
    dis.string_number ct.database_type_name,
    dis.string_lob ct.database_type_name,
    dis.number_lob ct.database_type_name,
    dis.float_number ct.database_type_name,
    dis.float_time ct.database_type_name,
    dis.float_string ct.database_type_name,
    dis.float_lob ct.database_type_name,
  )

-- Two results in a row that make a list.
cons-eq-ok :
    (m : Outcome Dest) (n : Outcome (List Dest)) {d : Dest} {ds : List Dest}
    → (m >>= λ a. n >>= λ as'. ok (a ∷ as')) ≡ ok (d ∷ ds)
    → (m ≡ ok d) × (n ≡ ok ds)
cons-eq-ok m n h = ground arith

Succeeds-bind {ℓ κ} :
    {A : Type ℓ} {B : Type κ} (m : Outcome A) (f : A → Outcome B) → Succeeds (m >>= f) → Succeeds m
Succeeds-bind (ok a) f h = tt
Succeeds-bind (err e) f h = h
Succeeds-bind (panic t) f h = h

Succeeds-cons :
    (m : Outcome Dest) (n : Outcome (List Dest))
    → Succeeds (m >>= λ a. n >>= λ as'. ok (a ∷ as'))
    → Succeeds n
Succeeds-cons (ok a) n h = Succeeds-bind n _ h
Succeeds-cons (err e) n h = absurd h
Succeeds-cons (panic t) n h = absurd h

module _ (s : Std) (c : Classes) (dis : AreDisjoint c) where
  fit_from :
      (names : List String) (cts : List ColumnType) (ds es : List Dest) (o : Object)
      → make_column_pointers c (length names) cts ≡ ok ds
      → Scanned ds es
      → (o' : Object) × (dynamic_object_setter s c names es cts o ≡ ok o')
  unfolding make_column_pointers dynamic_object_setter
  fit_from [] cts [] [] o made scanned = (o, refl)
  fit_from [] cts [] (e ∷ es) o made scanned = absurd scanned
  fit_from [] cts (d ∷ ds) es o made scanned = cc
  fit_from (k ∷ names) [] ds es o made scanned = cc
  fit_from (k ∷ names) (ct ∷ cts) [] es o made scanned = ground arith
  fit_from (k ∷ names) (ct ∷ cts) (d ∷ ds) [] o made scanned = absurd scanned
  fit_from (k ∷ names) (ct ∷ cts) (d ∷ ds) (e ∷ es) o made scanned =
      let (md, mds) =
        cons-eq-ok (column_pointer c ct) (make_column_pointers c (length names) cts) made in
      let (v, read) = Succeeds-eq (column_value c ct e) (column_fits c dis ct d e md scanned.0) in
      let (o', rest) = fit_from names cts ds es (set_if s k v o) mds scanned.1 in (o', rw read rest)

-- Where no type name is in two classes, the pointers that MakeColumnPointers makes for a result set
-- are read by DynamicObjectSetter without error or panic, whatever row was scanned through them,
-- if there is a column name for each.
pub pointers_fit :
    (s : Std) (c : Classes) (names : List String) (cts : List ColumnType) (ds es : List Dest)
    (o : Object)
    → AreDisjoint c
    → make_column_pointers c (length names) cts ≡ ok ds
    → Scanned ds es
    → (o' : Object) × (dynamic_object_setter s c names es cts o ≡ ok o')
pointers_fit s c names cts ds es o dis made scanned =
    fit_from s c dis names cts ds es o made scanned

module _ (c : Classes) (dis : AreDisjoint c) (name : String)
    (is_float : c.is_floating_type name ≡ true) where
  float_pointer_fails :
      (nullable : Bool)
      → ¬ Succeeds (column_pointer c (record { database_type_name = name; nullable = nullable }))
  unfolding column_pointer
  float_pointer_fails nullable h =
      ground (
        arith,
        dis.float_number name,
        dis.float_time name,
        dis.float_string name,
        dis.float_lob name,
      )

  float_pointers_fail :
      (before after : List ColumnType) (nullable : Bool)
      → let cts = before ++ record { database_type_name = name; nullable = nullable } ∷ after in
        ¬ Succeeds (make_column_pointers c (length cts) cts)
  unfolding make_column_pointers
  float_pointers_fail [] after nullable h = float_pointer_fails nullable (Succeeds-bind _ _ h)
  float_pointers_fail (ct ∷ before) after nullable h =
      float_pointers_fail before after nullable (Succeeds-cons (column_pointer c ct) _ h)

  -- Where no type name is in two classes, a result set with a column of a floating type makes
  -- MakeColumnPointers fail, although DynamicObjectSetter reads such a column.
  pub floats_rejected :
      (before after : List ColumnType) (nullable : Bool) (x : ℕ)
      → let ct : ColumnType = record { database_type_name = name; nullable = nullable } in
        let cts = before ++ ct ∷ after in
        (¬ Succeeds (make_column_pointers c (length cts) cts))
        × (column_value c ct (if nullable then Dest.null_float64 (some x) else Dest.float64 x)
            ≡ ok (some (Value.float64 x)))
  unfolding column_value
  floats_rejected before after nullable x = (
    float_pointers_fail before after nullable,
    ground (arith, dis.float_number name, dis.float_time name, dis.float_string name),
  )
