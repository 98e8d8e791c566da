-- ===== src/Core/Update/Lists.antt =====
-- The SET list of an UPDATE (adapters/core/update.go): how long it is, how many of its entries are
-- blank, and which changes it leaves out.
use text.Mathlib.TextLemmas.{append-eq-nil_iff}
use dyndao.Base.{
  ℕ, zero, suc, ◌+◌, ◌-◌, ◌≤◌, ◌<◌, String, ◌<>◌, ◌≡◌, refl, ◌≢◌, Bool, true, false, none, some,
  List, [], ◌∷◌, length, replicate, length-replicate, length-map, ap, eqb, arith, ◌==◌, eq_iff,
  if◌then◌else◌, Option-cases, Bool-cases, inl, inr, ltb,
}
use dyndao.Base.Map.{Map, keys}
use dyndao.Base.Outcome.{Outcome, ok, err, panic, ◌>>=◌}
use dyndao.Value.{Value, nil, Std}
use dyndao.Schema.{Column, Table, get_column}
use dyndao.Object.{Object}
use dyndao.SqlGen.{Generator}
use dyndao.Core.Update.{
  sql_value_convert, set_column, set_list, update_lists, entries_of, changed_entries, numbered,
}

-- How many keys name identity columns
abbrev pub identity_count : Table → List String → ℕ
identity_count t [] = 0
identity_count t (k ∷ ks) =
    elim (get_column t k) [ none ↦ 0 | some f ↦ if f.is_identity then 1 else 0 ]
    + identity_count t ks

-- How many entries of a SET list are empty texts
abbrev pub blanks : List String → ℕ
blanks [] = 0
blanks (n ∷ ns) = (if n == "" then 1 else 0) + blanks ns

not_blank : (a b : String) → (b == "") ≡ false → ((a <> b) == "") ≡ false
not_blank a b h = ground (arith, eq_iff (a <> b) "", eq_iff b "", append-eq-nil_iff {p = a} {q = b})

equals_not_blank : (a b : String) → ((a <> " = " <> b) == "") ≡ false
equals_not_blank a b =
    not_blank a (" = " <> b) (
      ground
        (arith, eq_iff (" = " <> b) "", eq_iff " = " "", append-eq-nil_iff {p = " = "} {q = b}))

-- What a column contributes is no empty text.
abbrev Filled : Outcome (String × Value) → Type 0
Filled (ok (text, arg)) = (text == "") ≡ false
Filled (err e) = Unit
Filled (panic p) = Unit

set_column-Filled :
    (s : Std) (g : Generator) (f : Column) (ph : String) (v : Value)
    → Filled (set_column s g f ph v)
unfolding set_column
set_column-Filled s g f ph v = ground (
  arith,
  equals_not_blank f.name (sql_value_convert v).0,
  equals_not_blank f.name ph,
  not_blank f.name " = NULL" refl,
)

blanks-replicate : (n : ℕ) → blanks (replicate n "") ≡ n
blanks-replicate zero = refl
blanks-replicate (suc n) = omega (arith, blanks-replicate n)

-- The shape of a SET list over `n` entries that was filled from index `i` on.
abbrev Shaped : Table → ℕ → ℕ → List String → Outcome (List String × List Value) → Type 0
Shaped t n i ks (ok (texts, args)) =
    (length texts + i ≡ n)
    × (length args + i ≡ n)
    × (blanks texts + length ks + i ≡ n + identity_count t ks)
Shaped t n i ks (err e) = Unit
Shaped t n i ks (panic p) = Unit

module _ (t : Table) (n i : ℕ) (k : String) (ks : List String) (f : Column)
    (found : get_column t k ≡ some f) where
  Shaped-skip :
      (r : Outcome (List String × List Value))
      → f.is_identity ≡ true
      → Shaped t n i ks r
      → Shaped t n i (k ∷ ks) r
  Shaped-skip (ok (texts, args)) id h = (h.0, h.1, rw (found, id) (omega arith))
  Shaped-skip (err e) id h = tt
  Shaped-skip (panic p) id h = tt

  Shaped-put :
      (text : String) (arg : Value) (r : Outcome (List String × List Value))
      → f.is_identity ≡ false
      → (text == "") ≡ false
      → Shaped t n (suc i) ks r
      → Shaped t n i (k ∷ ks) (r >>= λ (texts, args). ok (text ∷ texts, arg ∷ args))
  Shaped-put text arg (ok (texts, args)) id filled h = rw (found, id, filled) (omega arith)
  Shaped-put text arg (err e) id filled h = tt
  Shaped-put text arg (panic p) id filled h = tt

  Shaped-fill :
      (m : Outcome (String × Value)) (r : Outcome (List String × List Value))
      → f.is_identity ≡ false
      → Filled m
      → (i < n → Shaped t n (suc i) ks r)
      → Shaped t n i (k ∷ ks) (
          m >>= λ (text, arg).
          (if ltb i n then r else panic "index out of range") >>= λ (texts, args).
          ok (text ∷ texts, arg ∷ args))
  Shaped-fill (err e) r id filled h = tt
  Shaped-fill (panic p) r id filled h = tt
  Shaped-fill (ok (text, arg)) r id filled h = elim (Bool-cases (ltb i n)) [
    | inl below ↦ rw (below, ◌>>=◌) (Shaped-put text arg r id filled (h (ground arith)))
    | inr above ↦ rw above tt
  ]

  Shaped-column :
      (b : Bool) (m : Outcome (String × Value)) (skipped r : Outcome (List String × List Value))
      → f.is_identity ≡ b
      → Filled m
      → Shaped t n i ks skipped
      → (i < n → Shaped t n (suc i) ks r)
      → Shaped t n i (k ∷ ks) (
          if b
          then skipped
          else (m >>= λ (text, arg).
              (if ltb i n then r else panic "index out of range") >>= λ (texts, args).
              ok (text ∷ texts, arg ∷ args)))
  Shaped-column true m skipped r id filled h hs = Shaped-skip skipped id h
  Shaped-column false m skipped r id filled h hs = Shaped-fill m r id filled hs

module _ (s : Std) (g : Generator) (t : Table) (name : String) (ph : Column → ℕ → String)
    (n : ℕ) where
  set_list-Shaped :
      (i : ℕ) (m : Map Value) → i ≤ n → Shaped t n i (keys m) (set_list s g t name ph n i m)
  unfolding set_list
  set_list-Shaped i [] le = omega (
    arith,
    length-replicate {A = String} (n - i) "",
    length-replicate {A = Value} (n - i) nil,
    blanks-replicate (n - i),
  )
  set_list-Shaped i ((k, v) ∷ m) le = elim (Option-cases (get_column t k)) [
    | inl missing ↦ rw (missing, Shaped, set_list) tt
    | inr (f, found) ↦
        rw (found, set_list)
          (Shaped-column t n i k (keys m) f found f.is_identity (set_column s g f (ph f i) v)
            (set_list s g t name ph n i m) (set_list s g t name ph n (suc i) m) refl
            (set_column-Filled s g f (ph f i) v) (set_list-Shaped i m le)
            (λ lt. set_list-Shaped (suc i) m lt))
  ]

length-keys : (m : Map Value) → length (keys m) ≡ length m
length-keys m = length-map (λ e. e.0) m

keys-entries_of : (o : Object) (ks : List String) → keys (entries_of o ks) ≡ ks
keys-entries_of o [] = refl
keys-entries_of o (k ∷ ks) = ap (λ r. k ∷ r) (keys-entries_of o ks)

keys-changed_entries : (o : Object) → keys (changed_entries o) ≡ keys o.changed_columns
keys-changed_entries o = keys-entries_of o (keys o.changed_columns)

pub length_pos {ℓ} : {A : Type ℓ} (xs : List A) → xs ≢ [] → ltb 0 (length xs) ≡ true
length_pos [] h = absurd (h refl)
length_pos (x ∷ xs) h = ground arith

-- A SET list that is built for an object with changed columns has one entry for each of them, of
-- which exactly those of identity columns are blank.
pub changed_update_blanks :
    (s : Std) (g : Generator) (t : Table) (o : Object) (texts : List String) (args : List Value)
    → o.changed_columns ≢ []
    → update_lists s g t o ≡ ok (texts, args)
    → (length texts ≡ length o.changed_columns)
      × (length args ≡ length o.changed_columns)
      × (blanks texts ≡ identity_count t (keys o.changed_columns))
unfolding update_lists
changed_update_blanks s g t o texts args some_changed built =
    let n = length o.changed_columns in
    let shaped =
      set_list-Shaped s g t o.object_type g.render_binding_value_with_int n 0 (changed_entries o)
        (omega arith) in
    let run = rw (length_pos o.changed_columns some_changed, update_lists) at built in
    let result = rw (run, keys-changed_entries o) at shaped in
    omega (arith, result, length-keys o.changed_columns)

-- A SET list that is built for an object without recorded changes has one entry less than the
-- object has keys, and one blank less than identity columns among them: it is built only if there
-- is one, and is free of blanks only if there is no second.
pub full_update_blanks :
    (s : Std) (g : Generator) (t : Table) (o : Object) (texts : List String) (args : List Value)
    → o.changed_columns ≡ []
    → update_lists s g t o ≡ ok (texts, args)
    → (length texts + 1 ≡ length o.kv)
      × (length args + 1 ≡ length o.kv)
      × (blanks texts + 1 ≡ identity_count t (keys o.kv))
unfolding update_lists
full_update_blanks s g t o texts args none_changed built =
    let clean : ltb 0 (length o.changed_columns) ≡ false =
      ap (λ c. ltb 0 (length c)) none_changed in
    elim (Bool-cases (eqb (length o.kv) 0)) [
      | inl empty ↦ cc (rw (clean, empty, update_lists) at built)
      | inr filled ↦
          let n = length o.kv - 1 in
          let shaped = set_list-Shaped s g t o.object_type (numbered g) n 0 o.kv (omega arith) in
          let result = rw (rw (clean, filled, update_lists) at built) at shaped in
          ground (arith, result, length-keys o.kv)
    ]
