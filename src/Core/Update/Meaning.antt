-- ===== src/Core/Update/Meaning.antt =====
-- What the SET list of an UPDATE (adapters/core/update.go) says, entry by entry.
use dyndao.Base.{
  ℕ, suc, ◌-◌, ◌<◌, String, ◌≡◌, refl, ◌≢◌, true, false, some, List, [], ◌∷◌, length, replicate,
  ltb, eqb, arith, if◌then◌else◌, Option-cases, Bool-cases, inl, inr, ap,
}
use dyndao.Base.Map.{Map, keys}
use dyndao.Base.Outcome.{Outcome, ok, panic, OnOk, OnOk-then, OnOk-weaken, OnOk-run, OnOk-if, ◌>>=◌}
use dyndao.Value.{Value, nil, Std}
use dyndao.Schema.{Column, Table, get_column}
use dyndao.Object.{Object, get}
use dyndao.SqlGen.{Generator}
use dyndao.Core.Update.{set_column, set_list, update_lists, entries_of, changed_entries, numbered}
use dyndao.Core.Update.Lists.{length_pos}
use dyndao.Core.Update.Saved.{Assigns, set_column-Assigns}

-- The entries of a SET list of length `n`, from index `i` on: every key names a column of the
-- table; an identity column has no entry, any other takes the next one; what is left stays blank.
pub data SetList (s : Std) (g : Generator) (t : Table) (placeholder : Column → ℕ → String) (n : ℕ)
    : ℕ → Map Value → List String × List Value → Type 0 where
  blank : {i : ℕ} → SetList s g t placeholder n i [] (replicate (n - i) "", replicate (n - i) nil)
  identity :
      {i : ℕ} {k : String} {v : Value} {m : Map Value} {lists : List String × List Value}
      → (f : Column) → get_column t k ≡ some f
      → f.is_identity ≡ true
      → SetList s g t placeholder n i m lists
      → SetList s g t placeholder n i ((k, v) ∷ m) lists
  assigned :
      {i : ℕ} {k text : String} {v arg : Value} {m : Map Value} {texts : List String}
      {args : List Value}
      → (f : Column) → get_column t k ≡ some f
      → f.is_identity ≡ false
      → i < n
      → Assigns s g f (placeholder f i) v (text, arg)
      → SetList s g t placeholder n (suc i) m (texts, args)
      → SetList s g t placeholder n i ((k, v) ∷ m) (text ∷ texts, arg ∷ args)

module _ (s : Std) (g : Generator) (t : Table) (name : String) (ph : Column → ℕ → String)
    (n : ℕ) where
  -- An entry that takes index `i`, in front of the rest
  put :
      (i : ℕ) (k : String) (v : Value) (m : Map Value) (f : Column)
      (r : Outcome (List String × List Value))
      → get_column t k ≡ some f
      → f.is_identity ≡ false
      → OnOk (SetList s g t ph n (suc i) m) r
      → OnOk (SetList s g t ph n i ((k, v) ∷ m)) (
          set_column s g f (ph f i) v >>= λ (text, arg).
          (if ltb i n then r else panic "index out of range") >>= λ (texts, args).
          ok (text ∷ texts, arg ∷ args))
  put i k v m f r found no_id rest =
      OnOk-then (SetList s g t ph n i ((k, v) ∷ m)) (Assigns s g f (ph f i) v)
        (set_column s g f (ph f i) v)
        (λ (text, arg). (if ltb i n then r else panic "index out of range") >>= λ (texts, args).
          ok (text ∷ texts, arg ∷ args))
        (OnOk-run (Assigns s g f (ph f i) v) (set_column s g f (ph f i) v)
          (λ (text, arg) built. set_column-Assigns s g f (ph f i) text arg v built))
        λ (text, arg) assigns. elim (Bool-cases (ltb i n)) [
          | inl below ↦
              rw (below, ◌>>=◌)
                (OnOk-then (SetList s g t ph n i ((k, v) ∷ m)) (SetList s g t ph n (suc i) m) r
                  (λ (texts, args). ok (text ∷ texts, arg ∷ args)) rest
                  (λ (texts, args) others. assigned f found no_id (ground arith) assigns others))
          | inr above ↦ rw above tt
        ]

  set_list-SetList :
      (i : ℕ) (m : Map Value) → OnOk (SetList s g t ph n i m) (set_list s g t name ph n i m)
  unfolding set_list
  set_list-SetList i [] = blank
  set_list-SetList i ((k, v) ∷ m) = elim (Option-cases (get_column t k)) [
    | inl missing ↦ rw (missing, set_list) tt
    | inr (f, found) ↦
        let skipped = set_list s g t name ph n i m in
        let others = set_list s g t name ph n (suc i) m in
        rw (found, set_list)
          (OnOk-if (SetList s g t ph n i ((k, v) ∷ m)) f.is_identity skipped
            (set_column s g f (ph f i) v >>= λ (text, arg).
              (if ltb i n then others else panic "index out of range") >>= λ (texts, args).
              ok (text ∷ texts, arg ∷ args))
            (λ id.
              OnOk-weaken (SetList s g t ph n i m) (SetList s g t ph n i ((k, v) ∷ m)) skipped
                (λ lists rest. identity f found id rest) (set_list-SetList i m))
            (λ no_id. put i k v m f others found no_id (set_list-SetList (suc i) m)))
  ]

module _ (s : Std) (g : Generator) (t : Table) (o : Object) where
  changed-SetList :
      (lists : List String × List Value)
      → o.changed_columns ≢ []
      → update_lists s g t o ≡ ok lists
      → SetList s g t g.render_binding_value_with_int
          (length o.changed_columns)
          0
          (changed_entries o)
          lists
  unfolding update_lists
  changed-SetList lists some_changed built =
      let n = length o.changed_columns in
      let run = rw (length_pos o.changed_columns some_changed, update_lists) at built in
      rw run at (
        set_list-SetList s g t o.object_type g.render_binding_value_with_int n 0
          (changed_entries o))

  full-SetList :
      (lists : List String × List Value)
      → o.changed_columns ≡ []
      → update_lists s g t o ≡ ok lists
      → SetList s g t (numbered g) (length o.kv - 1) 0 o.kv lists
  unfolding update_lists
  full-SetList lists none_changed built =
      let clean : ltb 0 (length o.changed_columns) ≡ false =
        ap (λ c. ltb 0 (length c)) none_changed in
      elim (Bool-cases (eqb (length o.kv) 0)) [
        | inl empty ↦ cc (rw (clean, empty, update_lists) at built)
        | inr filled ↦
            rw (rw (clean, filled, update_lists) at built) at
              (set_list-SetList s g t o.object_type (numbered g) (length o.kv - 1) 0 o.kv)
      ]

-- The SET list over the changed columns of an object, or over all its values where none is changed
abbrev pub SetListOver :
    Std → Generator → Table → Object → Map Value → List String × List Value → Type 0
SetListOver s g t o [] lists = SetList s g t (numbered g) (length o.kv - 1) 0 o.kv lists
SetListOver s g t o (c ∷ cs) lists =
    SetList s g t g.render_binding_value_with_int (length (c ∷ cs)) 0 (entries_of o (keys (c ∷ cs)))
      lists

-- The SET list of an UPDATE that is built goes through the changed columns of the object with their
-- present values, or through all its values if no change is recorded. Each key names a column of
-- the table; an identity column is passed over, and every other one takes the next entry. An entry
-- has the SQL text of an SQLValue and no argument. Of any other value it stores the time that it
-- converts to, if the column is a timestamp, and the value itself otherwise: as NULL without an
-- argument exactly if that is nil or a zero time, and else as a placeholder with just that argument.
-- The entries that are left over are blank.
pub update_assigns_each_column :
    (s : Std) (g : Generator) (t : Table) (o : Object) (lists : List String × List Value)
    → update_lists s g t o ≡ ok lists
    → SetListOver s g t o o.changed_columns lists
unfolding get
update_assigns_each_column s g t o lists built =
    elim o.changed_columns
        as (λ changed. o.changed_columns ≡ changed → SetListOver s g t o changed lists) [
          | [] ↦ λ none_changed. full-SetList s g t o lists none_changed built
          | c ∷ cs ↦ λ same.
              rw same at
                (changed-SetList s g t o lists (λ none_changed. cc (same, none_changed)) built)
        ]
      refl
