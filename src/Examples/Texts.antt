-- ===== src/Examples/Texts.antt =====
-- Objects with two Boolean columns as JSON texts (jsonmapper/experiments).
use dyndao.Base.{
  String, true, false, Bool-cases, eq_iff, ◌∙◌, none, some, [], ◌∷◌, ◌≡◌, ◌⊎◌, refl, sym, inl, inr,
  ◌==◌, if◌then◌else◌, arith,
}
use dyndao.Base.Map.{lookup, contains, entries}
use dyndao.Base.Entries.{some-inj}
use dyndao.Base.Outcome.{OnOk, is_ok, ok}
use dyndao.Value.{bool}
use dyndao.Schema.{Column, ChildTable, Table, Schema}
use dyndao.Object.{Object, new, set}
use dyndao.Jsonmapper.Experiments.Paths.{to_json_from_object, set_children, root_path_of}
use dyndao.Jsonmapper.Experiments.Laws.{HasSources}
use dyndao.Jsonmapper.Experiments.RoundTrip.{json_round_trip, ReadBack}
use dyndao.Jsonmapper.Experiments.Read.{to_object_from_json}
use dyndao.Jsonmapper.Experiments.Slots.{siblings_not_written, Unwritten}
use dyndao.Examples.Data.{std, column, people}
use dyndao.Examples.Documents.{go, go_laws}

-- `Source` of the two columns
abbrev source : Column → String
source c = if c.name == "Admin" then "admin" else "active"

abbrev flags : Table
flags = record people {
  columns = some (("Active", column "Active" false) ∷ ("Admin", column "Admin" false) ∷ []);
}

abbrev flag_schema : Schema
flag_schema = record { name = "test"; tables = ("people", flags) ∷ []; table_aliases = none }

abbrev flagged : Object
flagged = record {
  object_type = "people";
  kv = ("Admin", bool false) ∷ ("Active", bool true) ∷ [];
  hidden_kv = none;
  changed_columns = [];
  children = [];
  dirty = true;
}

-- The two columns
either_column :
    (k : String) (c : Column)
    → lookup k (entries flags.columns) ≡ some c
    → ((k ≡ "Active") × (c ≡ column "Active" false)) ⊎ ((k ≡ "Admin") × (c ≡ column "Admin" false))
unfolding lookup
either_column k c found = elim (Bool-cases ("Active" == k)) [
  | inl active ↦ inl (grind (arith, eq_iff "Active" k, active), sym (some-inj (rw active at found)))
  | inr apart ↦ elim (Bool-cases ("Admin" == k)) [
    | inl admin ↦
        inr (grind (arith, eq_iff "Admin" k, admin), sym (some-inj (rw (apart, admin) at found)))
    | inr neither ↦ absurd (grind (arith, found, apart, neither))
  ]
]

flags-HasSources : HasSources go "people" go_laws source (entries flags.columns)
flags-HasSources = record {
  sources_named = (refl, (refl, tt));
  sources_plain = λ k c found. elim (either_column k c found) [
    | inl active ↦ rw active.1 (inl refl)
    | inr admin ↦ rw admin.1 (inr refl)
  ];
  sources_apart = λ k j c d found found' differ. elim (either_column k c found) [
    | inl first ↦ elim (either_column j d found') [
      | inl second ↦ absurd (differ (first.0 ∙ sym second.0))
      | inr second ↦ rw (first.1, second.1) (λ e. grind (arith, eq_iff "active" "admin", e))
    ]
    | inr first ↦ elim (either_column j d found') [
      | inl second ↦ rw (first.1, second.1) (λ e. grind (arith, eq_iff "active" "admin", e))
      | inr second ↦ absurd (differ (first.0 ∙ sym second.0))
    ]
  ];
}

json_round_trip_example :
    (json : String) × (to_json_from_object go source flag_schema 1 [] flagged "" "" true ≡ ok json)
    × ReadBack std go source flag_schema 0 flags flagged go_laws [] json
unfolding lookup contains
json_round_trip_example =
    json_round_trip std go source flag_schema 0 flags flagged go_laws [] refl refl refl
      (refl, (refl, tt)) flags-HasSources (refl, (refl, tt))
      (
        (column "Admin" false, refl, (false, refl)),
        ((column "Active" false, refl, (true, refl)), tt),
      )

-- The text, by running the code
flagged_text :
    to_json_from_object go source flag_schema 1 [] flagged "" "" true
    ≡ ok "{\"people\":{\"active\":true,\"admin\":false}}"
unfolding to_json_from_object set_children root_path_of
flagged_text = refl

-- Two child tables: the object is read, and the writer panics at an empty slot.
abbrev child_table : ChildTable
child_table = record {
  parent_table = "people";
  multi_key = false;
  local_column = "";
  foreign_column = "";
  local_columns = none;
  foreign_columns = none;
}

abbrev parent : Table
parent = record flags { children = ("pets", child_table) ∷ ("cars", child_table) ∷ [] }

abbrev two_children : Schema
two_children = record flag_schema {
  tables = ("people", parent) ∷ ("pets", flags) ∷ ("cars", flags) ∷ [];
}

siblings_not_written_example :
    OnOk
      (Unwritten std go source two_children 3 [] "" "" true)
      (to_object_from_json std go source two_children 2 "" "people" "{\"people\":{\"active\":true}}"
        []).0
unfolding lookup contains
siblings_not_written_example =
    siblings_not_written std go source two_children 2 3 "" "people" "{\"people\":{\"active\":true}}"
      "" "" true parent [] [] refl (refl, (refl, tt)) (omega arith)

-- That text is read without error.
siblings_are_read :
    is_ok
      (to_object_from_json std go source two_children 2 "" "people" "{\"people\":{\"active\":true}}"
        []).0
    ≡ true
unfolding to_object_from_json set new
siblings_are_read = refl
