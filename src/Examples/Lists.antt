-- ===== src/Examples/Lists.antt =====
-- The order of the values, and what the lists of a statement say.
use mathlib.Core.List.Permᴰ as PermD
use dyndao.Base.{ℕ, ◌≡◌, ◌<◌, refl, some, [], ◌∷◌, ◌^◌, arith}
use dyndao.Base.Map.{Map, lookup, entries}
use dyndao.Base.Outcome.{ok}
use dyndao.Base.Traverse.{SameVia}
use dyndao.Base.Int.{negsuc}
use dyndao.Value.{Value, nil, string, int64, uint64}
use dyndao.Schema.{get_table, get_column, override_name}
use dyndao.Core.Insert.{binding_insert}
use dyndao.Core.Insert.Counts.{non_nils}
use dyndao.Core.Insert.Order.{cell, statement_of, insert_order_irrelevant}
use dyndao.Core.Where.{render_where_clause}
use dyndao.Core.Where.Order.{clause_of, condition, where_order_irrelevant}
use dyndao.Core.Update.{update_lists}
use dyndao.Core.Update.Meaning.{SetListOver, update_assigns_each_column}
use dyndao.Object.{Object, get, set_core, get_int_always, get_uint_always}
use dyndao.Object.Getters.{complement, int_through_uint}
use dyndao.Examples.Data.{std, people, schema, person, sqlite}

abbrev named_first : Map Value
named_first = ("Name", string "Ann") ∷ ("Town", nil) ∷ []

abbrev town_first : Map Value
town_first = ("Town", nil) ∷ ("Name", string "Ann") ∷ []

insert_order_irrelevant_example :
    SameVia
      (statement_of non_nils sqlite people (override_name people.name "people"))
      (cell std sqlite people (entries people.columns))
      named_first
      town_first
      (binding_insert non_nils std sqlite schema "people" (some named_first))
      (binding_insert non_nils std sqlite schema "people" (some town_first))
unfolding get_table lookup
insert_order_irrelevant_example =
    insert_order_irrelevant non_nils std sqlite schema "people" people (entries people.columns)
      named_first town_first refl refl refl (PermD.swap refl refl)

where_order_irrelevant_example :
    SameVia clause_of
      (condition sqlite people person.object_type)
      named_first
      town_first
      (render_where_clause sqlite people (record person { kv = named_first }))
      (render_where_clause sqlite people (record person { kv = town_first }))
where_order_irrelevant_example =
    where_order_irrelevant sqlite people (record person { kv = named_first }) town_first
      (PermD.swap refl refl)

update_assigns_each_column_example :
    SetListOver std sqlite people person person.changed_columns ("Name = ?" ∷ [], string "Ann" ∷ [])
unfolding update_lists dyndao.Core.Update.set_column dyndao.Core.Update.sql_value_convert
    dyndao.Core.Update.zero_time dyndao.Adapters.Sqlite.Types.is_timestamp_type get_column lookup
    dyndao.Core.Where.render_binding_value_with_int get
update_assigns_each_column_example =
    update_assigns_each_column std sqlite people person ("Name = ?" ∷ [], string "Ann" ∷ []) refl

-- A balance of -1
abbrev debtor : Object
debtor = record person { kv = ("Balance", int64 (negsuc 0)) ∷ [] }

int_through_uint_example :
    (u : ℕ) × (get_uint_always std "Balance" debtor ≡ ok u)
    × (u < 2 ^ 64)
    × (u ≡ complement (negsuc 0))
    × (get_int_always std "Balance" (set_core "Balance" (uint64 u) debtor) ≡ ok (negsuc 0))
unfolding lookup
int_through_uint_example = int_through_uint std "Balance" (negsuc 0) debtor (ground arith) refl
