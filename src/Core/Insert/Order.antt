-- ===== src/Core/Insert/Order.antt =====
-- An INSERT (adapters/core/insert.go) as a collection of cells: the order in which Go ranges over
-- the map of values only orders the cells.
use mathlib.Core.List.{Permᴰ}
use dyndao.Base.{
  String, ◌<>◌, ◌≡◌, refl, ap, false, none, some, List, [], ◌∷◌, map, ◌==◌, Option-cases, inl, inr,
}
use dyndao.Base.Map.{Map, lookup}
use dyndao.Base.Outcome.{Outcome, ok, err, panic, message, ◌>>=◌}
use dyndao.Base.Traverse.{traverse, traverse-Permᴰ, SameVia, made, made-made}
use dyndao.Value.{Value, Std}
use dyndao.Schema.{Column, Table, Schema, get_table, get_column_name, override_name}
use dyndao.SqlGen.{Generator}
use dyndao.Core.Insert.{insert_value, core_binding_insert, insert_statement, binding_insert}

-- What an INSERT says of one column: its bind name, its name and its argument
abbrev pub Cell : Type 0
Cell = String × String × Value

abbrev pub lists_of : List Cell → List String × List String × List Value
lists_of cells = (map (λ c. c.0) cells, map (λ c. c.1) cells, map (λ c. c.2) cells)

module _ (s : Std) (g : Generator) (t : Table) (fields : Map Column) where
  -- The cell of one value, on its own
  pub cell : String × Value → Outcome Cell
  cell (k, v) = elim (lookup (get_column_name t k) fields) [
    | none ↦ panic ("coreBindingInsert: Unknown field for key: " <> k)
    | some f ↦ insert_value s g f v >>= λ (name, arg). ok (name, get_column_name t k, arg)
  ]

  cons_cell :
      (real_name : String) (m : Outcome (String × Value)) (r : Outcome (List Cell))
      → (m >>= λ (name, arg). made lists_of r >>= λ (names, cols, args).
          ok (name ∷ names, real_name ∷ cols, arg ∷ args))
        ≡ ((m >>= λ (name, arg). ok (name, real_name, arg)) >>= λ c. r >>= λ cells. ok (c ∷ cells))
          >>= λ cells. ok (lists_of cells)
  cons_cell real_name (ok (name, arg)) (ok cells) = refl
  cons_cell real_name (ok (name, arg)) (err e) = refl
  cons_cell real_name (ok (name, arg)) (panic p) = refl
  cons_cell real_name (err e) r = refl
  cons_cell real_name (panic p) r = refl

  core_binding_insert-traverse :
      (data_map : Map Value)
      → core_binding_insert s g t fields data_map ≡ made lists_of (traverse cell data_map)
  unfolding core_binding_insert cell
  core_binding_insert-traverse [] = refl
  core_binding_insert-traverse ((k, v) ∷ rest) =
      elim (Option-cases (lookup (get_column_name t k) fields)) [
        | inl missing ↦ rw (missing, core_binding_insert, cell) refl
        | inr (f, found) ↦
            rw (found, core_binding_insert, cell, core_binding_insert-traverse rest)
              (cons_cell (get_column_name t k) (insert_value s g f v) (traverse cell rest))
      ]

abbrev pub statement_of :
    (List Value → List Value) → Generator → Table → String → List Cell → String × List Value
statement_of remove_nils g t name cells = insert_statement remove_nils g t name (lists_of cells)

module _ (remove_nils : List Value → List Value) (s : Std) (g : Generator) (sch : Schema)
    (table : String) (t : Table) (named : (table == "") ≡ false)
    (found : get_table sch table ≡ some t) where
  binding_insert-statement_of :
      (fields : Map Column) (data_map : Map Value)
      → t.columns ≡ some fields
      → binding_insert remove_nils s g sch table (some data_map)
        ≡ made
            (statement_of remove_nils g t (override_name t.name table))
            (traverse (cell s g t fields) data_map)
  unfolding binding_insert
  binding_insert-statement_of fields data_map has =
      rw
        (
          named,
          found,
          ← made-made lists_of (insert_statement remove_nils g t (override_name t.name table))
              (traverse (cell s g t fields) data_map),
          ← core_binding_insert-traverse s g t fields data_map,
        )
        (ap
          (λ columns. elim columns [
            | none ↦ err (message ("BindingInsert: Column map unavailable for table " <> table))
            | some fields ↦ do
              lists ← core_binding_insert s g t fields data_map
              ok (insert_statement remove_nils g t (override_name t.name table) lists)
          ])
          has)

-- For a named table of the schema that has columns: whichever way Go ranges over the map of values,
-- BindingInsert makes its columns, bind names and arguments of one cell for each value, which is its
-- column's name, bind name and argument, in the order of the range, and it fails where a value has no
-- cell. In two orders of the same values it fails both times, or it gives the same cells up to order.
pub insert_order_irrelevant :
    (remove_nils : List Value → List Value) (s : Std) (g : Generator) (sch : Schema)
    (table : String) (t : Table) (fields : Map Column) (data_map again : Map Value)
    → (table == "") ≡ false
    → get_table sch table ≡ some t
    → t.columns ≡ some fields
    → Permᴰ data_map again
    → SameVia
        (statement_of remove_nils g t (override_name t.name table))
        (cell s g t fields)
        data_map
        again
        (binding_insert remove_nils s g sch table (some data_map))
        (binding_insert remove_nils s g sch table (some again))
insert_order_irrelevant remove_nils s g sch table t fields data_map again named found has same = (
  binding_insert-statement_of remove_nils s g sch table t named found fields data_map has,
  binding_insert-statement_of remove_nils s g sch table t named found fields again has,
  traverse-Permᴰ (cell s g t fields) same,
)
