-- ===== src/Orm/Load/NullLob.antt =====
-- What a NULL in a LOB column reads as: `Scan` of adapters/oracle/setter.go in the row loop of
-- orm/load.go.
use dyndao.Base.{ℕ, String, true, none, some, Option, List, [], ◌∷◌, map, ◌≡◌, refl, ◌∙◌, arith}
use dyndao.Base.Outcome.{Outcome, ok, panic, ◌>>=◌}
use dyndao.Value.{Value, Std}
use dyndao.Object.{Object, new, set}
use dyndao.SqlGen.{ColumnType, Dest, Classes}
use dyndao.Adapters.Disjoint.{AreDisjoint}
use dyndao.Adapters.Oracle.Columns.{
  column_value, dynamic_object_setter, column_pointer, make_column_pointers,
}
use dyndao.Adapters.Oracle.Lob.{null, lob, scan}
use dyndao.Orm.{Orm}
use dyndao.Orm.Load.{loaded, read_rows, read_result}

-- `Rows.Scan` for a row of one LOB column, given as none where it is NULL
abbrev pub scan_lob : Option String → List Dest → Outcome (List Dest)
scan_lob none (Dest.lob held ∷ []) = scan null held >>= λ text. ok (Dest.lob text ∷ [])
scan_lob (some content) (Dest.lob held ∷ []) =
    scan (lob (ok content)) held >>= λ text. ok (Dest.lob text ∷ [])
scan_lob cell ds = panic "another pointer"

-- Each NULL replaced by the last text before it
abbrev pub fill : String → List (Option String) → List String
fill held [] = []
fill held (none ∷ cells) = held ∷ fill held cells
fill held (some text ∷ cells) = text ∷ fill text cells

module _ (c : Classes) (dis : AreDisjoint c) (ct : ColumnType)
    (is_lob : c.is_lob_type ct.database_type_name ≡ true) where
  lob_value : (text : String) → column_value 0 c ct (Dest.lob text) ≡ ok (some (Value.string text))
  unfolding column_value
  lob_value text = ground (
    arith,
    dis.time_lob ct.database_type_name,
    dis.string_lob ct.database_type_name,
    dis.number_lob ct.database_type_name,
    dis.float_lob ct.database_type_name,
  )

  lob_pointer : make_column_pointers c 1 (ct ∷ []) ≡ ok (Dest.lob "" ∷ [])
  unfolding make_column_pointers column_pointer
  lob_pointer = ground (
    arith,
    dis.time_lob ct.database_type_name,
    dis.string_lob ct.database_type_name,
    dis.number_lob ct.database_type_name,
  )

  lob_column :
      (s : Std) (name text : String) (obj : Object)
      → dynamic_object_setter 0 s c (name ∷ []) (Dest.lob text ∷ []) (ct ∷ []) obj
        ≡ ok (set s name (Value.string text) obj)
  unfolding dynamic_object_setter
  lob_column s name text obj = rw (lob_value text) refl

module _ {S : Type 0} (o : Orm S) (table name : String) (ct : ColumnType) where
  -- A row with this text in its only column
  abbrev pub row_of : String → Object
  row_of text = loaded (set o.std name (Value.string text) (new table))

  -- An ORM with the column code of the Oracle adapter, and a column of one of its LOB types
  pub record ReadsLobs : Type 0 where
    pub classes_disjoint : AreDisjoint o.sql_gen.classes
    pub is_lob : o.sql_gen.classes.is_lob_type ct.database_type_name ≡ true
    pub sets :
        (names : List String) (ds : List Dest) (cts : List ColumnType) (obj : Object)
        → o.sql_gen.dynamic_object_setter o.std o.sql_gen.classes names ds cts obj
          ≡ dynamic_object_setter 0 o.std o.sql_gen.classes names ds cts obj
    pub points :
        (n : ℕ) (cts : List ColumnType)
        → o.sql_gen.make_column_pointers o.sql_gen.classes n cts
          ≡ make_column_pointers o.sql_gen.classes n cts

  module _ (lobs : ReadsLobs) where
    set_lob :
        (text : String) (obj : Object)
        → o.sql_gen.dynamic_object_setter o.std o.sql_gen.classes
            (name ∷ [])
            (Dest.lob text ∷ [])
            (ct ∷ [])
            obj
          ≡ ok (set o.std name (Value.string text) obj)
    set_lob text obj =
        lobs.sets (name ∷ []) (Dest.lob text ∷ []) (ct ∷ []) obj
        ∙ lob_column o.sql_gen.classes lobs.classes_disjoint ct lobs.is_lob o.std name text obj

    read_cells :
        (held : String) (cells : List (Option String))
        → read_rows o table (name ∷ []) (ct ∷ []) (Dest.lob held ∷ []) (map scan_lob cells) none
          ≡ ok (map row_of (fill held cells))
    unfolding read_rows scan
    read_cells held [] = refl
    read_cells held (none ∷ cells) = rw (set_lob held (new table), read_cells held cells) refl
    read_cells held (some text ∷ cells) = rw (set_lob text (new table), read_cells text cells) refl

    -- With the Oracle adapter, in a result of one LOB column each NULL reads as the last text in a row
    -- before it, or as the empty text where there is none.
    pub null_lob_repeats :
        (cells : List (Option String))
        → read_result o table
            (name ∷ [])
            (record { column_types = ok (ct ∷ []); scans = map scan_lob cells; end_err = none })
          ≡ ok (map row_of (fill "" cells))
    unfolding read_result
    null_lob_repeats cells =
        rw
          (
            lobs.points 1 (ct ∷ []),
            lob_pointer o.sql_gen.classes lobs.classes_disjoint ct lobs.is_lob,
          )
          (read_cells "" cells)
