-- ===== src/Examples/Data.antt =====
-- A schema with one table, an object of it, the generator of SQLite, and a database that counts its
-- open statements and logs what it is asked.
use dyndao.Base.{
  ℕ, suc, ◌-◌, String, Bool, true, false, none, some, List, [], ◌∷◌, eqb, ◌==◌, if◌then◌else◌,
}
use dyndao.Base.Outcome.{ok, err, message, external}
use dyndao.Base.Int.{pos}
use dyndao.Value.{Value, Std, format_uint}
use dyndao.Schema.{ChildTable, Column, Table, Schema}
use dyndao.Object.{Object}
use dyndao.SqlGen.{Dest, Generator}
use dyndao.Core.Insert
use dyndao.Core.Insert.Counts.{non_nils}
use dyndao.Core.Where
use dyndao.Core.Columns
use dyndao.Core.Statements
use dyndao.Adapters.Sqlite
use dyndao.Adapters.Sqlite.Types
use dyndao.Orm.{Database, Orm}

abbrev pub std : Std
std = record {
  float_eq = eqb;
  format_float = format_uint;
  float_of_uint = λ n. n;
  float_to_int = pos;
  float_to_uint = λ n. n;
  parse_float = λ s. err (message s);
  parse_int = λ s. err (message s);
  parse_uint = λ s. err (message s);
  parse_time = λ s. err (message s);
  rune_string = λ n. "x";
  to_upper = λ s. s;
}

abbrev pub column : String → Bool → Column
column name identity = record {
  allow_null = true;
  is_number = identity;
  is_identity = identity;
  is_foreign_key = false;
  is_unique = false;
  length = pos 0;
  name = name;
  default_value = "";
  db_type = "TEXT";
}

abbrev pub person_id : Column
person_id = column "PersonID" true

abbrev pub people : Table
people = record {
  caller_supplies_pk = false;
  multi_key = false;
  primary = "PersonID";
  name = "people";
  alias_name = "";
  foreign_keys = none;
  columns = some (
      ("PersonID", person_id) ∷ ("Name", column "Name" false) ∷ ("Town", column "Town" false) ∷ []);
  column_aliases = none;
  essential_columns = some ("PersonID" ∷ "Name" ∷ []);
  parent_tables = none;
  children = [];
}

abbrev pub schema : Schema
schema = record { name = "test"; tables = ("people", people) ∷ []; table_aliases = none }

-- An object with one changed column
abbrev pub person : Object
person = record {
  object_type = "people";
  kv = ("PersonID", Value.int64 (pos 1)) ∷ ("Name", Value.string "Ann") ∷ [];
  hidden_kv = none;
  changed_columns = ("Name", Value.string "Anna") ∷ [];
  children = [];
  dirty = true;
}

abbrev pub saved_person : Object
saved_person = record person { changed_columns = []; dirty = false }

abbrev pub new_person : Object
new_person = record person { kv = ("Name", Value.string "Ann") ∷ []; changed_columns = [] }

abbrev pub sqlite : Generator
sqlite = record {
  tracing = false;
  fix_last_insert_id_bug = false;
  classes = Types.classes;
  render_create_column = Sqlite.render_create_column;
  drop_table = Statements.drop_table;
  render_binding_value = Where.render_binding_value;
  render_binding_value_with_int = Where.render_binding_value_with_int;
  render_insert_value = Insert.render_insert_value;
  dynamic_object_setter = Columns.dynamic_object_setter;
  make_column_pointers = Columns.make_column_pointers;
  binding_insert_sql = Insert.binding_insert_sql;
}

pub record World : Type 0 where
  pub open_stmts : ℕ
  pub log : List String

abbrev pub note : String → World → World
note text w = record w { log = text ∷ w.log }

abbrev pub tx_done : List String → Bool
tx_done [] = false
tx_done (text ∷ rest) = text == "rollback"

abbrev pub database : Database World
database = record {
  ctx_err = λ w. none;
  begin_tx = λ w. (ok 7, note "begin" w);
  commit = λ tx w. (ok tt, note "commit" w);
  rollback = λ tx w.
      (if tx_done w.log then err (external "transaction is done") else ok tt, note "rollback" w);
  prepare = λ tx sql w. (ok 1, record (note sql w) { open_stmts = suc w.open_stmts });
  close_stmt = λ stmt w. record w { open_stmts = w.open_stmts - 1 };
  exec = λ stmt args w. (
    ok (record { last_insert_id = ok (pos 41); rows_affected = ok (pos 1); out_id = pos 0 }),
    note "exec" w,
  );
  query = λ stmt args w. (
    ok (record {
      column_types = ok (
          record { database_type_name = "INTEGER"; nullable = false }
          ∷ record { database_type_name = "TEXT"; nullable = false }
          ∷ []);
      scans = (λ ds. ok (Dest.int64 (pos 1) ∷ Dest.string "Ann" ∷ [])) ∷ [];
      end_err = none;
    }),
    note "query" w,
  );
  close_rows = λ w. w;
}

abbrev pub world : World
world = record { open_stmts = 0; log = [] }

abbrev pub orm : Orm World
orm = record {
  sql_gen = sqlite;
  schema = schema;
  raw_conn = database;
  std = std;
  remove_nils = non_nils;
  before_create_hooks = [];
  after_create_hooks = [];
  before_update_hooks = [];
  after_update_hooks = [];
}

-- A table whose only child is itself, in a database without rows
abbrev pub kin_child : ChildTable
kin_child = record {
  parent_table = "kin";
  multi_key = false;
  local_column = "";
  foreign_column = "";
  local_columns = none;
  foreign_columns = none;
}

abbrev pub kin : Table
kin = record people {
  name = "kin";
  essential_columns = some ("PersonID" ∷ []);
  children = ("kin", kin_child) ∷ [];
}

abbrev pub empty_database : Database World
empty_database = record database {
  query = λ stmt args w. (
    ok (record {
      column_types = ok (record { database_type_name = "INTEGER"; nullable = false } ∷ []);
      scans = [];
      end_err = none;
    }),
    w,
  );
}

abbrev pub kin_orm : Orm World
kin_orm = record orm {
  schema = record { name = "kin"; tables = ("kin", kin) ∷ []; table_aliases = none };
  raw_conn = empty_database;
}
