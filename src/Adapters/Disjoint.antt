-- ===== src/Adapters/Disjoint.antt =====
-- No database type name belongs to two of the classes that the column code tests, for each of the
-- type tables in adapters/*/types.go.
use dyndao.Base.{String, ◌≡◌, refl, Bool, true, false, not, List, arith}
use dyndao.SqlGen.{Classes}
use dyndao.Adapters.Member.{member, every, every-member}
use dyndao.Adapters.Sqlite.Types as Sqlite
use dyndao.Adapters.Mysql.Types as Mysql
use dyndao.Adapters.Mssql.Types as Mssql
use dyndao.Adapters.Oracle.Types as Oracle

abbrev Apart : (String → Bool) → (String → Bool) → Type 0
Apart p q = (k : String) → p k ≡ true → q k ≡ false

-- The order in which the classes are tested does not matter.
pub record AreDisjoint (c : Classes) : Type 0 where
  pub time_string : Apart c.is_timestamp_type c.is_string_type
  pub time_number : Apart c.is_timestamp_type c.is_number_type
  pub time_lob : Apart c.is_timestamp_type c.is_lob_type
  pub string_number : Apart c.is_string_type c.is_number_type
  pub string_lob : Apart c.is_string_type c.is_lob_type
  pub number_lob : Apart c.is_number_type c.is_lob_type
  pub float_number : Apart c.is_floating_type c.is_number_type
  pub float_time : Apart c.is_floating_type c.is_timestamp_type
  pub float_string : Apart c.is_floating_type c.is_string_type
  pub float_lob : Apart c.is_floating_type c.is_lob_type

-- The names of a list lie outside a class.
list-Apart :
    (xs : List String) (q : String → Bool)
    → every (λ x. not (q x)) xs ≡ true
    → Apart (λ k. member k xs) q
list-Apart xs q h k m = ground (arith, every-member (λ x. not (q x)) k xs h m)

pub mysql-AreDisjoint : AreDisjoint Mysql.classes
unfolding member every Mysql.is_timestamp_type Mysql.is_string_type Mysql.is_number_type
    Mysql.is_floating_type Mysql.is_lob_type
mysql-AreDisjoint = record {
  time_string = list-Apart Mysql.timestamp_types Mysql.is_string_type refl;
  time_number = list-Apart Mysql.timestamp_types Mysql.is_number_type refl;
  time_lob = list-Apart Mysql.timestamp_types Mysql.is_lob_type refl;
  string_number = list-Apart Mysql.string_types Mysql.is_number_type refl;
  string_lob = list-Apart Mysql.string_types Mysql.is_lob_type refl;
  number_lob = list-Apart Mysql.num_types Mysql.is_lob_type refl;
  float_number = list-Apart Mysql.float_types Mysql.is_number_type refl;
  float_time = list-Apart Mysql.float_types Mysql.is_timestamp_type refl;
  float_string = list-Apart Mysql.float_types Mysql.is_string_type refl;
  float_lob = list-Apart Mysql.float_types Mysql.is_lob_type refl;
}

pub mssql-AreDisjoint : AreDisjoint Mssql.classes
unfolding member every Mssql.is_timestamp_type Mssql.is_string_type Mssql.is_number_type
    Mssql.is_floating_type Mssql.is_lob_type
mssql-AreDisjoint = record {
  time_string = list-Apart Mssql.timestamp_types Mssql.is_string_type refl;
  time_number = list-Apart Mssql.timestamp_types Mssql.is_number_type refl;
  time_lob = list-Apart Mssql.timestamp_types Mssql.is_lob_type refl;
  string_number = list-Apart Mssql.string_types Mssql.is_number_type refl;
  string_lob = list-Apart Mssql.string_types Mssql.is_lob_type refl;
  number_lob = list-Apart Mssql.num_types Mssql.is_lob_type refl;
  float_number = list-Apart Mssql.float_types Mssql.is_number_type refl;
  float_time = list-Apart Mssql.float_types Mssql.is_timestamp_type refl;
  float_string = list-Apart Mssql.float_types Mssql.is_string_type refl;
  float_lob = list-Apart Mssql.float_types Mssql.is_lob_type refl;
}

pub oracle-AreDisjoint : AreDisjoint Oracle.classes
unfolding member every Oracle.is_timestamp_type Oracle.is_string_type Oracle.is_number_type
    Oracle.is_floating_type Oracle.is_lob_type
oracle-AreDisjoint = record {
  time_string = list-Apart Oracle.timestamp_types Oracle.is_string_type refl;
  time_number = list-Apart Oracle.timestamp_types Oracle.is_number_type refl;
  time_lob = list-Apart Oracle.timestamp_types Oracle.is_lob_type refl;
  string_number = list-Apart Oracle.string_types Oracle.is_number_type refl;
  string_lob = list-Apart Oracle.string_types Oracle.is_lob_type refl;
  number_lob = list-Apart Oracle.num_types Oracle.is_lob_type refl;
  float_number = list-Apart Oracle.float_types Oracle.is_number_type refl;
  float_time = list-Apart Oracle.float_types Oracle.is_timestamp_type refl;
  float_string = list-Apart Oracle.float_types Oracle.is_string_type refl;
  float_lob = list-Apart Oracle.float_types Oracle.is_lob_type refl;
}

Apart-sym : (p q : String → Bool) → Apart p q → Apart q p
Apart-sym p q h k m = ground (arith, h k)

-- SQLite's string class holds every name that begins with VARCHAR, so it is tested on the others.
pub sqlite-AreDisjoint : AreDisjoint Sqlite.classes
unfolding member every Sqlite.is_timestamp_type Sqlite.is_string_type Sqlite.is_number_type
    Sqlite.is_floating_type Sqlite.is_lob_type
sqlite-AreDisjoint = record {
  time_string = list-Apart Sqlite.timestamp_types Sqlite.is_string_type refl;
  time_number = list-Apart Sqlite.timestamp_types Sqlite.is_number_type refl;
  time_lob = list-Apart Sqlite.timestamp_types Sqlite.is_lob_type refl;
  string_number =
      Apart-sym Sqlite.is_number_type Sqlite.is_string_type
        (list-Apart Sqlite.num_types Sqlite.is_string_type refl);
  string_lob =
      Apart-sym Sqlite.is_lob_type Sqlite.is_string_type
        (list-Apart Sqlite.lob_types Sqlite.is_string_type refl);
  number_lob = list-Apart Sqlite.num_types Sqlite.is_lob_type refl;
  float_number = list-Apart Sqlite.float_types Sqlite.is_number_type refl;
  float_time = list-Apart Sqlite.float_types Sqlite.is_timestamp_type refl;
  float_string = list-Apart Sqlite.float_types Sqlite.is_string_type refl;
  float_lob = list-Apart Sqlite.float_types Sqlite.is_lob_type refl;
}

-- No database type name belongs to two of the classes that the column code tests, in any of the four
-- adapters.
pub types_disjoint :
    AreDisjoint Sqlite.classes
    × AreDisjoint Mysql.classes
    × AreDisjoint Mssql.classes
    × AreDisjoint Oracle.classes
types_disjoint = (sqlite-AreDisjoint, mysql-AreDisjoint, mssql-AreDisjoint, oracle-AreDisjoint)
