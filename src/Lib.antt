-- ===== src/Lib.antt =====
-- dyndao: objects of string-keyed values that are mapped to SQL tables by a schema.
--
-- The program has four layers. object/ keeps an object's values, whether it is dirty, and the previous
-- values of changed columns. schema/ describes tables and columns and resolves aliases. adapters/core
-- builds statements and their arguments from an object and a schema, through the record of functions
-- of sqlgen/, which the adapters of SQLite, MySQL, SQL Server and Oracle fill in. orm/ runs these
-- statements against database/sql: single writes, retrievals, trees of objects, transactions.
--
-- Where it is modelled, and how a Go name reads here (BindingInsert is binding_insert, and so on):
-- - Value: the values of an object (`interface{}`), a constructor for each Go type that the code tests
-- - Object: object/object.go and object/sqlvalue.go; a method that changes the object returns it
-- - Schema, Schema/Json: schema/types.go, schema/schema.go, schema/validate.go
-- - Schema/Infoschema, Schema/OracleMetadata: schema/parser/infoschema/infoschema.go and
--   schema/parser/oracle/metadata.go; a query is a function from its text to rows
-- - SqlGen, SqlGen/Vtable: sqlgen/types.go, sqlgen/validate.go
-- - Core/Insert, Core/Where, Core/Update, Core/Statements, Core/Columns, Core/New: adapters/core
-- - Adapters/Common and Adapters/Sqlite, Mysql, Mssql, Oracle: the files of those names in adapters/
-- - Orm: orm/new.go, the interface to database/sql (`Database`), and the files of orm/ in its children:
--   Write (insert.go, update.go, delete.go), Save and Tree (save.go), Load and Children (load.go), Upsert
--   (find_or_create.go, create_or_update.go), Transact (transact.go), Tables (tables.go)
-- - Jsonmapper and its child: jsonmapper/mapper.go, jsonmapper/experiments/mapper.go, of which Paths
--   and Read are the functions that go by the columns' sources
-- - Migrator: examples/migrator/main.go
-- - Basic: orm/getdb.go, examples/basic/main.go
-- - Base and its children: lists, association lists, outcomes, machine integers, shared by all
-- - Examples: runs at concrete inputs
--
-- A Go function returns an `Outcome`: a result, an error or a panic. A function of orm/ is an `Act`,
-- from a state to an outcome and a state, which is kept in all three cases. A map is an association
-- list, and iteration follows its order, which Go leaves open. An int64 is a ℤ, and conversions
-- between int64 and uint64 wrap at 2 ^ 64. A float64 is its bit pattern.
--
-- Parameters of the model: `Std` (parsing and printing of floats, times and numbers that are read
-- back), nils.RemoveNilsIfNeeded, `Database` (database/sql with its driver and the context),
-- encoding/json, gjson and sjson, sql.Open, the queries of the two schema parsers, and what reading a
-- goracle.Lob gives. The field Source that
-- jsonmapper/experiments reads of a column is one too, since schema.Column has no such field.
--
-- `Orm.Tree.recurse_and_save` takes fuel, which bounds the depth of the tree: each level of children
-- uses one unit, and no fuel is a stack overflow, as a cyclic tree has it in Go; as much fuel as the
-- tree is deep is enough, and then the overflow is not met. The other loops are structural recursion.
--
-- `Jsonmapper.Experiments.Paths.to_json_from_object` and `Read.to_object_from_json` take fuel for the
-- depth of the objects and of the tables' children: a unit for each level, and as many as there are
-- levels are enough.
--
-- Not modelled: tracing output and logging; the time limits of contexts in examples/basic; the mock
-- schemas and the shared adapter tests, which are test code. A nil pointer is a value of its
-- own for times only: a nil *object.SQLValue or *sql.NullString among the values of an object has none
-- (`sqlv.String()` panics on the first). Two tasks running on one object at the same
-- time are not modelled either: the code has no locks.
pub mod Base
pub mod Value
pub mod Object
pub mod Schema
pub mod SqlGen
pub mod Core
pub mod Adapters
pub mod Orm
pub mod Examples
pub mod Jsonmapper
pub mod Migrator
pub mod Basic
