-- ===== src/Adapters.antt =====
-- adapters: the four databases, and how their generators are put together.
pub mod Member
pub mod Common
pub mod Sqlite
pub mod Mysql
pub mod Mssql
pub mod Oracle
pub mod Valid
pub mod Disjoint
