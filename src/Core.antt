-- ===== src/Core.antt =====
-- adapters/core: the statement builders and the column readers that all adapters start from.
pub mod Insert
pub mod Where
pub mod Update
pub mod Statements
pub mod Columns
pub mod New
pub mod Creates
