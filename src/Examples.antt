-- ===== src/Examples.antt =====
-- Runs of the code at concrete inputs.
mod Data
mod Objects
mod Statements
mod Orm
mod Trees
mod Upserts
mod Migration
mod Lists
mod Sources
mod Documents
mod Texts
mod Rows
mod Programs
