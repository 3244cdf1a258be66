-- ===== src/Sql.antt =====
-- The root package's SQL generation: clauses, column lists, statements and their shorthands.
pub mod Clause
pub mod Columns
pub mod Destination
pub mod Statement
pub mod Check
pub mod Table
pub mod Prepare
pub mod Execute
pub mod Outputs
pub mod Select
