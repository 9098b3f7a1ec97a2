-- ===== src/Tests.antt =====
-- Runs of the modelled code at concrete values.
pub mod Epochs
pub mod Tail
pub mod Words
pub mod Table
pub mod Pages
pub mod Tables
pub mod Special
pub mod Registry
pub mod Expr
pub mod Flush
pub mod Query
pub mod Full
pub mod Pending
