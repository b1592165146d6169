-- ===== src/Invoice/Store.antt =====
-- internal/invoice/store.go: the operations, each one transaction on the tables.
pub mod Statements
pub mod Prepare
pub mod Create
pub mod Edit
pub mod Advance
