-- ===== src/Invoice.antt =====
-- internal/invoice: invoices, their line items, their lifecycle and their money.
pub mod Money
pub mod Lifecycle
pub mod Validate
pub mod Tables
pub mod Store
pub mod Listing
pub mod Tests
