-- ===== src/Outbox.antt =====
-- internal/backend/storage_outbox.go: the durable outbox, its canonical records and its three
-- indexes. A listing reads an index and checks every entry against the canonical record.
pub mod Listing
pub mod Pruning
pub mod Records
pub use Records.*
