-- ===== src/Store/Sqlite.antt =====
-- packages/daemon/src/store/sqlite-store.ts: the columns of its tables, and the ACK table.
pub mod Columns
pub mod RoundTrip
pub mod Ledger
