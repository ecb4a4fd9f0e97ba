-- ===== src/Store.antt =====
-- packages/daemon/src/store: the rows of the JSONL files and the operations on them.
pub mod Rows
pub mod Peers
pub mod Checkbacks
pub mod Inbox
pub mod PaneOps
pub mod Sqlite
