-- ===== src/Ack/Ledger.antt =====
-- The ledger's operations in packages/daemon/src/store/jsonl-store.ts, over the rows of ACK.jsonl:
-- `upsertAck`, `openAck` (`Open`), `findAck`, `ackAck`, `ackAllAcks`, `countOpenAcks` (`Close`).
pub mod Open
pub mod Close
