-- ===== src/Ack.antt =====
-- The ledger of unanswered asks: packages/core/src/ack/ack-algo.ts (`Algo`, `Prompt`, `Filing`), the
-- ledger's operations in packages/daemon/src/store/jsonl-store.ts (`Ledger`), and
-- packages/daemon/src/ack: ack-watch.ts (`Watch`), ack-sweep.ts (`Sweep`) and
-- ack-open.ts (`Asks`).
pub mod Algo
pub mod Prompt
pub mod Filing
pub mod Ledger
pub mod Watch
pub mod Sweep
pub mod Asks
