-- ===== src/Lib.antt =====
-- seatmesh: the queues, gates and ledgers of the daemon that passes messages between agents which run
-- in tmux panes.
--
-- The program keeps its state in JSONL files (checkbacks, inbox, peer mail, pane operations, the ACK
-- ledger) and in maps of the daemon's process (the gate's clocks, the delivery holds, the overload
-- cooldowns, the watch of typed prompts). On every tick the daemon takes pending rows, asks the gate
-- whether a pane may be pasted into, pastes, and stamps the row as delivered, parks it or drops it; a
-- delivered ask opens a row of the ACK ledger, which an answer or a later filing closes.
--
-- Files and what they model (paths from the repository's root):
--   Prelude        lists over the native numbers, texts as UTF-16 units, `Map`, stable sorting and
--                  the JSONL upsert; no code of the repository.
--   Regex          the regular expressions that the code tests with; no code of the repository.
--   Composer       packages/core/src/providers/types.ts: what a provider reads off a pane.
--   Message        packages/core/src/messages: ack-class.ts (isAckClassPeer), mesh-inject-text.ts,
--                  the status test of mesh-copy.ts; peerSentToken of jsonl-store.ts.
--   Store          packages/daemon/src/store/jsonl-store.ts: Rows the row types, Peers (compaction
--                  and duplicates), Checkbacks, Inbox, PaneOps (with inbox/pane-ops-drain.ts).
--   Ack            Algo, Prompt and Filing: packages/core/src/ack/ack-algo.ts; Ledger: the ACK
--                  operations of jsonl-store.ts; Watch, Sweep and Asks: ack-watch.ts, ack-sweep.ts
--                  and ack-open.ts of packages/daemon/src/ack.
--   Gate           Compose: packages/daemon/src/inject/compose-gate.ts; PaneHold: inject/pane-hold.ts;
--                  Overload: inbox/inbox-overload.ts.
--   Checkback      packages/daemon/src/checkback/checkback-fire.ts and the renewal in
--                  fireDueCheckbacks of orchestrator/mesh-orchestrator.ts; CcLimit arms the
--                  retries of connectivity/cc-limit-retry.ts.
--   Peer           packages/daemon/src/peer: Skip, Pending, Backlog and Promote (peer-backlog.ts),
--                  Drain (peer-bulk-drain.ts); Bulk: takePeerBulkBatch of messages/peer-bulk.ts.
--   Store/Sqlite   packages/daemon/src/store/sqlite-store.ts: Columns what a row binds to its columns
--                  and the row read back (checkbackBind, rowToInbox, rowToPeer, rowToCheckback),
--                  Ledger openAck over the ACK table.
--   Target         packages/daemon/src/store/target-jsonl.ts and target/target-fire.ts.
--   Session        Labels: the worker panes of packages/tmux/src/session/labels.ts. Relayout: the guard
--                  of packages/tmux/src/session/layout-guard.ts; Relayout/Shrink: what relayoutMeshSession
--                  of session.ts kills (window-panes.ts).
--   Supervisor     packages/daemon/src/mesh-inbox-supervisor.ts: the variables of main, one function
--                  for each handler and for each stretch of spawnChild between two waits, the step
--                  relation (Run); Slot, Sound, Refine, Recovery and Shutdown are about
--                  its runs.
--   Room           packages/core/src/chatroom: Files and Body room.ts (createRoom, upsertContractRoom,
--                  ensureGlobalRoom, sayInRoomSync), ReadState read-state.ts, Routing
--                  fanout-routing.ts; Layout: packages/core/src/layout/minis.ts.
--   Examples       tests, and each theorem at a concrete input.
--
-- State is passed explicitly: an operation that reads and writes a file or a map takes it and returns
-- it. Names are the source's in snake case. The clock, generated ids, what is captured of a pane and
-- whether a paste succeeded are arguments. Time stamps are milliseconds, where the source stores the
-- ISO text of the same instant; stamps written by `toISOString` compare as texts the way the instants
-- do. Optional fields are options, and an empty string counts as absent wherever the source tests
-- truth. A regular expression's star has the length of the text as fuel, which is enough, since a
-- round of it that consumes nothing is not repeated. The decimal digits of n take at most n + 1 rounds.
--
-- Third-party code is a parameter: the SQLite engine is a table with a primary key whose
-- INSERT OR REPLACE does what SQLite documents, better-sqlite3 throws on a missing named parameter, and the answers of the system to the supervisor
-- (pids, health replies, modification times) are arguments of its steps.
--
-- Not modelled: the files' encoding as JSON and lines that do not parse, log lines, message texts
-- other than what is tested, the tmux commands, the providers' reading of screens, the CLI, the
-- network, configuration loading; of the supervisor, a spawn that the system refuses, and writes of its
-- log and meta file that fail; of the SQLite
-- store, the statements other than those named above; of the rooms, the arming of checkbacks and the
-- texts of hints.
pub mod Prelude
pub mod Regex
pub mod Composer
pub mod Message
pub mod Store
pub mod Ack
pub mod Gate
pub mod Checkback
pub mod Peer
pub mod Supervisor
pub mod Room
pub mod Target
pub mod Session
mod Examples
