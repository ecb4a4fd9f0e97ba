-- ===== src/Peer.antt =====
-- packages/daemon/src/peer: messages between seats, from the queue to the pane.
pub mod Skip
pub mod Pending
pub mod Bulk
pub mod Backlog
pub mod Promote
pub mod Drain
