-- ===== src/Gate.antt =====
-- packages/daemon/src/inject and packages/daemon/src/inbox: what stands between a queued message and a paste.
pub mod Compose
pub mod PaneHold
pub mod Overload
