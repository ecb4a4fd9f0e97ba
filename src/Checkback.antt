-- ===== src/Checkback.antt =====
-- packages/daemon/src/checkback: the timed polls of a pane.
pub mod Fire
pub mod CcLimit
