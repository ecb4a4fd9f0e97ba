-- ===== src/Session.antt =====
-- packages/tmux/src/session: what the panes of a session are labelled with.
pub mod Labels
pub mod Relayout
