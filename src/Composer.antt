-- ===== src/Composer.antt =====
-- `ComposerState` of packages/core/src/providers/types.ts: what a provider reads off a pane.
use seat_mesh.Prelude.{Option}
use seat_mesh.Prelude.Text.{Text}

pub data Phase : Type 0 where
  empty typing busy afk limit plain_shell : Phase

pub record ComposerState : Type 0 where
  pub phase : Phase
  pub limit_kind : Option Text
  pub draft_fingerprint : Option Text
  pub busy_label : Option Text
