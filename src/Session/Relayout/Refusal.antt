-- ===== src/Session/Relayout/Refusal.antt =====
-- A relayout that is not forced kills no pane at work.
use seat_mesh.Prelude.{◌≡◌, []}
use seat_mesh.Prelude.Text.{Text}
use seat_mesh.Session.Relayout.{GuardedPane, Relayout, activity_reasons}

abbrev pub IsQuiet : GuardedPane → Type 0
IsQuiet p = activity_reasons p ≡ []
