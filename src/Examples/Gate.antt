-- ===== src/Examples/Gate.antt =====
-- The delivery gate of one pane.
use seat_mesh.Prelude.{ℕ, ◌≡◌, refl, ◌≢◌, ◌⊎◌, true, false, none, List, [], ◌∷◌, All, arith}
use seat_mesh.Prelude.Text.{Text, codes}
use seat_mesh.Composer.{empty, typing, busy, limit, plain_shell}
use seat_mesh.Gate.Compose.{
  GateConfig, PaneGateState, inbox_skip_typing_gate, classify_phase, classify_coord_delivery,
}
use seat_mesh.Gate.Compose.Safety.{StoodLong, Settled, gate_delivers_safely}
use seat_mesh.Gate.Compose.Settling.{Tick, gate_run, settles_after_busy}

abbrev config : GateConfig
config = record {
  idle_settle_ms = 1500;
  stuck_draft_sec = 45;
  profile_skip_typing_gate = false;
  env_skip_typing_gate = none;
}

-- Generating ended at 1000, and the composer is empty since.
abbrev rested : PaneGateState
rested = record {
  was_busy = false;
  last_busy_ended_at = 1000;
  idle_ready_since = 1000;
  draft_fp = [];
  draft_since = 0;
}

gate_delivers_safely_example :
    (empty ≢ plain_shell)
    × (empty ≢ limit)
    × ((inbox_skip_typing_gate config ≡ true)
        ⊎ ((empty ≢ busy) × (StoodLong config rested [] 9000 ⊎ Settled config rested [] 9000)))
unfolding classify_coord_delivery
gate_delivers_safely_example = gate_delivers_safely config rested empty [] 9000 (omega arith) refl

abbrev ticks : List Tick
ticks =
    record { phase = empty; draft = []; now = 5000 }
    ∷ record { phase = typing; draft = codes "fix"; now = 5400 }
    ∷ record { phase = empty; draft = []; now = 6400 }
    ∷ []

settles_after_busy_example :
    All (λ b. b ≡ false) (gate_run config (classify_phase config rested busy [] 4000).0 ticks)
unfolding classify_coord_delivery
settles_after_busy_example =
    settles_after_busy config rested [] 4000 5000 ticks (omega arith) refl (omega arith)
      ((omega arith, omega arith), ((omega arith, omega arith), ((omega arith, omega arith), tt)))

abbrev pane : Text
pane = codes "%3"

abbrev pressure : List (ℕ × ℕ)
pressure = (40, 1000) ∷ (3, 599999) ∷ []
