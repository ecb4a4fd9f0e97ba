-- ===== src/Gate/Overload.antt =====
-- packages/daemon/src/inbox/inbox-overload.ts: too many pending injects start a cooldown in which
-- a pane gets nothing. The module's `Map` is the state, and the pending count an argument (the
-- caller's is `count_peer_pending_for_pane`). The warning's text is not modelled.
pub mod Cooldown
use seat_mesh.Prelude.{
  ℕ, ◌+◌, ◌-◌, ◌*◌, ◌/◌, Bool, true, false, Option, none, some, if◌then◌else◌, or_else, ltb, leb,
}
use seat_mesh.Prelude.Text.{Text}
use seat_mesh.Prelude.Dict.{Dict, lookup, put}

abbrev pub inbox_overload_threshold : ℕ
inbox_overload_threshold = 25

abbrev pub inbox_overload_cooldown_ms : ℕ
inbox_overload_cooldown_ms = 600000

pub data OverloadReason : Type 0 where
  cooldown_for : ℕ → OverloadReason
  cooldown_begins : OverloadReason

pub record InboxOverloadEval : Type 0 where
  pub hold : Bool
  pub reason : Option OverloadReason
  pub count : ℕ
  pub warn : Bool

unfoldable pub overload_cooldown_remaining_ms : Dict ℕ → Text → ℕ → ℕ
overload_cooldown_remaining_ms cooldowns pane now = or_else (lookup pane cooldowns) 0 - now

unfoldable pub evaluate_inbox_overload : Dict ℕ → Text → ℕ → ℕ → Dict ℕ × InboxOverloadEval
unfolding overload_cooldown_remaining_ms
evaluate_inbox_overload cooldowns pane count now =
    let remaining = overload_cooldown_remaining_ms cooldowns pane now in
    if ltb 0 remaining
    then (
      cooldowns,
      record {
        hold = true;
        reason = some (cooldown_for ((remaining + 999) / 1000));
        count = count;
        warn = false;
      },
    )
    else if leb inbox_overload_threshold count
    then (
      put pane (now + inbox_overload_cooldown_ms) cooldowns,
      record { hold = true; reason = some cooldown_begins; count = count; warn = true },
    )
    else (cooldowns, record { hold = false; reason = none; count = count; warn = false })
