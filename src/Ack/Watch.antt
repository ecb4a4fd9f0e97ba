-- ===== src/Ack/Watch.antt =====
-- packages/daemon/src/ack/ack-watch.ts: the in-memory watch of the composers. The module's maps and
-- lists are the fields of one record. An absent phase is the default `""`.
pub mod Safety
pub mod Quiet
use seat_mesh.Prelude.{
  ℕ, ◌-◌, Bool, true, false, not, ◌&&◌, Option, none, some, List, [], ◌∷◌, ◌++◌, if◌then◌else◌,
  or_else, ltb, ◌==◌,
}
use seat_mesh.Prelude.Text.{Text, text_eq}
use seat_mesh.Prelude.Lists.{any}
use seat_mesh.Prelude.Dict.{Dict, lookup, put, remove}
use seat_mesh.Composer.{Phase, empty, busy, afk}
use seat_mesh.Ack.Prompt.{
  PromptWatchState, PromptWatchEvent, submitted, PromptObservation, empty_prompt_watch,
  classify_prompt_tick,
}

pub record OperatorPrompt : Type 0 where
  pub pane_id : Text
  pub label : Text
  pub prompt : Text
  pub at : ℕ

abbrev pub daemon_inject_quiet_ms : ℕ
daemon_inject_quiet_ms = 5000

pub record OperatorReplyArm : Type 0 where
  pub armed : Bool
  pub saw_busy : Bool

pub record AckWatch : Type 0 where
  pub watch_by_pane : Dict PromptWatchState
  pub injected_at_by_pane : Dict ℕ
  pub pending : List OperatorPrompt
  pub reply_arm_by_pane : Dict OperatorReplyArm
  pub pending_pane_reply_close : List Text

unfoldable pub reset_ack_watch : AckWatch
reset_ack_watch = record {
  watch_by_pane = [];
  injected_at_by_pane = [];
  pending = [];
  reply_arm_by_pane = [];
  pending_pane_reply_close = [];
}

unfoldable pub note_daemon_inject : AckWatch → Text → ℕ → AckWatch
note_daemon_inject w pane now = record w {
  injected_at_by_pane = put pane now w.injected_at_by_pane;
  watch_by_pane = remove pane w.watch_by_pane;
  reply_arm_by_pane = remove pane w.reply_arm_by_pane;
}

abbrev is_busy : Option Phase → Bool
is_busy (some busy) = true
is_busy _ = false

-- `phase === "empty" || phase === "afk"`
abbrev is_at_rest : Option Phase → Bool
is_at_rest (some empty) = true
is_at_rest (some afk) = true
is_at_rest _ = false

track_arm : AckWatch → Text → Option Phase → Option OperatorReplyArm → AckWatch
track_arm w pane phase none = w
track_arm w pane phase (some arm) =
    if not arm.armed
    then w
    else if is_busy phase
    then record w {
      reply_arm_by_pane = put pane (record arm { saw_busy = true }) w.reply_arm_by_pane;
    }
    else if arm.saw_busy && is_at_rest phase
    then record w {
      pending_pane_reply_close = w.pending_pane_reply_close ++ pane ∷ [];
      reply_arm_by_pane = remove pane w.reply_arm_by_pane;
    }
    else w

unfoldable pub track_operator_reply_cycle : AckWatch → Text → Option Phase → AckWatch
unfolding track_arm
track_operator_reply_cycle w pane phase = track_arm w pane phase (lookup pane w.reply_arm_by_pane)

-- What a tick's event adds: a prompt, and the arm that waits for the answer.
on_event : AckWatch → Text → Text → ℕ → PromptWatchEvent → AckWatch
on_event w pane label now (submitted prompt) = record w {
  pending = w.pending ++ (record { pane_id = pane; label = label; prompt = prompt; at = now }) ∷ [];
  reply_arm_by_pane = put pane (record { armed = true; saw_busy = false }) w.reply_arm_by_pane;
}
on_event w pane label now _ = w

in_quiet : Option ℕ → ℕ → Bool
in_quiet injected now =
    let at = or_else injected 0 in not (at == 0) && ltb (now - at) daemon_inject_quiet_ms

unfoldable pub observe_pane_composer :
    AckWatch → Text → Text → Text → Text → Option Phase → ℕ → AckWatch
unfolding track_operator_reply_cycle on_event in_quiet
observe_pane_composer w pane label draft capture_tail phase now =
    if in_quiet (lookup pane w.injected_at_by_pane) now
    then record w { watch_by_pane = put pane empty_prompt_watch w.watch_by_pane }
    else let (next, event) =
        classify_prompt_tick (lookup pane w.watch_by_pane)
          (record { draft = draft; capture_tail = capture_tail }) now in
      let watched = record w { watch_by_pane = put pane next w.watch_by_pane } in
      track_operator_reply_cycle (on_event watched pane label now event) pane phase

unfoldable pub drain_operator_prompts : AckWatch → AckWatch × List OperatorPrompt
drain_operator_prompts w = (record w { pending = [] }, w.pending)

-- `[...new Set(xs)]`: the first of each
unfoldable pub distinct_texts : List Text → List Text → List Text
unfolding text_eq
distinct_texts seen [] = []
distinct_texts seen (t ∷ ts) =
    let fresh = t ∷ distinct_texts (t ∷ seen) ts in
    let again = distinct_texts seen ts in if any (λ s. text_eq s t) seen then again else fresh

unfoldable pub drain_operator_pane_reply_closes : AckWatch → AckWatch × List Text
unfolding distinct_texts
drain_operator_pane_reply_closes w =
    (record w { pending_pane_reply_close = [] }, distinct_texts [] w.pending_pane_reply_close)
