-- ===== src/Ack/Watch/Safety.antt =====
-- The composer watch over any order of daemon injects and paint ticks, and its account of a pane.
use seat_mesh.Prelude.{
  ℕ, ◌+◌, ◌≤◌, ◌≡◌, refl, inl, inr, true, false, Option, none, some, List, [], ◌∷◌, is_some, count,
  count-append, arith, Bool-cases,
}
use seat_mesh.Prelude.Text.{Text, text_eq, text_eq_iff}
use seat_mesh.Prelude.Dict.{lookup, lookup-put, lookup-remove}
use seat_mesh.Prelude.Keyed.{tally}
use seat_mesh.Composer.{Phase}
use seat_mesh.Ack.Prompt.{PromptWatchEvent, quiet, typing, submitted, abandoned}
use seat_mesh.Ack.Watch.{
  AckWatch, OperatorReplyArm, reset_ack_watch, note_daemon_inject, track_arm, on_event, in_quiet,
  observe_pane_composer,
}

-- The daemon injects into a pane, or border paint feeds a pane's composer.
pub data WatchEvent : Type 0 where
  inject : (pane : Text) (now : ℕ) → WatchEvent
  observe : (pane label draft capture_tail : Text) (phase : Option Phase) (now : ℕ) → WatchEvent

unfoldable pub watch_run : AckWatch → List WatchEvent → AckWatch
watch_run w [] = w
watch_run w (inject pane now ∷ es) = watch_run (note_daemon_inject w pane now) es
watch_run w (observe pane label draft tail phase now ∷ es) =
    watch_run (observe_pane_composer w pane label draft tail phase now) es

-- Operator asks on record for a pane, and in-pane replies on record for it.
abbrev pub prompts_for : Text → AckWatch → ℕ
prompts_for pane w = count (λ p. text_eq p.pane_id pane) w.pending

abbrev pub closes_for : Text → AckWatch → ℕ
closes_for pane w = count (λ p. text_eq p pane) w.pending_pane_reply_close

abbrev arms_for : Text → AckWatch → ℕ
arms_for pane w = tally (is_some (lookup pane w.reply_arm_by_pane))

-- The account of one pane: replies, and an arm that still waits, never exceed the asks.
abbrev InBalance : Text → AckWatch → Type 0
InBalance pane w = closes_for pane w + arms_for pane w ≤ prompts_for pane w

module _ (pane : Text) where
  on_event-InBalance :
      (w : AckWatch) (q label : Text) (now : ℕ) (e : PromptWatchEvent)
      → InBalance pane w
      → InBalance pane (on_event w q label now e)
  unfolding on_event
  on_event-InBalance w q label now (submitted prompt) h = ground (
    arith,
    text_eq_iff q pane,
    lookup-put q pane (record { armed = true; saw_busy = false }) w.reply_arm_by_pane,
    count-append (λ p. text_eq p.pane_id pane) w.pending
        (record { pane_id = q; label = label; prompt = prompt; at = now } ∷ []),
  )
  on_event-InBalance w q label now quiet h = h
  on_event-InBalance w q label now typing h = h
  on_event-InBalance w q label now abandoned h = h

  track_arm-InBalance :
      (w : AckWatch) (q : Text) (phase : Option Phase) (arm : Option OperatorReplyArm)
      → lookup q w.reply_arm_by_pane ≡ arm
      → InBalance pane w
      → InBalance pane (track_arm w q phase arm)
  unfolding track_arm
  track_arm-InBalance w q phase none e h = h
  track_arm-InBalance w q phase (some arm) e h = ground (
    arith,
    text_eq_iff q pane,
    e,
    lookup-put q pane (record arm { saw_busy = true }) w.reply_arm_by_pane,
    lookup-remove q pane w.reply_arm_by_pane,
    count-append (λ p. text_eq p pane) w.pending_pane_reply_close (q ∷ []),
  )

  observe-InBalance :
      (w : AckWatch) (q label draft tail : Text) (phase : Option Phase) (now : ℕ)
      → InBalance pane w
      → InBalance pane (observe_pane_composer w q label draft tail phase now)
  unfolding observe_pane_composer
  observe-InBalance w q label draft tail phase now h =
      elim (Bool-cases (in_quiet (lookup q w.injected_at_by_pane) now)) [
        | inl held ↦ rw (held, observe_pane_composer) h
        | inr free ↦
            rw (free, observe_pane_composer)
              (track_arm-InBalance _ q phase _ refl (on_event-InBalance _ q label now _ h))
      ]

  note-InBalance :
      (w : AckWatch) (q : Text) (now : ℕ)
      → InBalance pane w
      → InBalance pane (note_daemon_inject w q now)
  unfolding note_daemon_inject
  note-InBalance w q now h =
      ground (arith, text_eq_iff q pane, lookup-remove q pane w.reply_arm_by_pane)

  run-InBalance :
      (w : AckWatch) (es : List WatchEvent) → InBalance pane w → InBalance pane (watch_run w es)
  unfolding watch_run
  run-InBalance w [] h = h
  run-InBalance w (inject q now ∷ es) h =
      run-InBalance (note_daemon_inject w q now) es (note-InBalance w q now h)
  run-InBalance w (observe q label draft tail phase now ∷ es) h =
      run-InBalance (observe_pane_composer w q label draft tail phase now) es
        (observe-InBalance w q label draft tail phase now h)

-- From a fresh watch, after any order of injects and ticks on any panes, a pane has at most as many
-- recorded in-pane replies as recorded operator asks.
pub run-closes-le-prompts :
    (pane : Text) (es : List WatchEvent)
    → closes_for pane (watch_run reset_ack_watch es)
      ≤ prompts_for pane (watch_run reset_ack_watch es)
unfolding reset_ack_watch
run-closes-le-prompts pane es =
    omega (arith, run-InBalance pane reset_ack_watch es (unfold lookup in omega arith))
