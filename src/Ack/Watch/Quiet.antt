-- ===== src/Ack/Watch/Quiet.antt =====
-- The ticks after a paste by the daemon.
use seat_mesh.Prelude.{
  ℕ, ◌+◌, ◌<◌, ◌≡◌, inl, inr, true, false, Option, none, some, List, [], ◌∷◌, count-append, All,
  arith, Bool-cases,
}
use seat_mesh.Prelude.Text.{Text, text_eq, text_eq_iff, text_eq_refl}
use seat_mesh.Prelude.Dict.{lookup, put, lookup-put, lookup-remove}
use seat_mesh.Composer.{Phase}
use seat_mesh.Ack.Prompt.{
  PromptObservation, classify_prompt_tick, PromptWatchEvent, quiet, typing, submitted, abandoned,
}
use seat_mesh.Ack.Watch.{
  AckWatch, OperatorReplyArm, note_daemon_inject, track_arm, on_event, in_quiet,
  observe_pane_composer,
}
use seat_mesh.Ack.Watch.Safety.{WatchEvent, inject, observe, watch_run, prompts_for, closes_for}

-- The pane was injected into at `at`, and waits for no reply.
record Quiet (pane : Text) (at prompts closes : ℕ) (w : AckWatch) : Type 0 where
  injected : lookup pane w.injected_at_by_pane ≡ some at
  unarmed : lookup pane w.reply_arm_by_pane ≡ none
  asked : prompts_for pane w ≡ prompts
  closed : closes_for pane w ≡ closes

-- Ticks of any pane within the window, and injects into other panes.
abbrev pub IsWithin : Text → ℕ → WatchEvent → Type 0
IsWithin pane at (inject q now) = text_eq q pane ≡ false
IsWithin pane at (observe q label draft tail phase now) = now < at + 5000

module _ (pane : Text) (at prompts closes : ℕ) (positive : 0 < at) where
  abbrev Q : AckWatch → Type 0
  Q = Quiet pane at prompts closes

  on_event-Quiet :
      (w : AckWatch) (q label : Text) (now : ℕ) (e : PromptWatchEvent)
      → text_eq q pane ≡ false
      → Q w
      → Q (on_event w q label now e)
  unfolding on_event
  on_event-Quiet w q label now (submitted prompt) other h = ground (
    arith,
    h,
    other,
    lookup-put q pane (record { armed = true; saw_busy = false }) w.reply_arm_by_pane,
    count-append (λ p. text_eq p.pane_id pane) w.pending
        (record { pane_id = q; label = label; prompt = prompt; at = now } ∷ []),
  )
  on_event-Quiet w q label now quiet other h = h
  on_event-Quiet w q label now typing other h = h
  on_event-Quiet w q label now abandoned other h = h

  track_arm-Quiet :
      (w : AckWatch) (q : Text) (phase : Option Phase) (arm : Option OperatorReplyArm)
      → text_eq q pane ≡ false
      → Q w
      → Q (track_arm w q phase arm)
  unfolding track_arm
  track_arm-Quiet w q phase none other h = h
  track_arm-Quiet w q phase (some arm) other h = ground (
    arith,
    h,
    other,
    lookup-put q pane (record arm { saw_busy = true }) w.reply_arm_by_pane,
    lookup-remove q pane w.reply_arm_by_pane,
    count-append (λ p. text_eq p pane) w.pending_pane_reply_close (q ∷ []),
  )

  held_by :
      (found : Option ℕ) (now : ℕ) → found ≡ some at → now < at + 5000 → in_quiet found now ≡ true
  unfolding in_quiet
  held_by found now e soon = rw e (ground arith)

  held-Quiet :
      (w : AckWatch) (q label draft tail : Text) (phase : Option Phase) (now : ℕ)
      → in_quiet (lookup q w.injected_at_by_pane) now ≡ true
      → Q w
      → Q (observe_pane_composer w q label draft tail phase now)
  unfolding observe_pane_composer
  held-Quiet w q label draft tail phase now held h =
      rw (held, observe_pane_composer)
        (record { injected = h.injected; unarmed = h.unarmed; asked = h.asked; closed = h.closed })

  observe-Quiet :
      (w : AckWatch) (q label draft tail : Text) (phase : Option Phase) (now : ℕ)
      → now < at + 5000
      → Q w
      → Q (observe_pane_composer w q label draft tail phase now)
  unfolding observe_pane_composer
  observe-Quiet w q label draft tail phase now soon h =
      elim (Bool-cases (in_quiet (lookup q w.injected_at_by_pane) now)) [
        | inl held ↦ held-Quiet w q label draft tail phase now held h
        | inr free ↦ elim (Bool-cases (text_eq q pane)) [
          | inl same ↦
              let here : lookup q w.injected_at_by_pane ≡ some at =
                rw ((text_eq_iff q pane).0 same) h.injected in
              absurd (let held = held_by _ now here soon in cc)
          | inr other ↦
              let obs : PromptObservation = record { draft = draft; capture_tail = tail } in
              let tick = classify_prompt_tick (lookup q w.watch_by_pane) obs now in
              let w₁ : AckWatch = record w { watch_by_pane = put q tick.0 w.watch_by_pane } in
              let w₂ : AckWatch = on_event w₁ q label now tick.1 in
              rw (free, observe_pane_composer)
                (track_arm-Quiet w₂ q phase (lookup q w₂.reply_arm_by_pane) other (
                  on_event-Quiet w₁ q label now tick.1 other (record {
                    injected = h.injected;
                    unarmed = h.unarmed;
                    asked = h.asked;
                    closed = h.closed;
                  })))
        ]
      ]

  note-Quiet :
      (w : AckWatch) (q : Text) (now : ℕ)
      → text_eq q pane ≡ false
      → Q w
      → Q (note_daemon_inject w q now)
  unfolding note_daemon_inject
  note-Quiet w q now other h = ground (
    arith,
    h,
    other,
    lookup-put q pane now w.injected_at_by_pane,
    lookup-remove q pane w.reply_arm_by_pane,
  )

  run-Quiet :
      (w : AckWatch) (es : List WatchEvent) → All (IsWithin pane at) es → Q w → Q (watch_run w es)
  unfolding watch_run
  run-Quiet w [] hs h = h
  run-Quiet w (inject q now ∷ es) (other, hs) h =
      run-Quiet (note_daemon_inject w q now) es hs (note-Quiet w q now other h)
  run-Quiet w (observe q label draft tail phase now ∷ es) (soon, hs) h =
      run-Quiet (observe_pane_composer w q label draft tail phase now) es hs
        (observe-Quiet w q label draft tail phase now soon h)

noted-Quiet :
    (w : AckWatch) (pane : Text) (at : ℕ)
    → Quiet pane at (prompts_for pane w) (closes_for pane w) (note_daemon_inject w pane at)
unfolding note_daemon_inject
noted-Quiet w pane at = ground (
  arith,
  text_eq_refl pane,
  lookup-put pane pane at w.injected_at_by_pane,
  lookup-remove pane pane w.reply_arm_by_pane,
)

-- After the daemon pasted into a pane at a time other than 0, whatever ticks follow on any pane
-- less than five seconds later, and whatever other panes are injected into, no operator ask and no
-- in-pane reply is recorded for that pane.
pub inject_is_no_ask :
    (w : AckWatch) (pane : Text) (at : ℕ) (es : List WatchEvent)
    → 0 < at
    → All (IsWithin pane at) es
    → let w' = watch_run (note_daemon_inject w pane at) es in
      (prompts_for pane w' ≡ prompts_for pane w) × (closes_for pane w' ≡ closes_for pane w)
inject_is_no_ask w pane at es positive within =
    let q =
      run-Quiet pane at (prompts_for pane w) (closes_for pane w) positive
        (note_daemon_inject w pane at) es within (noted-Quiet w pane at) in
    (q.asked, q.closed)
