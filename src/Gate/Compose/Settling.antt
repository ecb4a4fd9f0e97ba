-- ===== src/Gate/Compose/Settling.antt =====
-- The gate over a sequence of ticks, after a pane was seen generating.
use seat_mesh.Prelude.{
  ℕ, ◌+◌, ◌*◌, ◌≤◌, ◌<◌, ◌≡◌, refl, sym, ◌∙◌, ◌⊎◌, inl, inr, Bool, true, false, ◌||◌, List, [], ◌∷◌,
  All, arith, Bool-cases,
}
use seat_mesh.Prelude.Text.{Text, trim, is_truthy, text_eq_iff}
use seat_mesh.Composer.{Phase, busy, limit, plain_shell}
use seat_mesh.Gate.Compose.{
  GateConfig, PaneGateState, inbox_skip_typing_gate, classify_phase, not_busy, end_busy,
  track_draft_age, hold_typing, composer_idle_ready, settle, mark_busy, is_typing,
}
use seat_mesh.Gate.Compose.Safety.{gate_delivers_safely}

pub record Tick : Type 0 where
  pub phase : Phase
  pub draft : Text
  pub now : ℕ

-- The gate's answers to the ticks of one pane.
pub gate_run : GateConfig → PaneGateState → List Tick → List Bool
gate_run c st [] = []
gate_run c st (t ∷ ts) =
    let (st', result) = classify_phase c st t.phase t.draft t.now in
    result.can_deliver ∷ gate_run c st' ts

-- Generating ended no earlier than `since`, and so did any draft that is being timed begin.
record Fresh (since : ℕ) (st : PaneGateState) : Type 0 where
  ended : (st.was_busy ≡ true) ⊎ (since ≤ st.last_busy_ended_at)
  begun : (st.draft_fp ≡ []) ⊎ (since ≤ st.draft_since)

module _ (c : GateConfig) (since : ℕ) where
  end_busy-Fresh :
      (st : PaneGateState) (now : ℕ) → since ≤ now → Fresh since st → Fresh since (end_busy st now)
  unfolding end_busy
  end_busy-Fresh st now le h = ground arith

  track-Fresh :
      (st : PaneGateState) (fp : Text) (now : ℕ)
      → since ≤ now
      → Fresh since st
      → Fresh since (track_draft_age st fp now).0
  unfolding track_draft_age
  track-Fresh st [] now le h = ground arith
  track-Fresh st (x ∷ s) now le h = ground (arith, text_eq_iff (x ∷ s) st.draft_fp)

  hold-Fresh :
      (st : PaneGateState) (draft : Text) (age : ℕ)
      → Fresh since st
      → Fresh since (hold_typing c st draft age).0
  unfolding hold_typing
  hold-Fresh st draft age h = ground arith

  settle-Fresh : (st : PaneGateState) (now : ℕ) → Fresh since st → Fresh since (settle c st now).0
  unfolding settle
  settle-Fresh st now h = ground arith

  not_busy-Fresh :
      (st : PaneGateState) (phase : Phase) (draft : Text) (now : ℕ)
      → since ≤ now
      → Fresh since st
      → Fresh since (not_busy c st phase draft now).0
  unfolding not_busy
  not_busy-Fresh st phase draft now le h =
      let (tr, age) = track_draft_age (end_busy st now) (trim draft) now in
      let fresh : Fresh since tr =
        track-Fresh (end_busy st now) (trim draft) now le (end_busy-Fresh st now le h) in
      elim (Bool-cases (is_typing phase || is_truthy draft)) [
        | inl hold ↦ rw (hold, not_busy) (hold-Fresh tr draft age fresh)
        | inr clear ↦ elim (Bool-cases (composer_idle_ready phase draft)) [
          | inl ready ↦ rw (clear, ready, not_busy) (settle-Fresh tr now fresh)
          | inr wait ↦
              rw (clear, wait, not_busy) (record { ended = fresh.ended; begun = fresh.begun })
        ]
      ]

  classify-Fresh :
      (st : PaneGateState) (phase : Phase) (draft : Text) (now : ℕ)
      → since ≤ now
      → Fresh since st
      → Fresh since (classify_phase c st phase draft now).0
  unfolding classify_phase
  classify-Fresh st plain_shell draft now le h = h
  classify-Fresh st limit draft now le h = h
  classify-Fresh st busy draft now le h = elim (Bool-cases (inbox_skip_typing_gate c)) [
    | inl skip ↦ rw (skip, classify_phase) h
    | inr gated ↦
        rw (gated, classify_phase)
          (unfold mark_busy in record { ended = inl refl; begun = inl refl })
  ]
  classify-Fresh st phase draft now le h = elim (Bool-cases (inbox_skip_typing_gate c)) [
    | inl skip ↦ rw (skip, classify_phase) h
    | inr gated ↦ rw (gated, classify_phase) (not_busy-Fresh st phase draft now le h)
  ]

-- The window of the settle time.
abbrev pub IsInWindow : GateConfig → ℕ → Tick → Type 0
IsInWindow c since t = (since ≤ t.now) × (t.now < since + c.idle_settle_ms)

module _ (c : GateConfig) (since : ℕ) (started : 0 < since)
    (gated : inbox_skip_typing_gate c ≡ false)
    (short : c.idle_settle_ms ≤ c.stuck_draft_sec * 1000) where
  Fresh-refuses :
      (st : PaneGateState) (t : Tick)
      → IsInWindow c since t
      → Fresh since st
      → (classify_phase c st t.phase t.draft t.now).1.can_deliver ≡ false
  Fresh-refuses st t (after, before) h =
      elim (Bool-cases (classify_phase c st t.phase t.draft t.now).1.can_deliver) [
        | inr no_paste ↦ no_paste
        | inl paste ↦
            let (_, _, why) = gate_delivers_safely c st t.phase t.draft t.now (omega arith) paste in
            absurd (elim why [
              | inl skip ↦ cc
              | inr (_, inl (stuck, some_draft, same, age)) ↦ elim h.begun [
                | inl none_ ↦ some_draft (sym same ∙ none_)
                | inr late ↦ omega arith
              ]
              | inr (_, inr (no_draft, idle, ready, empty_for, ended)) ↦ elim h.ended [
                | inl w ↦ cc
                | inr late ↦ elim ended [ inl never ↦ omega arith | inr long ↦ omega arith ]
              ]
            ])
      ]

  run_refuses :
      (st : PaneGateState) (ts : List Tick)
      → All (IsInWindow c since) ts
      → Fresh since st
      → All (λ b. b ≡ false) (gate_run c st ts)
  unfolding gate_run
  run_refuses st [] hs h = tt
  run_refuses st (t ∷ ts) (w, hs) h = (
    Fresh-refuses st t w h,
    run_refuses (classify_phase c st t.phase t.draft t.now).0 ts hs
        (classify-Fresh c since st t.phase t.draft t.now w.0 h),
  )

-- With the typing gate on and a settle time no longer than the stuck time, a pane that was seen
-- generating gets no paste at any of the ticks that follow, where these lie within one settle time
-- from an instant after 0, whatever phases and drafts they see.
pub settles_after_busy :
    (c : GateConfig) (st : PaneGateState) (draft : Text) (seen since : ℕ) (ts : List Tick)
    → 0 < since
    → inbox_skip_typing_gate c ≡ false
    → c.idle_settle_ms ≤ c.stuck_draft_sec * 1000
    → All (IsInWindow c since) ts
    → All (λ b. b ≡ false) (gate_run c (classify_phase c st busy draft seen).0 ts)
unfolding classify_phase mark_busy
settles_after_busy c st draft seen since ts started gated short within =
    rw (gated, classify_phase)
      (run_refuses c since started gated short (mark_busy st) ts within
        (record { ended = inl refl; begun = inl refl }))
