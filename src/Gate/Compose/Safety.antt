-- ===== src/Gate/Compose/Safety.antt =====
-- When the gate lets a paste through.
use seat_mesh.Prelude.{
  ℕ, ◌+◌, ◌-◌, ◌*◌, ◌≤◌, ◌<◌, ◌≡◌, refl, ◌≢◌, ◌⊎◌, inl, inr, true, false, ◌||◌, [], ◌∷◌, arith,
  Bool-cases,
}
use seat_mesh.Prelude.Text.{Text, text_eq_iff, trim, is_truthy}
use seat_mesh.Composer.{Phase, empty, busy, afk, limit, plain_shell}
use seat_mesh.Gate.Compose.{
  GateConfig, PaneGateState, inbox_skip_typing_gate, classify_phase, not_busy, end_busy,
  track_draft_age, hold_typing, composer_idle_ready, settle, is_typing,
}

-- The same draft has stood unchanged for the stuck time, and is pasted around.
abbrev pub StoodLong : GateConfig → PaneGateState → Text → ℕ → Type 0
StoodLong c st draft now =
    (0 < c.stuck_draft_sec)
    × (trim draft ≢ [])
    × (st.draft_fp ≡ trim draft)
    × (c.stuck_draft_sec * 1000 ≤ now - st.draft_since)

-- No draft, and both the empty composer and the end of generating are the settle time ago.
abbrev pub Settled : GateConfig → PaneGateState → Text → ℕ → Type 0
Settled c st draft now =
    (draft ≡ [])
    × (st.was_busy ≡ false)
    × (0 < st.idle_ready_since)
    × (st.idle_ready_since + c.idle_settle_ms ≤ now)
    × ((st.last_busy_ended_at ≡ 0) ⊎ (st.last_busy_ended_at + c.idle_settle_ms ≤ now))

hold_delivers :
    (c : GateConfig) (st : PaneGateState) (draft : Text) (age : ℕ)
    → (hold_typing c st draft age).1.can_deliver ≡ true
    → (0 < c.stuck_draft_sec) × (c.stuck_draft_sec * 1000 ≤ age)
unfolding hold_typing
hold_delivers c st draft age h = ground arith

track_age :
    (st : PaneGateState) (fp : Text) (now : ℕ)
    → 0 < (track_draft_age st fp now).1
    → (fp ≢ []) × (st.draft_fp ≡ fp) × ((track_draft_age st fp now).1 ≡ now - st.draft_since)
unfolding track_draft_age
track_age st [] now h = absurd (omega arith)
track_age st (c ∷ s) now h = ground (arith, text_eq_iff (c ∷ s) st.draft_fp)

settle_delivers :
    (c : GateConfig) (st : PaneGateState) (now : ℕ)
    → 0 < c.idle_settle_ms
    → (settle c st now).1.can_deliver ≡ true
    → (0 < st.idle_ready_since)
      × (st.idle_ready_since + c.idle_settle_ms ≤ now)
      × ((st.last_busy_ended_at ≡ 0) ⊎ (st.last_busy_ended_at + c.idle_settle_ms ≤ now))
unfolding settle
settle_delivers c st now pos h = ground arith

ready_no_draft :
    (phase : Phase) (draft : Text) → composer_idle_ready phase draft ≡ true → draft ≡ []
unfolding composer_idle_ready
ready_no_draft empty [] h = refl
ready_no_draft empty (c ∷ s) h = cc
ready_no_draft afk [] h = refl
ready_no_draft afk (c ∷ s) h = cc
ready_no_draft phase draft h = cc

end_busy-draft :
    (st : PaneGateState) (now : ℕ)
    → ((end_busy st now).draft_fp ≡ st.draft_fp) × ((end_busy st now).draft_since ≡ st.draft_since)
unfolding end_busy
end_busy-draft st now = ground arith

end_busy-clocks :
    (st : PaneGateState) (now : ℕ)
    → 0 < (end_busy st now).idle_ready_since
    → (st.was_busy ≡ false)
      × ((end_busy st now).idle_ready_since ≡ st.idle_ready_since)
      × ((end_busy st now).last_busy_ended_at ≡ st.last_busy_ended_at)
unfolding end_busy
end_busy-clocks st now h = ground arith

track-clocks :
    (st : PaneGateState) (fp : Text) (now : ℕ)
    → ((track_draft_age st fp now).0.idle_ready_since ≡ st.idle_ready_since)
      × ((track_draft_age st fp now).0.last_busy_ended_at ≡ st.last_busy_ended_at)
unfolding track_draft_age
track-clocks st [] now = (refl, refl)
track-clocks st (c ∷ s) now = ground arith

module _ (c : GateConfig) (st : PaneGateState) (phase : Phase) (draft : Text) (now : ℕ) where
  abbrev tracked : PaneGateState × ℕ
  tracked = track_draft_age (end_busy st now) (trim draft) now

  held-StoodLong :
      (hold_typing c tracked.0 draft tracked.1).1.can_deliver ≡ true → StoodLong c st draft now
  held-StoodLong h =
      let (stuck, age) = hold_delivers c tracked.0 draft tracked.1 h in
      let (some_draft, same, is_age) = track_age (end_busy st now) (trim draft) now (omega arith) in
      let (fp, stood) = end_busy-draft st now in
      (stuck, some_draft, cc, rw stood at (rw is_age at age))

  settle-Settled :
      0 < c.idle_settle_ms
      → composer_idle_ready phase draft ≡ true
      → (settle c tracked.0 now).1.can_deliver ≡ true
      → Settled c st draft now
  settle-Settled pos ready h =
      let (a, b, d) = settle_delivers c tracked.0 now pos h in
      let (k, l) = track-clocks (end_busy st now) (trim draft) now in
      let (w, x, y) = end_busy-clocks st now (omega (arith, k)) in
      (
        ready_no_draft phase draft ready,
        w,
        omega (arith, k, x),
        omega (arith, k, x),
        elim d [ inl zero_ ↦ inl (omega (arith, l, y)) | inr late ↦ inr (omega (arith, l, y)) ],
      )

  not_busy_delivers :
      0 < c.idle_settle_ms
      → (not_busy c st phase draft now).1.can_deliver ≡ true
      → StoodLong c st draft now ⊎ Settled c st draft now
  unfolding not_busy
  not_busy_delivers pos h = elim (Bool-cases (is_typing phase || is_truthy draft)) [
    | inl hold ↦ inl (held-StoodLong (rw (hold, not_busy) at h))
    | inr clear ↦ elim (Bool-cases (composer_idle_ready phase draft)) [
      | inl ready ↦ inr (settle-Settled pos ready (rw (clear, ready, not_busy) at h))
      | inr wait ↦ absurd (let h' = rw (clear, wait, not_busy) at h in cc)
    ]
  ]

-- With a settle time above zero, whenever the gate lets a paste through, the pane has an agent that
-- is not at a limit, and either the operator switched the typing gate off, or the pane is not
-- generating and either the same draft has stood for the stuck time, or there is no draft and both
-- the empty composer and the end of generating lie at least the settle time back.
pub gate_delivers_safely :
    (c : GateConfig) (st : PaneGateState) (phase : Phase) (draft : Text) (now : ℕ)
    → 0 < c.idle_settle_ms
    → (classify_phase c st phase draft now).1.can_deliver ≡ true
    → (phase ≢ plain_shell)
      × (phase ≢ limit)
      × ((inbox_skip_typing_gate c ≡ true)
          ⊎ ((phase ≢ busy) × (StoodLong c st draft now ⊎ Settled c st draft now)))
unfolding classify_phase
gate_delivers_safely c st plain_shell draft now pos h = absurd (cc)
gate_delivers_safely c st limit draft now pos h = absurd (cc)
gate_delivers_safely c st busy draft now pos h = elim (Bool-cases (inbox_skip_typing_gate c)) [
  | inl skip ↦ (λ e. cc, λ e. cc, inl skip)
  | inr gated ↦ absurd (let h' = rw (gated, classify_phase) at h in cc)
]
gate_delivers_safely c st phase draft now pos h = elim (Bool-cases (inbox_skip_typing_gate c)) [
  | inl skip ↦ (λ e. cc, λ e. cc, inl skip)
  | inr gated ↦ (
    λ e. cc,
    λ e. cc,
    inr (λ e. cc, not_busy_delivers c st phase draft now pos (rw (gated, classify_phase) at h)),
  )
]
