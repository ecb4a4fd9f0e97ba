-- ===== src/Checkback/Fire/Renewal.antt =====
-- How often a row fires, and how long a failed fire puts it off.
use seat_mesh.Prelude.{
  ℕ, suc, ◌+◌, ◌≤◌, ◌<◌, ◌≡◌, refl, true, false, some, List, [], ◌∷◌, length, or_else,
  if◌then◌else◌, arith, Bool-cases, inl, inr, ◌⊎◌,
}
use seat_mesh.Store.Rows.{CheckbackRow}
use seat_mesh.Checkback.Fire.{
  checkback_unbounded_renew, should_renew_checkback, fire_cap, is_active, is_due, expiry,
  defer_checkback_after_failed_fire, renew_after_fire,
}

-- The row after fires at the instants given; only an active row fires.
abbrev pub fire_run : CheckbackRow → ℕ → List ℕ → CheckbackRow
fire_run row max_fires [] = row
fire_run row max_fires (t ∷ ts) =
    fire_run (if is_active row then renew_after_fire row t max_fires t else row) max_fires ts

renews_below :
    (row : CheckbackRow) (fired_at max_fires : ℕ)
    → checkback_unbounded_renew row.kind ≡ false
    → should_renew_checkback row fired_at max_fires ≡ true
    → or_else row.fire_count 0 < fire_cap max_fires
unfolding should_renew_checkback
renews_below row fired_at max_fires ordinary h = ground arith

renewed :
    (row : CheckbackRow) (fired_at max_fires now : ℕ)
    → checkback_unbounded_renew row.kind ≡ false
    → let row' = renew_after_fire row fired_at max_fires now in
      (is_active row' ≡ false)
      ⊎ ((row'.kind ≡ row.kind)
          × (or_else row'.fire_count 0 ≡ or_else row.fire_count 0 + 1)
          × (or_else row'.fire_count 0 < fire_cap max_fires))
unfolding renew_after_fire
renewed row fired_at max_fires now ordinary =
    let counted : CheckbackRow = record row { fire_count = some (or_else row.fire_count 0 + 1) } in
    elim (Bool-cases (should_renew_checkback counted fired_at max_fires)) [
      | inl again ↦
          rw again (inr (refl, refl, renews_below counted fired_at max_fires ordinary again))
      | inr over ↦ rw over (inl refl)
    ]

stopped :
    (row : CheckbackRow) (max_fires : ℕ) (ts : List ℕ)
    → is_active row ≡ false
    → is_active (fire_run row max_fires ts) ≡ false
stopped row max_fires [] h = h
stopped row max_fires (t ∷ ts) h = rw h (stopped row max_fires ts h)

-- A row of an ordinary kind that fires once more and has then, over all its time, fired at least
-- as often as the cap allows (3 times where the profile sets none) is no longer active.
pub ordinary_row_stops :
    (row : CheckbackRow) (max_fires t : ℕ) (ts : List ℕ)
    → checkback_unbounded_renew row.kind ≡ false
    → fire_cap max_fires ≤ or_else row.fire_count 0 + suc (length ts)
    → is_active (fire_run row max_fires (t ∷ ts)) ≡ false
ordinary_row_stops row max_fires t [] ordinary often = elim (Bool-cases (is_active row)) [
  | inr off ↦ rw off off
  | inl on ↦ rw on (elim (renewed row t max_fires t ordinary) [
    | inl off ↦ off
    | inr (kind, counted, below) ↦ absurd (omega arith)
  ])
]
ordinary_row_stops row max_fires t (u ∷ us) ordinary often = elim (Bool-cases (is_active row)) [
  | inr off ↦ rw off (stopped row max_fires (u ∷ us) off)
  | inl on ↦ rw on (elim (renewed row t max_fires t ordinary) [
    | inl off ↦ stopped (renew_after_fire row t max_fires t) max_fires (u ∷ us) off
    | inr (kind, counted, below) ↦
        ordinary_row_stops (renew_after_fire row t max_fires t) max_fires u us (rw kind ordinary)
          (omega arith)
  ])
]

-- The row that `deferCheckbackAfterFailedFire` returns is as active as it was, is not due for the next
-- 30 seconds and, where it is active, is due again from 90 seconds after the failure on. The branch
-- for coord-expect goes on from there to the renewal, which may change the row again.
deferred_is_due_again :
    (row : CheckbackRow) (fired_at now later : ℕ)
    → let row' = defer_checkback_after_failed_fire row fired_at now in
      (is_active row' ≡ is_active row)
      × (fired_at + 30000 ≤ expiry row')
      × (expiry row' ≤ fired_at + 90000)
      × (is_due (fired_at + 90000 + later) row' ≡ is_active row)
unfolding defer_checkback_after_failed_fire
deferred_is_due_again row fired_at now later = ground arith
