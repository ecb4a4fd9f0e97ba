-- ===== src/Checkback/CcLimit/Everyone.antt =====
-- The retry is armed for every Claude pane.
use seat_mesh.Prelude.{
  ℕ, ◌≡◌, refl, sym, ◌∙◌, true, false, not, List, [], ◌∷◌, ◌++◌, All, filter, find?, arith,
  Bool-cases, inl, inr, ap,
}
use seat_mesh.Prelude.Text.{Text, text_eq, text_eq_iff}
use seat_mesh.Prelude.Keyed.{upsert, IsDistinct}
use seat_mesh.Store.Rows.{CheckbackRow}
use seat_mesh.Store.Checkbacks.{upsert_checkback}
use seat_mesh.Checkback.CcLimit.{
  ClaudePaneHit, cc_limit_retry_id, active_row, is_armed, limit_row, arm_cc_limit_retry_checkback,
  arm_cc_limit_retry_for_all_claude_panes,
}
use seat_mesh.Checkback.CcLimit.Again.{arm_again_keeps}

abbrev pub row_of : ClaudePaneHit → Text
row_of p = cc_limit_retry_id p.pane_id

-- The pane's id has an active row for the time which names its fingerprint.
abbrev pub IsArmed : ℕ → List CheckbackRow → ClaudePaneHit → Type 0
IsArmed at rows p = is_armed p.fingerprint at (find? (active_row (row_of p)) rows) ≡ true

active_row-other :
    (id : Text) (row : CheckbackRow) (rows : List CheckbackRow)
    → text_eq row.id id ≡ false
    → find? (active_row id) (filter (λ r. not (text_eq r.id row.id)) rows ++ row ∷ [])
      ≡ find? (active_row id) rows
unfolding active_row
active_row-other id row [] n = rw n refl
active_row-other id row (x ∷ xs) n = elim (Bool-cases (text_eq x.id row.id)) [
  | inl same ↦
      let away : text_eq x.id id ≡ false = rw (sym ((text_eq_iff x.id row.id).0 same)) at n in
      rw (same, away) (active_row-other id row xs n)
  | inr other ↦ ground (arith, other, active_row-other id row xs n)
]

arm-other :
    (rows : List CheckbackRow) (pane_id fingerprint id : Text) (at now : ℕ)
    → text_eq (cc_limit_retry_id pane_id) id ≡ false
    → find? (active_row id) (arm_cc_limit_retry_checkback rows pane_id fingerprint at now)
      ≡ find? (active_row id) rows
unfolding arm_cc_limit_retry_checkback upsert_checkback upsert limit_row
arm-other rows pane_id fingerprint id at now n =
    let existing = find? (active_row (cc_limit_retry_id pane_id)) rows in
    elim (Bool-cases (is_armed fingerprint at existing)) [
      | inl armed ↦ rw armed refl
      | inr fresh ↦
          rw fresh (active_row-other id (limit_row pane_id fingerprint at now existing) rows n)
    ]

fanout_other :
    (ps : List ClaudePaneHit) (rows : List CheckbackRow) (id : Text) (at now : ℕ)
    → All (λ p. text_eq (row_of p) id ≡ false) ps
    → find? (active_row id) (arm_cc_limit_retry_for_all_claude_panes rows ps at now)
      ≡ find? (active_row id) rows
unfolding arm_cc_limit_retry_for_all_claude_panes
fanout_other [] rows id at now h = refl
fanout_other (p ∷ ps) rows id at now (n, h) =
    fanout_other ps (arm_cc_limit_retry_checkback rows p.pane_id p.fingerprint at now) id at now h
    ∙ arm-other rows p.pane_id p.fingerprint id at now n

-- When the panes' rows have distinct ids, after the fan-out every Claude pane's id has an active row
-- for that time which names the pane's own fingerprint.
pub every_claude_pane-IsArmed :
    (ps : List ClaudePaneHit) (rows : List CheckbackRow) (at now : ℕ)
    → IsDistinct row_of ps
    → All (IsArmed at (arm_cc_limit_retry_for_all_claude_panes rows ps at now)) ps
unfolding arm_cc_limit_retry_for_all_claude_panes
every_claude_pane-IsArmed [] rows at now d = tt
every_claude_pane-IsArmed (p ∷ ps) rows at now (away, d) =
    let rows' = arm_cc_limit_retry_checkback rows p.pane_id p.fingerprint at now in
    (
      ap (is_armed p.fingerprint at) (fanout_other ps rows' (row_of p) at now away)
          ∙ (arm_again_keeps rows p.pane_id p.fingerprint at now now).0,
      every_claude_pane-IsArmed ps rows' at now d,
    )
