-- ===== src/Examples/Checkback.antt =====
-- The checkbacks of a file.
use seat_mesh.Prelude.{
  ℕ, ◌≡◌, refl, true, false, none, some, List, [], ◌∷◌, Memᴰ, get_elem?, length, ◌++◌, ◌⊎◌, ◌↔◌,
  All, find?, arith,
}
use seat_mesh.Prelude.Text.{Text, codes, text_eq}
use seat_mesh.Prelude.Sort.{IsSorted}
use seat_mesh.Store.Rows.{CheckbackRow, active}
use seat_mesh.Checkback.Fire.{
  checkback_unbounded_renew, is_active, is_due, fires_before, due_in_order, tried_rows, DueRow,
  sort_due_checkback_indices,
}
use seat_mesh.Checkback.Fire.Order.{due_rows_in_order}
use seat_mesh.Checkback.CcLimit.{
  ClaudePaneHit, cc_limit_retry_id, cc_limit_retry_fire_at_ms,
  arm_cc_limit_retry_for_all_claude_panes, arm_cc_limit_retry_checkback, active_row, is_armed,
}
use seat_mesh.Checkback.CcLimit.Again.{arm_again_keeps}
use seat_mesh.Checkback.CcLimit.Everyone.{IsArmed, every_claude_pane-IsArmed}
use seat_mesh.Checkback.Fire.Renewal.{fire_run, ordinary_row_stops}

abbrev armed : Text → ℕ → CheckbackRow
armed kind at = record {
  id = codes "cb-1";
  kind = kind;
  status = active;
  renew_sec = some 60;
  expect = none;
  owner_pane = none;
  expires_at = some at;
  sender_label = none;
  recipient_label = none;
  owner_label = none;
  workspace_id = none;
  session_name = none;
  session_fingerprint = none;
  fire_count = none;
  created_at = 1000;
  updated_at = 1000;
}

abbrev rows : List CheckbackRow
rows =
    armed (codes "peer") 2000
    ∷ armed (codes "secretary-supervise") 5000
    ∷ armed (codes "peer") 9000
    ∷ []

order_tests : sort_due_checkback_indices rows 6000 ≡ 1 ∷ 0 ∷ []
unfolding sort_due_checkback_indices
order_tests = refl

due_rows_in_order_example :
    ((rest : List DueRow) × (due_in_order rows 6000 ≡ tried_rows rows 6000 ++ rest))
    × ((length (tried_rows rows 6000) ≡ 6) ⊎ (tried_rows rows 6000 ≡ due_in_order rows 6000))
    × IsSorted fires_before (due_in_order rows 6000)
    × ((i : ℕ) (row : CheckbackRow)
        → Memᴰ (i, row) (due_in_order rows 6000)
          ↔ ((get_elem? rows i ≡ some row) × (is_due 6000 row ≡ true)))
due_rows_in_order_example = due_rows_in_order rows 6000

ordinary_row_stops_example :
    is_active (fire_run (armed (codes "peer") 2000) 3 (2000 ∷ 62000 ∷ 122000 ∷ [])) ≡ false
unfolding checkback_unbounded_renew
ordinary_row_stops_example =
    ordinary_row_stops (armed (codes "peer") 2000) 3 2000 (62000 ∷ 122000 ∷ []) refl (omega arith)

abbrev claude_panes : List ClaudePaneHit
claude_panes =
    record { pane_id = codes "%3"; fingerprint = codes "a1" }
    ∷ record { pane_id = codes "%4"; fingerprint = codes "b2" }
    ∷ []

abbrev reset_at : ℕ
reset_at = cc_limit_retry_fire_at_ms (some 100000) 7000

every_claude_pane-IsArmed_example :
    All
      (IsArmed reset_at (arm_cc_limit_retry_for_all_claude_panes rows claude_panes reset_at 7000))
      claude_panes
unfolding cc_limit_retry_id text_eq
every_claude_pane-IsArmed_example =
    every_claude_pane-IsArmed claude_panes rows reset_at 7000 ((refl, tt), (tt, tt))

arm_again_keeps_example :
    (is_armed (codes "a1") reset_at (
        find?
          (active_row (cc_limit_retry_id (codes "%3")))
          (arm_cc_limit_retry_checkback rows (codes "%3") (codes "a1") reset_at 7000))
      ≡ true)
    × (arm_cc_limit_retry_checkback
          (arm_cc_limit_retry_checkback rows (codes "%3") (codes "a1") reset_at 7000)
          (codes "%3")
          (codes "a1")
          reset_at
          9000
        ≡ arm_cc_limit_retry_checkback rows (codes "%3") (codes "a1") reset_at 7000)
arm_again_keeps_example = arm_again_keeps rows (codes "%3") (codes "a1") reset_at 7000 9000
