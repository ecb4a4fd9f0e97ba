-- ===== src/Examples/Target.antt =====
-- Targets.
use seat_mesh.Prelude.{
  ℕ, ◌≡◌, refl, true, false, not, Option, none, some, [], ◌∷◌, is_some, find?, ◌++◌, if◌then◌else◌,
}
use seat_mesh.Prelude.Text.{Text, codes, text_eq, trim, to_lower, starts_with}
use seat_mesh.Prelude.Keyed.{same_key}
use seat_mesh.Target.{
  TargetRow, active, target_id, find_target, cancel_active_targets_with_goal, cancel_goal,
}
use seat_mesh.Target.Fire.{
  triage_seats, enqueue_triage_peers, triage_peer, fire_one_target, is_target_due,
}
use seat_mesh.Target.Fire.OneShot.{after_firing, target_fires_once}

abbrev goal : TargetRow
goal = record {
  id = codes "t1";
  status = active;
  goal = codes "Ship s13";
  deadline_at = codes "2026-01-02T00:00:00Z";
  created_at = 10;
  updated_at = 10;
  kind = none;
  parent_id = none;
  reminded_at = none;
  triage_at = none;
  triage_to = some (codes "Manager " ∷ codes "manager" ∷ []);
  by_operator = true;
}

-- The manager's pane alone is found.
abbrev panes : Text → Option Text
panes seat = if text_eq seat (codes "manager") then some (codes "%1") else none

abbrev name_row : Text → Text → Text
name_row id seat = id ++ codes "-" ++ seat

abbrev deadline : Text → Option ℕ
deadline t = some 500

target_fires_once_example :
    let ((rows', peers'), toast) =
      fire_one_target panes [] name_row false false (goal ∷ [], []) goal 600 in
    let row' = after_firing panes [] name_row goal 600 in
    let ((_, peers''), toast') =
      fire_one_target panes [] name_row false false (rows', peers') row' 900 in
    (find? (same_key target_id goal.id) rows' ≡ some row')
    × (toast ≡ not (is_some goal.reminded_at))
    × (is_target_due deadline 900 row' ≡ false)
    × (peers'' ≡ peers')
    × (toast' ≡ false)
unfolding enqueue_triage_peers triage_seats trim to_lower text_eq
target_fires_once_example =
    target_fires_once panes [] name_row deadline (goal ∷ []) [] goal 600 900
      (triage_peer goal (codes "t1-manager") (codes "%1") (codes "manager") 600) [] refl

target_tests :
    (find_target (goal ∷ []) (codes "T1") ≡ some goal)
    × ((cancel_active_targets_with_goal (goal ∷ []) (codes " ship S13") 20).1 ≡ 1)
    × (is_target_due deadline 499 goal ≡ false)
    × (is_target_due deadline 500 goal ≡ true)
unfolding find_target cancel_active_targets_with_goal cancel_goal is_target_due trim to_lower
    text_eq starts_with
target_tests = (refl, refl, refl, refl)
