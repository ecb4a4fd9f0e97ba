-- ===== src/Checkback/CcLimit.antt =====
-- packages/daemon/src/connectivity/cc-limit-retry.ts: the one-shot checkback of each Claude pane
-- after a limit. Which panes are Claude's, with their fingerprints, and the reset time that a
-- screen shows are arguments. A time stands for its ISO text, which this code alone writes.
pub mod Again
pub mod Everyone
use seat_mesh.Prelude.{
  ℕ, ◌≡◌, refl, sym, ◌+◌, ◌*◌, Bool, true, false, not, ◌&&◌, ◌||◌, Option, none, some, List, [],
  ◌∷◌, ◌++◌, if◌then◌else◌, filter, find?, ◌==◌, arith, Bool-cases, inl, inr,
}
use seat_mesh.Prelude.Text.{Text, codes, text_eq, text_eq_refl, text_eq_iff, includes, starts_with}
use seat_mesh.Prelude.Keyed.{upsert}
use seat_mesh.Store.Rows.{CheckbackRow, active, cancelled}
use seat_mesh.Store.Checkbacks.{upsert_checkback, is_active}

-- `parsed` is `parseCcLimitRetryAtMs`, `none` for null.
unfoldable pub cc_limit_retry_fire_at_ms : Option ℕ → ℕ → ℕ
cc_limit_retry_fire_at_ms none now = now + 30 * 60000
cc_limit_retry_fire_at_ms (some parsed) now = parsed + 60000

unfoldable pub cc_limit_retry_id : Text → Text
cc_limit_retry_id pane_id = codes "cb-cc-limit-retry-" ++ filter (λ c. not (c == b'%')) pane_id

unfoldable pub active_row : Text → CheckbackRow → Bool
unfolding text_eq
active_row id r = text_eq r.id id && is_active r

unfoldable pub is_armed : Text → ℕ → Option CheckbackRow → Bool
unfolding includes
is_armed fingerprint at none = false
is_armed fingerprint at (some r) = elim r.expect [
  | none ↦ false
  | some expect ↦
      includes fingerprint expect && (elim r.expires_at [ none ↦ false | some e ↦ e == at ])
]

abbrev pub created : Option CheckbackRow → ℕ → ℕ
created none now = now
created (some r) now = r.created_at

unfoldable pub limit_row : Text → Text → ℕ → ℕ → Option CheckbackRow → CheckbackRow
unfolding cc_limit_retry_id
limit_row pane_id fingerprint at now existing = record {
  id = cc_limit_retry_id pane_id;
  kind = codes "cc-limit-retry";
  status = active;
  renew_sec = some 0;
  expect = some (codes "F-cc-limit-retry " ++ fingerprint);
  owner_pane = some pane_id;
  expires_at = some at;
  sender_label = some (codes "inbox");
  recipient_label = some pane_id;
  owner_label = none;
  workspace_id = none;
  session_name = none;
  session_fingerprint = some fingerprint;
  fire_count = none;
  created_at = created existing now;
  updated_at = now;
}

unfoldable pub arm_cc_limit_retry_checkback :
    List CheckbackRow → Text → Text → ℕ → ℕ → List CheckbackRow
arm_cc_limit_retry_checkback rows pane_id fingerprint at now =
    let existing = find? (active_row (cc_limit_retry_id pane_id)) rows in
    if is_armed fingerprint at existing
    then rows
    else upsert_checkback rows (limit_row pane_id fingerprint at now existing)

pub record ClaudePaneHit : Type 0 where
  pub pane_id : Text
  pub fingerprint : Text

-- Every Claude pane at the same time, in the order in which they are listed.
unfoldable pub arm_cc_limit_retry_for_all_claude_panes :
    List CheckbackRow → List ClaudePaneHit → ℕ → ℕ → List CheckbackRow
arm_cc_limit_retry_for_all_claude_panes rows [] at now = rows
arm_cc_limit_retry_for_all_claude_panes rows (p ∷ ps) at now =
    arm_cc_limit_retry_for_all_claude_panes
      (arm_cc_limit_retry_checkback rows p.pane_id p.fingerprint at now) ps at now
