-- ===== src/Gate/Compose.antt =====
-- packages/daemon/src/inject/compose-gate.ts. Times are milliseconds and the clock does not run
-- backwards; a comparison of seconds with a fraction is made in milliseconds, and `Math.ceil` of
-- seconds is a division rounded up. The provider's reading of a draft from a capture,
-- `coordComposerDraft`, is an argument: the gate's theorems hold for every such reading.
pub mod Safety
pub mod Settling
use seat_mesh.Prelude.{
  ℕ, zero, suc, ◌+◌, ◌-◌, ◌*◌, ◌/◌, min, Bool, true, false, not, ◌&&◌, ◌||◌, Option, none, some,
  List, [], ◌∷◌, ◌++◌, if◌then◌else◌, or_else, ltb, leb, ◌==◌, filter, is_some,
}
use seat_mesh.Prelude.Text.{Text, codes, text_eq, trim, is_truthy, split_lines}
use seat_mesh.Prelude.Dict.{Dict, lookup, put, remove}
use seat_mesh.Regex.{Re, seq, alt, at_start, boundary, lit, test_ci}
use seat_mesh.Composer.{Phase, empty, typing, busy, afk, limit, plain_shell, ComposerState}

-- The module's settings, from the environment and the profile.
pub record GateConfig : Type 0 where
  pub idle_settle_ms : ℕ
  pub stuck_draft_sec : ℕ
  pub profile_skip_typing_gate : Bool
  pub env_skip_typing_gate : Option Text

pub data CoordGatePhase : Type 0 where
  idle wait_busy wait_typing wait_settle wait_not_ready no_cli : CoordGatePhase

pub record CoordGateResult : Type 0 where
  pub phase : CoordGatePhase
  pub can_deliver : Bool
  pub settle_in_sec : Option ℕ
  pub clear_in_sec : Option ℕ
  pub draft_fp : Option Text

pub record PaneGateState : Type 0 where
  pub was_busy : Bool
  pub last_busy_ended_at : ℕ
  pub idle_ready_since : ℕ
  pub draft_fp : Text
  pub draft_since : ℕ

unfoldable pub fresh_gate : PaneGateState
fresh_gate = record {
  was_busy = false;
  last_busy_ended_at = 0;
  idle_ready_since = 0;
  draft_fp = [];
  draft_since = 0;
}

-- `v === "1" || v === "true"`
env_skips : Option Text → Bool
unfolding text_eq
env_skips none = false
env_skips (some v) = text_eq v (codes "1") || text_eq v (codes "true")

pub inbox_skip_typing_gate : GateConfig → Bool
unfolding env_skips
inbox_skip_typing_gate c =
    if c.profile_skip_typing_gate then true else env_skips c.env_skip_typing_gate

abbrev pub plain_result : CoordGatePhase → Bool → CoordGateResult
plain_result phase deliver = record {
  phase = phase;
  can_deliver = deliver;
  settle_in_sec = none;
  clear_in_sec = none;
  draft_fp = none;
}

mesh_chrome : Re
unfolding lit
mesh_chrome = alt (lit (codes "[mesh-inbox")) (
    alt (seq at_start (lit (codes "intent=")))
      (alt (seq at_start (lit (codes "check:"))) (seq boundary (lit (codes "oc-limit:")))))

-- Lines of the mesh's own chrome are dropped; blank lines stay.
is_human_line : Text → Bool
unfolding trim mesh_chrome test_ci
is_human_line line = let t = trim line in if is_truthy t then not (test_ci mesh_chrome t) else true

join_lines : List Text → Text
join_lines [] = []
join_lines (l ∷ []) = l
join_lines (l ∷ m ∷ ls) = l ++ 10 ∷ join_lines (m ∷ ls)

pub strip_mesh_for_draft : Text → Text
unfolding split_lines is_human_line join_lines
strip_mesh_for_draft tail = join_lines (filter is_human_line (split_lines tail))

-- `fingerprint?.trim() || read`
or_read : Option Text → Text → Text
unfolding trim
or_read none read = read
or_read (some fp) read = if is_truthy (trim fp) then trim fp else read

-- The reading of a draft from a capture for a provider.
abbrev pub DraftReader : Type 0
DraftReader = Text → Text → Text

pub draft_of : DraftReader → ComposerState → Text → Text → Text
unfolding or_read strip_mesh_for_draft
draft_of reader state tail provider =
    or_read state.draft_fingerprint (reader (strip_mesh_for_draft tail) provider)

abbrev is_resting : Phase → Bool
is_resting empty = true
is_resting afk = true
is_resting _ = false

abbrev pub is_typing : Phase → Bool
is_typing typing = true
is_typing _ = false

composer_idle_ready : Phase → Text → Bool
composer_idle_ready plain_shell draft = false
composer_idle_ready limit draft = false
composer_idle_ready busy draft = false
composer_idle_ready typing draft = false
composer_idle_ready phase draft = if is_truthy draft then false else is_resting phase

-- The state afterwards and the draft's age in milliseconds.
track_draft_age : PaneGateState → Text → ℕ → PaneGateState × ℕ
unfolding text_eq
track_draft_age st [] now = (record st { draft_fp = []; draft_since = 0 }, 0)
track_draft_age st (c ∷ s) now =
    let st' =
      if text_eq (c ∷ s) st.draft_fp
      then st
      else record st { draft_fp = c ∷ s; draft_since = now } in
    (st', if st'.draft_since == 0 then 0 else now - st'.draft_since)

abbrev ceil_sec : ℕ → ℕ
ceil_sec ms = (ms + 999) / 1000

-- `holdTyping`: deliver around a draft that has stood long enough, else wait.
hold_typing : GateConfig → PaneGateState → Text → ℕ → PaneGateState × CoordGateResult
hold_typing c st draft age =
    let held = record st { idle_ready_since = 0 } in
    let fp = if is_truthy draft then some draft else none in
    if ltb 0 c.stuck_draft_sec && leb (c.stuck_draft_sec * 1000) age
    then (
      held,
      record {
        phase = idle;
        can_deliver = true;
        settle_in_sec = none;
        clear_in_sec = some 0;
        draft_fp = fp;
      },
    )
    else (
      held,
      record {
        phase = wait_typing;
        can_deliver = false;
        settle_in_sec = none;
        clear_in_sec =
            if ltb 0 c.stuck_draft_sec
            then some (ceil_sec (c.stuck_draft_sec * 1000 - age))
            else none;
        draft_fp = fp;
      },
    )

-- The composer is empty: has it been so, and has generating been over, for the settle time?
settle : GateConfig → PaneGateState → ℕ → PaneGateState × CoordGateResult
settle c st now =
    let st' = if st.idle_ready_since == 0 then record st { idle_ready_since = now } else st in
    let empty_settled = now - st'.idle_ready_since in
    let busy_settled =
      if st'.last_busy_ended_at == 0 then c.idle_settle_ms else now - st'.last_busy_ended_at in
    let settled = min empty_settled busy_settled in
    if ltb settled c.idle_settle_ms
    then (
      st',
      record {
        phase = wait_settle;
        can_deliver = false;
        settle_in_sec = some (ceil_sec (c.idle_settle_ms - settled));
        clear_in_sec = none;
        draft_fp = none;
      },
    )
    else (st', plain_result idle true)

-- `if (st.wasBusy)`: generating has just ended.
end_busy : PaneGateState → ℕ → PaneGateState
end_busy st now =
    if st.was_busy
    then record st { was_busy = false; last_busy_ended_at = now; idle_ready_since = 0 }
    else st

-- Not generating: the draft first, then readiness, then the settle time.
not_busy : GateConfig → PaneGateState → Phase → Text → ℕ → PaneGateState × CoordGateResult
not_busy c st phase draft now =
    let (tracked, age) = track_draft_age (end_busy st now) (trim draft) now in
    if is_typing phase || is_truthy draft
    then hold_typing c tracked draft age
    else if composer_idle_ready phase draft
    then settle c tracked now
    else (record tracked { idle_ready_since = 0 }, plain_result wait_not_ready false)

mark_busy : PaneGateState → PaneGateState
mark_busy st = record st { was_busy = true; idle_ready_since = 0; draft_fp = []; draft_since = 0 }

pub classify_phase : GateConfig → PaneGateState → Phase → Text → ℕ → PaneGateState × CoordGateResult
unfolding not_busy mark_busy inbox_skip_typing_gate
classify_phase c st plain_shell draft now = (st, plain_result no_cli false)
classify_phase c st limit draft now = (st, plain_result wait_not_ready false)
classify_phase c st busy draft now =
    if inbox_skip_typing_gate c
    then (st, plain_result idle true)
    else (mark_busy st, plain_result wait_busy false)
classify_phase c st phase draft now =
    if inbox_skip_typing_gate c then (st, plain_result idle true) else not_busy c st phase draft now

-- `gateState` creates the pane's clocks on first use.
unfoldable pub classify_coord_delivery :
    DraftReader
    → GateConfig
    → Dict PaneGateState
    → Text
    → ComposerState
    → Text
    → Text
    → ℕ
    → Dict PaneGateState × CoordGateResult
unfolding classify_phase end_busy track_draft_age hold_typing composer_idle_ready settle draft_of
    fresh_gate lookup put
classify_coord_delivery reader c gates pane state tail provider now =
    let st = or_else (lookup pane gates) fresh_gate in
    let (st', result) = classify_phase c st state.phase (draft_of reader state tail provider) now in
    (put pane st' gates, result)
