-- ===== src/Session/Relayout.antt =====
-- packages/tmux/src/session/layout-guard.ts: shrinking a window kills its last panes, which is
-- refused while one of them is at work. What is seen of a pane is an argument. A reason carries
-- the text that was seen where it quotes one whole; the words that the screen shows while it is
-- busy are left out.
pub mod Shrink
pub mod Refusal
use seat_mesh.Prelude.{
  ℕ, ◌+◌, ◌*◌, Bool, true, false, not, ◌&&◌, ◌||◌, Option, none, some, List, [], ◌∷◌, ◌++◌, map,
  if◌then◌else◌, ltb, ◌==◌, length, drop,
}
use seat_mesh.Prelude.Text.{Text, codes, text_eq, trim, is_truthy}
use seat_mesh.Regex.{Re, seq, boundary, test, test_ci, one_of}
use seat_mesh.Room.Layout.{parse_grid_spec}

pub record PaneSeen : Type 0 where
  pub current_command : Text
  pub process_cmdlines : Text
  pub capture_tail : Text

pub data MiniStatus : Type 0 where
  idle spawned done failed : MiniStatus

-- A pane of a window, with what the guard reads of it; `slot` and `mini` are those of
-- `doomedMetaForWindow`, where a slot that starts with `mini-` has become the mini.
pub record GuardedPane : Type 0 where
  pub pane_id : Text
  pub role : Text
  pub slot : Text
  pub mini : Text
  pub status : Text
  pub seen : Option PaneSeen
  pub focus_mark : Option Text
  pub mini_row : Option (MiniStatus × Text)

pub data RiskReason : Type 0 where
  border focus_of mini_open : Text → RiskReason
  live_cli cli_busy cli_limit cli_draft mini_failed : RiskReason

cli_cmd_re : Re
unfolding one_of
cli_cmd_re = seq boundary (
    seq
      (one_of (
        map codes
          ("agent" ∷ "opencode" ∷ "claude" ∷ "kiro" ∷ "opencode-cpe" ∷ "cursor-agent" ∷ [])))
      boundary)

busy_tail_re : Re
unfolding one_of
busy_tail_re = one_of (map codes ("Working" ∷ "Running" ∷ "Thinking" ∷ "ctrl+c to stop" ∷ []))

limit_tail_re : Re
unfolding one_of
limit_tail_re =
    one_of (
      map codes ("rate limit" ∷ "usage limit" ∷ "cannot connect to api" ∷ "unable to connect" ∷ []))

draft_tail_re : Re
unfolding one_of
draft_tail_re = one_of (map codes ("afk" ∷ "stuck" ∷ "draft" ∷ []))

active_status_re : Re
unfolding one_of
active_status_re = seq boundary (
    seq
      (one_of (
        map codes (
          "busy" ∷ "blocked" ∷ "working" ∷ "running" ∷ "thinking" ∷ "typing" ∷ "oc-limit"
          ∷ "cc-limit" ∷ "proxy-down" ∷ [])))
      boundary)

unfoldable pub status_reasons : Text → List RiskReason
unfolding active_status_re test_ci trim
status_reasons status =
    if is_truthy status && test_ci active_status_re status then border (trim status) ∷ [] else []

unfoldable pub tail_reasons : Text → List RiskReason
unfolding busy_tail_re limit_tail_re draft_tail_re test test_ci
tail_reasons tail =
    if test busy_tail_re tail
    then cli_busy ∷ []
    else if test_ci limit_tail_re tail
    then cli_limit ∷ []
    else if test_ci draft_tail_re tail
    then cli_draft ∷ []
    else []

unfoldable pub seen_reasons : Option PaneSeen → List RiskReason
unfolding cli_cmd_re test_ci tail_reasons
seen_reasons none = []
seen_reasons (some s) =
    (if test_ci cli_cmd_re s.process_cmdlines || test_ci cli_cmd_re s.current_command
      then live_cli ∷ []
      else [])
    ++ tail_reasons s.capture_tail

unfoldable pub focus_reasons : GuardedPane → List RiskReason
unfolding text_eq
focus_reasons p =
    if text_eq p.role (codes "worker") && is_truthy p.slot
    then elim p.focus_mark [
      | none ↦ []
      | some mark ↦
          if text_eq mark (codes "BUSY") || text_eq mark (codes "BLOCKED")
          then focus_of mark ∷ []
          else []
    ]
    else []

abbrev hub_word : Text → Text
hub_word hub = if is_truthy hub && not (text_eq hub (codes "-")) then hub else codes "open task"

unfoldable pub mini_reasons : GuardedPane → List RiskReason
mini_reasons p =
    if is_truthy p.mini
    then elim p.mini_row [
      | some (spawned, hub) ↦ mini_open (hub_word hub) ∷ []
      | some (failed, hub) ↦ mini_failed ∷ []
      | _ ↦ []
    ]
    else []

unfoldable pub activity_reasons : GuardedPane → List RiskReason
activity_reasons p =
    status_reasons p.status ++ seen_reasons p.seen ++ focus_reasons p ++ mini_reasons p

unfoldable pub pane_label : GuardedPane → Text
pane_label p =
    if text_eq p.role (codes "worker") && is_truthy p.slot
    then codes "slot-" ++ p.slot
    else if is_truthy p.mini
    then codes "mini-" ++ p.mini
    else if is_truthy p.role
    then p.role
    else p.pane_id

-- The panes of a window that the guard looks at: those beyond `target`; tmux answers both of its
-- lists of a window with the same panes in the same order.
unfoldable pub doomed_panes : List GuardedPane → ℕ → List GuardedPane
doomed_panes window target = if ltb target (length window) then drop target window else []

pub record LayoutPaneRisk : Type 0 where
  pub label : Text
  pub pane_id : Text
  pub reasons : List RiskReason

unfoldable pub risks : List GuardedPane → List LayoutPaneRisk
risks [] = []
risks (p ∷ ps) =
    let rest = risks ps in
    elim (activity_reasons p) [
      | [] ↦ rest
      | r ∷ rs ↦ record { label = pane_label p; pane_id = p.pane_id; reasons = r ∷ rs } ∷ rest
    ]

pub record RelayoutTarget : Type 0 where
  pub worker_count : ℕ
  pub worker_grid : Text
  pub worker_slots : ℕ
  pub mini_grid : Text
  pub mini_max : ℕ

pub data Relayout : Type 0 where
  safe : List LayoutPaneRisk → Relayout
  bad_grid bad_capacity : Relayout
  refused : List LayoutPaneRisk → Relayout

unfoldable pub relayout_risks :
    RelayoutTarget → List GuardedPane → List GuardedPane → List LayoutPaneRisk
relayout_risks t workers minis =
    risks (doomed_panes workers t.worker_count) ++ risks (doomed_panes minis t.mini_max)

-- A forced run goes on with the risks that it warns of.
unfoldable pub answer_risks : Bool → List LayoutPaneRisk → Relayout
answer_risks force [] = safe []
answer_risks force (r ∷ rs) = if force then safe (r ∷ rs) else refused (r ∷ rs)

-- `assertRelayoutSafe`, for a profile that has a layout.
unfoldable pub assert_relayout_safe :
    RelayoutTarget → List GuardedPane → List GuardedPane → Bool → Relayout
assert_relayout_safe t workers minis force = elim (parse_grid_spec t.mini_grid) [
  | none ↦ bad_grid
  | some size ↦
      if not (t.mini_max == size.0 * size.1)
      then bad_capacity
      else answer_risks force (relayout_risks t workers minis)
]
