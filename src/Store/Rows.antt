-- ===== src/Store/Rows.antt =====
-- The row types of packages/daemon/src/store/jsonl-store.ts, packages/core/src/ack/types.ts and
-- packages/core/src/pane-ops/types.ts, and the two tests for a delivered row.
use seat_mesh.Prelude.{ℕ, Bool, true, false, ◌&&◌, ◌||◌, Option, none, some, is_some, if◌then◌else◌}
use seat_mesh.Prelude.Text.{Text, codes, is_truthy, text_eq}

-- `Boolean(row.field)` of an optional string.
abbrev pub opt_truthy : Option Text → Bool
opt_truthy none = false
opt_truthy (some s) = is_truthy s

-- `row.field === s` of an optional string.
abbrev pub opt_is : Option Text → Text → Bool
opt_is none s = false
opt_is (some t) s = text_eq t s

pub data CheckbackStatus : Type 0 where
  active cancelled : CheckbackStatus

pub record CheckbackRow : Type 0 where
  pub id : Text
  pub kind : Text
  pub status : CheckbackStatus
  pub renew_sec : Option ℕ
  pub expect : Option Text
  pub owner_pane : Option Text
  pub expires_at : Option ℕ
  pub sender_label : Option Text
  pub recipient_label : Option Text
  pub owner_label : Option Text
  pub workspace_id : Option Text
  pub session_name : Option Text
  pub session_fingerprint : Option Text
  pub fire_count : Option ℕ
  pub created_at : ℕ
  pub updated_at : ℕ

pub data DeliverMode : Type 0 where
  idle steer : DeliverMode

pub record ToMasterRow : Type 0 where
  pub id : Text
  pub at : ℕ
  pub from : Text
  pub slot : Option Text
  pub ports : Option Text
  pub msg : Text
  pub sent : Bool
  pub sent_at : Option ℕ
  pub delivered_to : Option Text
  pub deliver_pane : Option Text
  pub deliver_mode : Option DeliverMode
  pub resolved : Bool
  pub read : Bool

pub data PeerKind : Type 0 where
  to_slot to_mini prompt remind room : PeerKind

pub record PeerRow : Type 0 where
  pub id : Text
  pub at : ℕ
  pub kind : PeerKind
  pub from_slot : Text
  pub from_ports : Option Text
  pub room_slug : Option Text
  pub from_agent : Option Text
  pub target_pane : Text
  pub target_label : Text
  pub msg : Text
  pub sent : Bool
  pub sent_at : Option ℕ
  pub deliver_pane : Option Text
  pub deliver_mode : Option DeliverMode
  pub injected_pane : Option Text
  pub injected_at : Option ℕ

pub data AckSource : Type 0 where
  operator inbox peer room : AckSource

pub data AckCloseBy : Type 0 where
  explicit filed operator pane_reply : AckCloseBy

pub record AckRow : Type 0 where
  pub id : Text
  pub at : ℕ
  pub seat : Text
  pub pane_id : Text
  pub source : AckSource
  pub from : Option Text
  pub ask : Text
  pub acked_at : Option ℕ
  pub ack_by : Option AckCloseBy
  pub ack_note : Option Text
  pub reminders : ℕ
  pub reminded_at : Option ℕ

pub record AckOpenInput : Type 0 where
  pub seat : Text
  pub pane_id : Text
  pub source : AckSource
  pub ask : Text
  pub from : Option Text
  pub id : Option Text
  pub at : Option ℕ

pub data PaneOpStatus : Type 0 where
  pending running done failed : PaneOpStatus

pub data PaneOpKind : Type 0 where
  launch switch relayout mini_spawn mini_spawn_all secretary_dispatch : PaneOpKind

-- The payload, which the tmux layer alone reads, is its JSON text.
pub record PaneOpRow : Type 0 where
  pub id : Text
  pub at : ℕ
  pub kind : PaneOpKind
  pub who : Text
  pub summary : Text
  pub payload : Text
  pub status : PaneOpStatus
  pub error : Option Text
  pub finished_at : Option ℕ

abbrev pub skipped : Text
skipped = codes "skipped"

abbrev pub backlog : Text
backlog = codes "backlog"

-- Delivered means that the proof fields are stamped.
unfoldable pub is_inbox_delivered : ToMasterRow → Bool
is_inbox_delivered row = row.sent && is_some row.sent_at && opt_truthy row.deliver_pane

unfoldable pub is_peer_delivered : PeerRow → Bool
is_peer_delivered row =
    if opt_truthy row.injected_pane || is_some row.injected_at
    then true
    else if opt_is row.deliver_pane skipped
    then true
    else if opt_is row.deliver_pane backlog
    then false
    else row.sent && is_some row.sent_at && opt_truthy row.deliver_pane
