-- ===== src/Store/Sqlite/Columns.antt =====
-- packages/daemon/src/store/sqlite-store.ts: the columns of the tables inbox, peer and checkback as
-- their schema types them, what a row binds to them, and the row that is read back. A statement with
-- named parameters throws in better-sqlite3 where the object that is bound has no key of a
-- parameter's name; a key that is there with no value binds NULL. Which keys a row object has is an
-- argument. A time is its instant, as in the rows.
use seat_mesh.Prelude.{
  ℕ, Bool, true, false, Option, none, some, if◌then◌else◌, or_else, ◌==◌, List, [], ◌∷◌, all, map,
}
use seat_mesh.Prelude.Text.{Text, codes, text_eq}
use seat_mesh.Store.Rows.{
  ToMasterRow, PeerRow, PeerKind, CheckbackRow, CheckbackStatus, active, cancelled, DeliverMode,
  idle, steer,
}

-- `bool(v)`, and `Number(x) === 1`
unfoldable pub bool : Bool → ℕ
bool true = 1
bool false = 0

abbrev is_one : ℕ → Bool
is_one n = n == 1

-- The mode is stored as its word; another word reads as no mode.
unfoldable pub mode_text : Option DeliverMode → Option Text
mode_text none = none
mode_text (some idle) = some (codes "idle")
mode_text (some steer) = some (codes "steer")

unfoldable pub mode_of : Option Text → Option DeliverMode
mode_of none = none
mode_of (some t) =
    if text_eq t (codes "idle")
    then some idle
    else if text_eq t (codes "steer")
    then some steer
    else none

unfoldable pub status_text : CheckbackStatus → Text
status_text active = codes "active"
status_text cancelled = codes "cancelled"

unfoldable pub status_of : Text → CheckbackStatus
status_of t = if text_eq t (codes "cancelled") then cancelled else active

pub record InboxColumns : Type 0 where
  pub id : Text
  pub at : ℕ
  pub from_agent : Text
  pub slot : Option Text
  pub ports : Option Text
  pub msg : Text
  pub sent : ℕ
  pub sent_at : Option ℕ
  pub delivered_to : Option Text
  pub deliver_pane : Option Text
  pub deliver_mode : Option Text
  pub resolved : ℕ
  pub read_flag : ℕ

-- Whether an object with these keys has every one that is named.
abbrev pub has_keys : (Text → Bool) → List Text → Bool
has_keys has names = all has names

-- The parameters that the statement takes from the row itself; the flags are always given.
abbrev pub inbox_parameters : List Text
inbox_parameters = map codes (
    "id" ∷ "at" ∷ "from" ∷ "slot" ∷ "ports" ∷ "msg" ∷ "sentAt" ∷ "deliveredTo" ∷ "deliverPane"
    ∷ "deliverMode" ∷ [])

unfoldable pub inbox_columns : ToMasterRow → InboxColumns
unfolding bool mode_text
inbox_columns r = record {
  id = r.id;
  at = r.at;
  from_agent = r.from;
  slot = r.slot;
  ports = r.ports;
  msg = r.msg;
  sent = bool r.sent;
  sent_at = r.sent_at;
  delivered_to = r.delivered_to;
  deliver_pane = r.deliver_pane;
  deliver_mode = mode_text r.deliver_mode;
  resolved = bool r.resolved;
  read_flag = bool r.read;
}

-- The binding of the INSERT of `writeInbox` and `appendInbox`, `{ ...r, sent, resolved, read }`;
-- `none` where it throws.
unfoldable pub inbox_bind : (Text → Bool) → ToMasterRow → Option InboxColumns
inbox_bind has r = if has_keys has inbox_parameters then some (inbox_columns r) else none

unfoldable pub row_to_inbox : InboxColumns → ToMasterRow
unfolding mode_of
row_to_inbox c = record {
  id = c.id;
  at = c.at;
  from = c.from_agent;
  slot = c.slot;
  ports = c.ports;
  msg = c.msg;
  sent = is_one c.sent;
  sent_at = c.sent_at;
  delivered_to = c.delivered_to;
  deliver_pane = c.deliver_pane;
  deliver_mode = mode_of c.deliver_mode;
  resolved = is_one c.resolved;
  read = is_one c.read_flag;
}

-- The column `kind` is read back by a cast.
pub record PeerColumns : Type 0 where
  pub id : Text
  pub at : ℕ
  pub kind : PeerKind
  pub from_slot : Text
  pub from_ports : Option Text
  pub room_slug : Option Text
  pub from_agent : Option Text
  pub target_pane : Text
  pub target_label : Text
  pub msg : Text
  pub sent : ℕ
  pub sent_at : Option ℕ
  pub deliver_pane : Option Text
  pub deliver_mode : Option Text

abbrev pub peer_parameters : List Text
peer_parameters = map codes (
    "id" ∷ "at" ∷ "kind" ∷ "fromSlot" ∷ "fromPorts" ∷ "roomSlug" ∷ "fromAgent" ∷ "targetPane"
    ∷ "targetLabel" ∷ "msg" ∷ "sentAt" ∷ "deliverPane" ∷ "deliverMode" ∷ [])

unfoldable pub peer_columns : PeerRow → PeerColumns
unfolding bool mode_text
peer_columns r = record {
  id = r.id;
  at = r.at;
  kind = r.kind;
  from_slot = r.from_slot;
  from_ports = r.from_ports;
  room_slug = r.room_slug;
  from_agent = r.from_agent;
  target_pane = r.target_pane;
  target_label = r.target_label;
  msg = r.msg;
  sent = bool r.sent;
  sent_at = r.sent_at;
  deliver_pane = r.deliver_pane;
  deliver_mode = mode_text r.deliver_mode;
}

-- The binding of the INSERT of `writePeer` and `appendPeer`, `{ ...r, sent }`.
unfoldable pub peer_bind : (Text → Bool) → PeerRow → Option PeerColumns
peer_bind has r = if has_keys has peer_parameters then some (peer_columns r) else none

unfoldable pub row_to_peer : PeerColumns → PeerRow
unfolding mode_of
row_to_peer c = record {
  id = c.id;
  at = c.at;
  kind = c.kind;
  from_slot = c.from_slot;
  from_ports = c.from_ports;
  room_slug = c.room_slug;
  from_agent = c.from_agent;
  target_pane = c.target_pane;
  target_label = c.target_label;
  msg = c.msg;
  sent = is_one c.sent;
  sent_at = c.sent_at;
  deliver_pane = c.deliver_pane;
  deliver_mode = mode_of c.deliver_mode;
  injected_pane = none;
  injected_at = none;
}

pub record CheckbackColumns : Type 0 where
  pub id : Text
  pub kind : Option Text
  pub status : Text
  pub renew_sec : Option ℕ
  pub expect : Option Text
  pub owner_pane : Option Text
  pub expires_at : Option ℕ
  pub sender_label : Option Text
  pub recipient_label : Option Text
  pub owner_label : Option Text
  pub workspace_id : Option Text
  pub session_name : Option Text
  pub fire_count : Option ℕ
  pub session_fingerprint : Option Text
  pub created_at : ℕ
  pub updated_at : ℕ

-- `checkbackBind` names every key, with NULL for a field that is absent.
unfoldable pub checkback_bind : CheckbackRow → CheckbackColumns
unfolding status_text
checkback_bind r = record {
  id = r.id;
  kind = some r.kind;
  status = status_text r.status;
  renew_sec = r.renew_sec;
  expect = r.expect;
  owner_pane = r.owner_pane;
  expires_at = r.expires_at;
  sender_label = r.sender_label;
  recipient_label = r.recipient_label;
  owner_label = r.owner_label;
  workspace_id = r.workspace_id;
  session_name = r.session_name;
  fire_count = r.fire_count;
  session_fingerprint = r.session_fingerprint;
  created_at = r.created_at;
  updated_at = r.updated_at;
}

unfoldable pub row_to_checkback : CheckbackColumns → CheckbackRow
unfolding status_of
row_to_checkback c = record {
  id = c.id;
  kind = or_else c.kind (codes "");
  status = status_of c.status;
  renew_sec = c.renew_sec;
  expect = c.expect;
  owner_pane = c.owner_pane;
  expires_at = c.expires_at;
  sender_label = c.sender_label;
  recipient_label = c.recipient_label;
  owner_label = c.owner_label;
  workspace_id = c.workspace_id;
  session_name = c.session_name;
  fire_count = c.fire_count;
  session_fingerprint = c.session_fingerprint;
  created_at = c.created_at;
  updated_at = c.updated_at;
}
