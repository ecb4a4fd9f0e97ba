-- ===== src/Examples/Sqlite.antt =====
-- The SQLite store.
use mathlib.Core.Option as Option
use seat_mesh.Prelude.{◌≡◌, refl, true, false, Bool, not, if◌then◌else◌, none, some, List, [], Memᴰ}
use seat_mesh.Prelude.Text.{Text, codes, text_eq}
use seat_mesh.Store.Rows.{
  ToMasterRow, CheckbackRow, active, PeerRow, to_slot, steer, AckRow, AckOpenInput, operator,
  is_peer_delivered,
}
use seat_mesh.Ack.Ledger.Open.{ack_id, upsert_ack, open_ack}
use seat_mesh.Store.Sqlite.Columns.{
  inbox_bind, inbox_parameters, has_keys, peer_parameters, peer_columns, row_to_inbox,
  checkback_bind, row_to_checkback, peer_bind, row_to_peer,
}
use seat_mesh.Store.Sqlite.RoundTrip.{columns_round_trip}
use seat_mesh.Store.Sqlite.Ledger.{
  Table, SameRows, OneOpen, upsert-mem, sqlite_open_ack, sqlite_open_ack_refines,
}

abbrev mail : ToMasterRow
mail = record {
  id = codes "i1";
  at = 100;
  from = codes "slot-2";
  slot = some (codes "2");
  ports = none;
  msg = codes "PR is up";
  sent = true;
  sent_at = some 120;
  delivered_to = none;
  deliver_pane = some (codes "%1");
  deliver_mode = some steer;
  resolved = false;
  read = false;
}

abbrev armed : CheckbackRow
armed = record {
  id = codes "cb-1";
  kind = codes "night";
  status = active;
  renew_sec = some 1800;
  expect = none;
  owner_pane = some (codes "%3");
  expires_at = some 900;
  sender_label = none;
  recipient_label = none;
  owner_label = none;
  workspace_id = none;
  session_name = none;
  session_fingerprint = none;
  fire_count = some 2;
  created_at = 100;
  updated_at = 100;
}

-- Pasted once, and not stamped.
abbrev pasted : PeerRow
pasted = record {
  id = codes "p1";
  at = 100;
  kind = to_slot;
  from_slot = codes "manager";
  from_ports = none;
  room_slug = none;
  from_agent = none;
  target_pane = codes "%3";
  target_label = codes "slot-2";
  msg = codes "review the branch";
  sent = false;
  sent_at = none;
  deliver_pane = none;
  deliver_mode = none;
  injected_pane = some (codes "%3");
  injected_at = some 150;
}

-- Every key is there, save one of the optional ones.
abbrev no_ports : Text → Bool
no_ports name = not (text_eq name (codes "ports"))

columns_round_trip_example :
    (Option.map row_to_inbox (inbox_bind no_ports mail)
      ≡ (if has_keys no_ports inbox_parameters then some mail else none))
    × (row_to_checkback (checkback_bind armed) ≡ armed)
    × (Option.map row_to_peer (peer_bind no_ports pasted) ≡ (
        if has_keys no_ports peer_parameters
        then some (record pasted { injected_pane = none; injected_at = none })
        else none))
columns_round_trip_example = columns_round_trip no_ports mail armed pasted

-- The inbox row cannot be stored; the pasted peer row is read back as undelivered.
column_tests :
    (inbox_bind no_ports mail ≡ none)
    × (is_peer_delivered pasted ≡ true)
    × (Option.map is_peer_delivered (Option.map row_to_peer (peer_bind no_ports pasted))
        ≡ some false)
unfolding is_peer_delivered row_to_peer peer_bind peer_columns inbox_bind text_eq
column_tests = (refl, refl, refl)

-- A table that keeps its rows as a list.
abbrev list_table : Table ack_id
list_table = record {
  Db = List AckRow;
  all = λ d. d;
  replace = upsert_ack;
  mem-replace = upsert-mem;
}

abbrev typed : AckOpenInput
typed = record {
  seat = codes "manager";
  pane_id = codes "%4";
  source = operator;
  ask = codes "restart the daemon";
  from = none;
  id = none;
  at = none;
}

no_rows : (r s : AckRow) → Memᴰ r [] → r ≡ s
no_rows r s m = elim m [ ]

sqlite_open_ack_refines_example :
    let (d', row) = sqlite_open_ack list_table [] typed (codes "ack-c3") 300 in
    let (rows', row') = open_ack [] typed (codes "ack-c3") 300 in
    SameRows d' rows' × (row ≡ row') × OneOpen rows'
sqlite_open_ack_refines_example =
    sqlite_open_ack_refines list_table [] [] typed (codes "ack-c3") 300 (λ x. (λ m. m, λ m. m))
      (λ r s m m' o o' k a. no_rows r s m)
