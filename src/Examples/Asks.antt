-- ===== src/Examples/Asks.antt =====
-- Rows opened for mail.
use seat_mesh.Prelude.{◌≡◌, refl, true, false, Option, none, some, []}
use seat_mesh.Prelude.Text.{Text, codes, text_eq, trim, starts_with, to_lower, collapse_spaces}
use seat_mesh.Store.Rows.{PeerRow, to_slot, steer, AckOpenInput, peer}
use seat_mesh.Ack.Asks.{
  MeshPaneMeta, peer_ask, open_ack_for_peer_row, is_substance_ask, ask_snippet_from_msg,
  seat_for_pane, sender_of,
}
use seat_mesh.Ack.Asks.Once.{peer_row_opens_once}

abbrev queued : PeerRow
queued = record {
  id = codes "p1";
  at = 100;
  kind = to_slot;
  from_slot = codes "2";
  from_ports = none;
  room_slug = none;
  from_agent = none;
  target_pane = codes "%3";
  target_label = codes "slot-3";
  msg = codes "review it";
  sent = false;
  sent_at = none;
  deliver_pane = none;
  deliver_mode = none;
  injected_pane = none;
  injected_at = none;
}

abbrev delivered : PeerRow
delivered = record queued {
  sent = true;
  sent_at = some 200;
  deliver_pane = some (codes "%7");
  deliver_mode = some steer;
}

-- The worker in slot 3 has moved to another pane.
abbrev worker : Text → Option MeshPaneMeta
worker pane = some (record { role = codes "worker"; slot = codes "3"; mini = [] })

abbrev ask_of : Text → AckOpenInput
ask_of pane = record {
  seat = codes "worker-3";
  pane_id = pane;
  source = peer;
  ask = codes "review it";
  from = some (codes "slot-2");
  id = none;
  at = some 100;
}

queued_asks : peer_ask worker queued ≡ some (ask_of (codes "%3"))
unfolding peer_ask is_substance_ask ask_snippet_from_msg seat_for_pane sender_of text_eq trim
    starts_with to_lower collapse_spaces
queued_asks = refl

delivered_asks : peer_ask worker delivered ≡ some (ask_of (codes "%7"))
unfolding peer_ask is_substance_ask ask_snippet_from_msg seat_for_pane sender_of text_eq trim
    starts_with to_lower collapse_spaces
delivered_asks = refl

peer_row_opens_once_example :
    open_ack_for_peer_row worker
      (open_ack_for_peer_row worker [] queued (codes "ack-a") 150)
      delivered
      (codes "ack-b")
      250
    ≡ open_ack_for_peer_row worker [] queued (codes "ack-a") 150
peer_row_opens_once_example =
    peer_row_opens_once worker worker [] queued delivered (ask_of (codes "%3"))
      (ask_of (codes "%7")) (codes "ack-a") (codes "ack-b") 150 250 queued_asks delivered_asks refl
      refl
