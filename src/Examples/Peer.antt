-- ===== src/Examples/Peer.antt =====
-- Mail for a pane, from the queue to the paste.
use seat_mesh.Prelude.{
  ℕ, ◌≡◌, refl, Bool, false, Option, none, some, List, [], ◌∷◌, Memᴰ, All, length,
}
use seat_mesh.Prelude.Text.{Text, codes, text_eq}
use seat_mesh.Prelude.Dict.{lookup, put}
use seat_mesh.Prelude.Sort.{sort}
use seat_mesh.Message.SentToken.{peer_sent_token}
use seat_mesh.Composer.{empty}
use seat_mesh.Store.Rows.{PeerRow, to_slot, idle, is_peer_delivered}
use seat_mesh.Gate.PaneHold.{pane_in_delivery_hold, note_pane_delivery_hold}
use seat_mesh.Peer.Skip.{is_cold_start}
use seat_mesh.Peer.Pending.{pending_peer_rows}
use seat_mesh.Peer.Backlog.{BacklogRow}
use seat_mesh.Peer.Promote.{PaneLook, by_pane, promote_panes, start}
use seat_mesh.Prelude.{count, find?, is_some, if◌then◌else◌}
use seat_mesh.Peer.Backlog.{is_injected}
use seat_mesh.Peer.Backlog.Parked.{of_id, park_leaves_one_entry}
use seat_mesh.Peer.Skip.{is_thin_room_unseen_ping}
use seat_mesh.Peer.Backlog.{
  should_backlog_peer_hold, park_peer_to_backlog, write_backlog, reconcile_backlog_orphans,
  replace_or_push,
}
use seat_mesh.Peer.Promote.{
  promote_peer_backlog, promote_pane, strip_rows, strip_row, promote_still, revive, eligible_of,
  rest_parked_of, cursor_follow_up_open, pane_idle_for_promote,
}
use seat_mesh.Store.Peers.{read_peer, dedupe_jsonl_rows_by_id, dedupe_from}
use seat_mesh.Peer.Drain.{
  park_or_hold_rows, DrainState, DeliverResult, pasted, unpasted, take_batch, drain_peer_pane_bulk,
  counts,
}
use seat_mesh.Peer.Drain.Settle.{sans}
use seat_mesh.Peer.Drain.Batch.{drain_never_requeues, drain_settles_batch}

abbrev pane : Text
pane = codes "%3"

abbrev letter : Text → PeerRow
letter id = record {
  id = id;
  at = 100;
  kind = to_slot;
  from_slot = codes "manager";
  from_ports = none;
  room_slug = none;
  from_agent = none;
  target_pane = pane;
  target_label = codes "slot-2";
  msg = codes "review the branch";
  sent = false;
  sent_at = none;
  deliver_pane = none;
  deliver_mode = none;
  injected_pane = none;
  injected_at = none;
}

abbrev waiting : DrainState
waiting = record {
  store = record { peer_file = letter (codes "p1") ∷ letter (codes "p2") ∷ []; backlog_file = [] };
  holds = [];
  injected_this_tick = [];
  delivered = [];
  cold_started = [];
}

abbrev open_gate : Bool → Option Text
open_gate cold = none

abbrev pastes : List PeerRow → DeliverResult
pastes batch = pasted idle

abbrev refuses : List PeerRow → DeliverResult
refuses batch = unpasted (codes "held:typing")

drain_never_requeues_example :
    All
      (λ r. Memᴰ r (pending_peer_rows waiting.store.peer_file))
      (pending_peer_rows
        (drain_peer_pane_bulk 12000 open_gate refuses 900 waiting pane
          (letter (codes "p1") ∷ letter (codes "p2") ∷ [])).0.store.peer_file)
drain_never_requeues_example =
    drain_never_requeues 12000 open_gate refuses 900 waiting pane
      (letter (codes "p1") ∷ letter (codes "p2") ∷ [])

drain_settles_batch_example :
    let batch = take_batch (letter (codes "p1")) (letter (codes "p2") ∷ []) in
    let (d', result) =
      drain_peer_pane_bulk 12000 open_gate pastes 900 waiting pane
        (letter (codes "p1") ∷ letter (codes "p2") ∷ []) in
    (pending_peer_rows d'.store.peer_file ≡ sans batch (pending_peer_rows waiting.store.peer_file))
    × (result ≡ counts 1 (length batch) 0)
unfolding pane_in_delivery_hold lookup
drain_settles_batch_example =
    drain_settles_batch 12000 open_gate pastes 900 waiting pane (letter (codes "p1"))
      (letter (codes "p2") ∷ []) idle refl refl refl

abbrev parked : Text → ℕ → BacklogRow
parked id at = record { row = letter id; backlog_at = at; hold_reason = codes "held:busy" }

abbrev look : Text → Option PaneLook
look p = some (record {
  provider_id = codes "claude";
  state = record { phase = empty; limit_kind = none; draft_fingerprint = none; busy_label = none };
  capture_tail = [];
  mark = [];
})

abbrev nothing_held : Text → Bool
nothing_held p = false

-- The refused rows are parked, and promoted again once the pane is idle.
round_trip_tests :
    let (d', result) =
      drain_peer_pane_bulk 12000 open_gate refuses 900 waiting pane (letter (codes "p1") ∷ []) in
    let (store', n) = promote_peer_backlog look nothing_held false 2000 d'.store in
    (length d'.store.backlog_file ≡ 1)
    × (length (pending_peer_rows d'.store.peer_file) ≡ 1)
    × (n ≡ 1)
    × (length (pending_peer_rows store'.peer_file) ≡ 2)
    × (length store'.backlog_file ≡ 0)
unfolding drain_peer_pane_bulk pane_in_delivery_hold lookup put park_or_hold_rows
    should_backlog_peer_hold is_thin_room_unseen_ping is_cold_start park_peer_to_backlog
    write_backlog read_peer dedupe_jsonl_rows_by_id text_eq pending_peer_rows is_peer_delivered
    take_batch note_pane_delivery_hold promote_peer_backlog reconcile_backlog_orphans promote_panes
    promote_pane strip_rows strip_row promote_still revive replace_or_push eligible_of
    rest_parked_of by_pane start cursor_follow_up_open pane_idle_for_promote sort peer_sent_token
    dedupe_from
round_trip_tests = (refl, refl, refl, refl, refl)

park_leaves_one_entry_example :
    let row = letter (codes "p1") in
    let s' = park_peer_to_backlog waiting.store row (codes "held:busy") 900 in
    let known = is_some (find? (λ r. text_eq r.id row.id) (read_peer waiting.store.peer_file)) in
    count (of_id row.id) s'.backlog_file ≡ (
      if known
      then (if is_injected row then 0 else 1)
      else count (of_id row.id) waiting.store.backlog_file)
park_leaves_one_entry_example =
    park_leaves_one_entry waiting.store (letter (codes "p1")) (codes "held:busy") 900
