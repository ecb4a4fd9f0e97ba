-- ===== src/Peer/Drain.antt =====
-- packages/daemon/src/peer/peer-bulk-drain.ts: one pane's pending rows, as one paste. The caller's
-- gate, and `deliverToPane` with the payload that is formatted for the batch, are arguments. Calls
-- that change other state are listed in the order in which they happen: `delivered` the rows handed
-- to `armRecipientCheckbackAfterPeer` and `openAckForDeliveredPeer`, `cold_started` the panes
-- handed to `markColdStartDelivered`. The log lines are left out.
pub mod Settle
pub mod Batch
use seat_mesh.Prelude.{
  ℕ, suc, ◌==◌, Bool, true, false, ◌&&◌, ◌||◌, Option, none, some, List, [], ◌∷◌, ◌++◌,
  if◌then◌else◌, or_else, find?, any, length,
}
use seat_mesh.Prelude.Text.{Text, codes, text_eq}
use seat_mesh.Message.AckClass.{is_ack_class_peer}
use seat_mesh.Store.Rows.{PeerRow, DeliverMode}
use seat_mesh.Store.Peers.{read_peer, update_peer}
use seat_mesh.Gate.PaneHold.{Holds, note_pane_delivery_hold, pane_in_delivery_hold}
use seat_mesh.Peer.Skip.{
  is_cold_start, is_thin_room_unseen_ping, mark_peer_row_skipped, as_skipped,
  should_skip_delivered_cold_start, should_skip_duplicate_cold_start_resummon,
  should_skip_global_worker_room_ping, should_skip_manager_status_room_ping,
}
use seat_mesh.Peer.Bulk.{peer_bulk_max, take_peer_bulk_batch}
use seat_mesh.Peer.Backlog.{PeerStore, should_backlog_peer_hold, park_peer_to_backlog}

pub record DrainState : Type 0 where
  pub store : PeerStore
  pub holds : Holds
  pub injected_this_tick : List Text
  pub delivered : List PeerRow
  pub cold_started : List Text

pub data DeliverResult : Type 0 where
  pasted : DeliverMode → DeliverResult
  unpasted : Text → DeliverResult

pub record DrainCount : Type 0 where
  pub attempted : ℕ
  pub delivered_rows : ℕ
  pub held : ℕ

abbrev pub counts : ℕ → ℕ → ℕ → DrainCount
counts a d h = record { attempted = a; delivered_rows = d; held = h }

abbrev pub with_peers : DrainState → (List PeerRow → List PeerRow) → DrainState
with_peers d f = record d { store = record d.store { peer_file = f d.store.peer_file } }

abbrev pub start_cold : PeerRow → Text → DrainState → DrainState
start_cold row pane d =
    if is_cold_start row then record d { cold_started = d.cold_started ++ pane ∷ [] } else d

abbrev pub as_delivered : Text → DeliverMode → ℕ → PeerRow → PeerRow
as_delivered pane mode now r = record r {
  sent = true;
  sent_at = some now;
  deliver_pane = some pane;
  deliver_mode = some mode;
  injected_pane = some pane;
  injected_at = some now;
}

-- `markDelivered`: the peer file afterwards, and the row that was stamped: the file's, or the
-- caller's where the file has none.
unfoldable pub mark_delivered :
    List PeerRow → PeerRow → Text → DeliverMode → ℕ → List PeerRow × PeerRow
mark_delivered file row pane mode now = (
  update_peer row.id (as_delivered pane mode now) file,
  as_delivered pane mode now (or_else (find? (λ r. text_eq r.id row.id) (read_peer file)) row),
)

unfoldable pub mark_skipped : DrainState → PeerRow → ℕ → DrainState
mark_skipped d row now =
    start_cold row row.target_pane (with_peers d (update_peer row.id (as_skipped now)))

-- A thin ping is dropped; any other row waits where it is.
unfoldable pub hold_rows : DrainState → List PeerRow → ℕ → DrainState × ℕ
hold_rows d [] now = (d, 0)
hold_rows d (row ∷ rows) now =
    let dropped = with_peers d (λ file. mark_peer_row_skipped file row now) in
    let thin = is_thin_room_unseen_ping row in
    let (d', n) = hold_rows (if thin then dropped else d) rows now in
    (d', if thin then n else suc n)

unfoldable pub park_or_hold_rows : DrainState → List PeerRow → Text → ℕ → DrainState × ℕ
park_or_hold_rows d [] reason now = (d, 0)
park_or_hold_rows d (row ∷ rows) reason now =
    let dropped = with_peers d (λ file. mark_peer_row_skipped file row now) in
    let parked : DrainState = record d { store = park_peer_to_backlog d.store row reason now } in
    let parks = should_backlog_peer_hold reason row.msg in
    let (d', n) =
      park_or_hold_rows
        (if parks then (if is_thin_room_unseen_ping row then dropped else parked) else d) rows
        reason now in
    (d', if parks then n else suc n)

abbrev pub deliver_row : DrainState → PeerRow → Text → DeliverMode → ℕ → DrainState
deliver_row d row pane mode now = start_cold row pane (record d {
  store = record d.store { peer_file = (mark_delivered d.store.peer_file row pane mode now).0 };
  delivered = d.delivered ++ (mark_delivered d.store.peer_file row pane mode now).1 ∷ [];
})

-- The loop over a batch that was pasted.
unfoldable pub deliver_rows : DrainState → List PeerRow → Text → DeliverMode → ℕ → DrainState
deliver_rows d [] pane mode now = d
deliver_rows d (row ∷ rows) pane mode now =
    deliver_rows (deliver_row d row pane mode now) rows pane mode now

unfoldable pub skip_rows : DrainState → List PeerRow → ℕ → DrainState
skip_rows d [] now = d
skip_rows d (row ∷ rows) now = skip_rows (mark_skipped d row now) rows now

abbrev pub note_hold : ℕ → DrainState → Text → Text → ℕ → DrainState
note_hold hold_ms d pane reason now = record d {
  holds = note_pane_delivery_hold hold_ms d.holds pane reason now;
}

-- `held || batch.length`
abbrev pub or_whole : ℕ → List PeerRow → ℕ
or_whole held batch = if held == 0 then length batch else held

unfoldable pub take_batch : PeerRow → List PeerRow → List PeerRow
unfolding take_peer_bulk_batch is_cold_start is_thin_room_unseen_ping
take_batch row rows =
    if is_cold_start row || is_thin_room_unseen_ping row
    then row ∷ []
    else (take_peer_bulk_batch (row ∷ rows) peer_bulk_max).0

module _ (hold_ms : ℕ) (gate : Bool → Option Text) (deliver : List PeerRow → DeliverResult)
    (now : ℕ) where
  after_paste : DrainState → Text → PeerRow → List PeerRow → DeliverResult → DrainState × DrainCount
  after_paste d pane first batch (pasted mode) = (
    deliver_rows (record d { injected_this_tick = pane ∷ d.injected_this_tick }) batch pane mode
        now,
    counts 1 (length batch) 0,
  )
  after_paste d pane first batch (unpasted reason) =
      let (d', held) =
        park_or_hold_rows (note_hold hold_ms d first.target_pane reason now) batch reason now in
      if text_eq reason (codes "no_snapshot")
      then (skip_rows d batch now, counts 1 0 0)
      else (d', counts 1 0 (or_whole held batch))

  -- `gate` answers with a reason where it blocks; its argument says whether the batch has a cold
  -- start in it.
  unfoldable pub drain_peer_pane_bulk : DrainState → Text → List PeerRow → DrainState × DrainCount
  unfolding after_paste
  drain_peer_pane_bulk d pane [] = (d, counts 0 0 0)
  drain_peer_pane_bulk d pane (row ∷ rows) =
      let (holds', in_hold) = pane_in_delivery_hold d.holds pane now in
      let d' : DrainState = record d { holds = holds' } in
      let batch = take_batch row rows in
      if in_hold || any (λ p. text_eq p pane) d.injected_this_tick
      then (d', counts 0 0 (length (row ∷ rows)))
      else elim (gate (any is_cold_start batch)) [
        | some reason ↦
            let (d'', held) =
              hold_rows (note_hold hold_ms d' row.target_pane reason now) batch now in
            (d'', counts 1 0 (or_whole held batch))
        | none ↦ after_paste d' pane row batch (deliver batch)
      ]

-- `applySkips`, and whether the row was dropped. `has_delivered` and `hub_locked` stand for
-- `hasDeliveredColdStartPeer` and the workspace's hub lock with a hub seat as target.
unfoldable pub apply_skips :
    (Text → Bool) → (PeerRow → Bool) → DrainState → PeerRow → ℕ → DrainState × Bool
unfolding should_skip_delivered_cold_start should_skip_duplicate_cold_start_resummon
    should_skip_global_worker_room_ping should_skip_manager_status_room_ping mark_peer_row_skipped
    is_ack_class_peer is_cold_start
apply_skips has_delivered hub_locked d row now =
    let dropped = with_peers d (λ file. mark_peer_row_skipped file row now) in
    if should_skip_delivered_cold_start row
    then (start_cold row row.target_pane dropped, true)
    else if should_skip_duplicate_cold_start_resummon has_delivered row
    then (dropped, true)
    else if should_skip_global_worker_room_ping row
    then (dropped, true)
    else if should_skip_manager_status_room_ping row
    then (dropped, true)
    else if hub_locked row && is_ack_class_peer row.msg
    then (dropped, true)
    else (d, false)
