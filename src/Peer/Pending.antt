-- ===== src/Peer/Pending.antt =====
-- packages/daemon/src/peer/peer-pending.ts: which rows wait for a paste.
use seat_mesh.Prelude.{ℕ, Bool, false, not, ◌&&◌, ◌||◌, List, if◌then◌else◌, filter, length}
use seat_mesh.Prelude.Text.{Text, text_eq}
use seat_mesh.Store.Rows.{PeerRow, skipped, backlog, opt_is, is_peer_delivered}
use seat_mesh.Store.Peers.{read_peer}

unfoldable pub is_peer_parked : PeerRow → Bool
unfolding text_eq
is_peer_parked row = opt_is row.deliver_pane backlog || opt_is row.deliver_pane skipped

unfoldable pub is_peer_pending_delivery : PeerRow → Bool
unfolding is_peer_parked is_peer_delivered
is_peer_pending_delivery row = if is_peer_parked row then false else not (is_peer_delivered row)

unfoldable pub count_peer_pending_for_pane : List PeerRow → Text → ℕ
unfolding is_peer_pending_delivery read_peer text_eq
count_peer_pending_for_pane file pane =
    length (filter (λ r. text_eq r.target_pane pane && is_peer_pending_delivery r) (read_peer file))

unfoldable pub count_peer_pending_global : List PeerRow → ℕ
unfolding is_peer_pending_delivery read_peer
count_peer_pending_global file = length (filter is_peer_pending_delivery (read_peer file))

abbrev pub waits : PeerRow → Bool
waits r = not (is_peer_delivered r) && not (opt_is r.deliver_pane backlog)

-- `pendingPeerRows` of peer-backlog.ts.
unfoldable pub pending_peer_rows : List PeerRow → List PeerRow
pending_peer_rows file = filter waits (read_peer file)
