-- ===== src/Ack/Asks/Once.antt =====
-- Mail that is queued and delivered opens one row.
use seat_mesh.Prelude.{ℕ, ◌≡◌, refl, sym, ◌∙◌, ap, Option, some, List, arith}
use seat_mesh.Prelude.Text.{Text}
use seat_mesh.Store.Rows.{AckRow, AckOpenInput, PeerRow}
use seat_mesh.Ack.Algo.{seat_key, trim_ask}
use seat_mesh.Ack.Ledger.Open.{open_ack, open_ack_idempotent}
use seat_mesh.Ack.Asks.{MeshPaneMeta, peer_ask, open_ack_for_peer_row, ask_snippet_from_msg}

asked :
    (meta : Text → Option MeshPaneMeta) (row : PeerRow) (i : AckOpenInput)
    → peer_ask meta row ≡ some i
    → i.ask ≡ ask_snippet_from_msg row.msg
unfolding peer_ask
asked meta row i e = ground arith

opens :
    (meta : Text → Option MeshPaneMeta) (acks : List AckRow) (row : PeerRow) (i : AckOpenInput)
    (fresh : Text) (now : ℕ)
    → peer_ask meta row ≡ some i
    → open_ack_for_peer_row meta acks row fresh now ≡ (open_ack acks i fresh now).0
unfolding open_ack_for_peer_row
opens meta acks row i fresh now e = rw (e, open_ack_for_peer_row) refl

-- Where mail with the same text asks the same seat, as when a row is queued and then delivered, the
-- second call of `openAckForPeerRow` leaves the ledger as the first one left it, whatever panes,
-- labels, senders, ids and times the two had.
pub peer_row_opens_once :
    (meta meta' : Text → Option MeshPaneMeta) (acks : List AckRow) (row row' : PeerRow)
    (i i' : AckOpenInput) (fresh fresh' : Text) (now now' : ℕ)
    → peer_ask meta row ≡ some i
    → peer_ask meta' row' ≡ some i'
    → row'.msg ≡ row.msg
    → seat_key i'.seat ≡ seat_key i.seat
    → open_ack_for_peer_row meta' (open_ack_for_peer_row meta acks row fresh now) row' fresh' now'
      ≡ open_ack_for_peer_row meta acks row fresh now
peer_row_opens_once meta meta' acks row row' i i' fresh fresh' now now' e e' m s =
    let same : i'.ask ≡ i.ask =
      asked meta' row' i' e' ∙ ap ask_snippet_from_msg m ∙ sym (asked meta row i e) in
    rw (opens meta acks row i fresh now e) (
      opens meta' (open_ack acks i fresh now).0 row' i' fresh' now' e'
      ∙ ap (λ x. x.0) (open_ack_idempotent acks i i' fresh fresh' now now' s (ap trim_ask same)).4)
