-- ===== src/Ack/Sweep.antt =====
-- packages/daemon/src/ack/ack-sweep.ts: one tick's bookkeeping of the ACK ledger. The ledger and
-- the watch's state are passed along; `fresh` gives the id of the k-th row that is opened in a
-- tick. `fireAckReminders` is left out: it goes through `remindableAcks`, which is always empty.
pub mod Closing
use seat_mesh.Prelude.{
  ℕ, zero, suc, ◌+◌, Bool, true, false, not, ◌&&◌, ◌||◌, Option, none, some, List, [], ◌∷◌, ◌++◌,
  if◌then◌else◌, or_else, any, leb, ltb, min, is_some, filter, map,
}
use seat_mesh.Prelude.Text.{Text, codes, text_eq, trim, is_truthy}
use seat_mesh.Regex.{all_digits}
use seat_mesh.Store.Rows.{
  AckRow, AckOpenInput, AckCloseBy, filed, pane_reply, AckSource, operator, PeerRow, PeerKind, room,
  ToMasterRow, skipped, backlog, opt_is, opt_truthy,
}
use seat_mesh.Store.Peers.{read_peer}
use seat_mesh.Ack.Algo.{open_acks}
use seat_mesh.Ack.Filing.{SeatFiling, match_filed_acks}
use seat_mesh.Ack.Ledger.Open.{open_ack}
use seat_mesh.Ack.Ledger.Close.{AckOutcome, closed, not_found, already_acked, ack_ack}
use seat_mesh.Ack.Watch.{
  AckWatch, OperatorPrompt, drain_operator_prompts, drain_operator_pane_reply_closes,
}

open_prompts : List AckRow → List OperatorPrompt → (ℕ → Text) → ℕ → ℕ → List AckRow × ℕ
open_prompts acks [] fresh k now = (acks, 0)
open_prompts acks (p ∷ ps) fresh k now =
    let input : AckOpenInput = record {
      seat = p.label;
      pane_id = p.pane_id;
      source = operator;
      ask = p.prompt;
      from = none;
      id = none;
      at = some p.at;
    } in
    let (acks', n) = open_prompts (open_ack acks input (fresh k) now).0 ps fresh (suc k) now in
    (acks', suc n)

unfoldable pub open_acks_from_operator_prompts :
    List AckRow → AckWatch → (ℕ → Text) → ℕ → (List AckRow × AckWatch) × ℕ
unfolding open_prompts
open_acks_from_operator_prompts acks w fresh now =
    let (w', prompts) = drain_operator_prompts w in
    let (acks', n) = open_prompts acks prompts fresh 0 now in ((acks', w'), n)

abbrev pub is_closed : AckOutcome → Bool
is_closed (closed row) = true
is_closed _ = false

-- The loop of both sweeps: an `ackAck` for each row, with its note; the count is of those that
-- succeeded.
unfoldable pub close_each : List AckRow → List (AckRow × Text) → AckCloseBy → ℕ → List AckRow × ℕ
close_each acks [] by now = (acks, 0)
close_each acks ((row, remark) ∷ rest) by now =
    let (acks', outcome) = ack_ack acks row.id by (some remark) now in
    let (acks'', n) = close_each acks' rest by now in
    (acks'', if is_closed outcome then suc n else n)

abbrev is_operators : AckRow → Bool
is_operators row = elim row.source [ operator ↦ true | _ ↦ false ]

-- The open rows that an operator typed into one of the panes.
unfoldable pub replied_rows : List AckRow → List Text → List AckRow
replied_rows acks panes =
    filter (λ r. is_operators r && any (λ p. text_eq p r.pane_id) panes) (open_acks acks)

abbrev noted : Text → List AckRow → List (AckRow × Text)
noted t = map (λ r. (r, t))

unfoldable pub close_operator_acks_on_pane_reply :
    List AckRow → AckWatch → ℕ → (List AckRow × AckWatch) × ℕ
close_operator_acks_on_pane_reply acks w now =
    let (w', panes) = drain_operator_pane_reply_closes w in
    let (acks', n) =
      close_each acks (noted (codes "agent replied in pane") (replied_rows acks panes)) pane_reply
        now in
    ((acks', w'), n)

-- `a || b` on texts
abbrev first_of : Text → Text → Text
first_of a b = if is_truthy a then a else b

peer_seat : PeerRow → Text
unfolding trim all_digits
peer_seat row = first_of (trim (or_else row.from_agent [])) (elim row.kind [
  | room ↦ row.from_slot
  | _ ↦ if all_digits row.from_slot then codes "worker-" ++ row.from_slot else row.from_slot
])

-- `!row.sentAt || Date.parse(row.sentAt) < since`, the other way round
abbrev sent_since : ℕ → Option ℕ → Bool
sent_since since none = false
sent_since since (some at) = leb since at

peer_files : ℕ → PeerRow → Bool
unfolding peer_seat text_eq
peer_files since row =
    sent_since since row.sent_at
    && not (opt_is row.deliver_pane skipped || opt_is row.deliver_pane backlog)
    && is_truthy (peer_seat row)
    && not (text_eq (peer_seat row) (codes "mesh-cold-start"))

inbox_seat : ToMasterRow → Text
unfolding trim
inbox_seat row =
    first_of (trim row.from)
      (if opt_truthy row.slot then codes "worker-" ++ or_else row.slot [] else [])

peer_filing : PeerRow → SeatFiling
unfolding peer_seat
peer_filing row = record {
  seat = peer_seat row;
  at = or_else row.sent_at 0;
  what = codes "peer -> " ++ first_of row.target_label row.target_pane;
}

inbox_filing : ToMasterRow → SeatFiling
unfolding inbox_seat
inbox_filing row = record {
  seat = inbox_seat row;
  at = or_else row.sent_at 0;
  what = codes "inbox -> " ++ or_else row.delivered_to (codes "coord");
}

unfoldable pub filings_since : ℕ → List PeerRow → List ToMasterRow → List SeatFiling
unfolding peer_files peer_filing inbox_filing inbox_seat read_peer
filings_since since peer_file inbox =
    map peer_filing (filter (peer_files since) (read_peer peer_file))
    ++ map inbox_filing (filter (λ r. sent_since since r.sent_at && is_truthy (inbox_seat r)) inbox)

oldest : ℕ → List AckRow → ℕ
oldest at [] = at
oldest at (r ∷ rows) = oldest (min at r.at) rows

unfoldable pub close_acks_on_filings :
    List AckRow → List PeerRow → List ToMasterRow → ℕ → List AckRow × ℕ
unfolding oldest
close_acks_on_filings acks peer_file inbox now = elim (open_acks acks) [
  | [] ↦ (acks, 0)
  | r ∷ rows ↦
      close_each acks (match_filed_acks acks (filings_since (oldest r.at rows) peer_file inbox))
        filed now
]

-- `ackSweepTick`.
unfoldable pub ack_sweep_tick :
    List AckRow
    → AckWatch
    → List PeerRow
    → List ToMasterRow
    → (ℕ → Text)
    → ℕ
    → List AckRow × AckWatch
ack_sweep_tick acks w peer_file inbox fresh now =
    let ((acks1, w1), _) = open_acks_from_operator_prompts acks w fresh now in
    let ((acks2, w2), _) = close_operator_acks_on_pane_reply acks1 w1 now in
    ((close_acks_on_filings acks2 peer_file inbox now).0, w2)
