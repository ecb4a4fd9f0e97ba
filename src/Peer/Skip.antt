-- ===== src/Peer/Skip.antt =====
-- packages/daemon/src/peer/peer-skip.ts: rows that are dropped and not pasted. Whether a pane's
-- cold start was delivered before is asked of the tmux package: an argument.
use seat_mesh.Prelude.{
  ℕ, Bool, true, false, not, ◌&&◌, ◌||◌, some, List, if◌then◌else◌, is_some, leb,
}
use seat_mesh.Prelude.Text.{Text, codes, text_eq}
use seat_mesh.Regex.{
  Re, seq, star, at_start, at_end, boundary, unit, plus, digit, space, lit, test, test_ci,
}
use seat_mesh.Message.InjectText.{is_supervise_status_broadcast}
use seat_mesh.Store.Rows.{PeerRow, room, idle, skipped, opt_is}
use seat_mesh.Store.Peers.{update_peer}

abbrev pub cold_start : Text
cold_start = codes "mesh-cold-start"

unfoldable pub is_cold_start : PeerRow → Bool
unfolding text_eq
is_cold_start row = text_eq row.from_slot cold_start

abbrev pub is_room : PeerRow → Bool
is_room row = elim row.kind [ room ↦ true | _ ↦ false ]

unfoldable pub should_skip_delivered_cold_start : PeerRow → Bool
unfolding is_cold_start
should_skip_delivered_cold_start row = is_cold_start row && row.sent && is_some row.sent_at

unfoldable pub should_skip_duplicate_cold_start_resummon : (Text → Bool) → PeerRow → Bool
unfolding is_cold_start test lit
should_skip_duplicate_cold_start_resummon has_delivered row =
    if not (is_cold_start row) || row.sent
    then false
    else if not (test (lit (codes "FRESH SUMMON")) row.msg)
    then false
    else has_delivered row.target_pane

-- `/^slot-[1-9]$/`
worker_label : Re
unfolding lit
worker_label =
    seq at_start (seq (lit (codes "slot-")) (seq (unit (λ c. leb b'1' c && leb c b'9')) at_end))

-- `/\|\s*fyi\s+\d+\s+unseen/i`
thin_fyi : Re
unfolding lit
thin_fyi = seq (lit (codes "|")) (
    seq (star space) (
      seq (lit (codes "fyi"))
        (seq (plus space) (seq (plus digit) (seq (plus space) (lit (codes "unseen")))))))

unfoldable pub should_skip_global_worker_room_ping : PeerRow → Bool
unfolding worker_label thin_fyi test test_ci text_eq
should_skip_global_worker_room_ping row =
    if not (is_room row) || not (opt_is row.room_slug (codes "global"))
    then false
    else if not (test worker_label row.target_label)
    then false
    else test_ci thin_fyi row.msg

unfoldable pub should_skip_manager_status_room_ping : PeerRow → Bool
unfolding text_eq is_supervise_status_broadcast
should_skip_manager_status_room_ping row =
    if not (is_room row)
    then false
    else if not (text_eq row.target_label (codes "manager"))
        && not (text_eq row.target_label (codes "master"))
    then false
    else is_supervise_status_broadcast row.msg

-- `/\b\d+\s+unseen\b/i`
unseen_count : Re
unfolding lit
unseen_count =
    seq boundary (seq (plus digit) (seq (plus space) (seq (lit (codes "unseen")) boundary)))

unfoldable pub is_thin_room_unseen_ping : PeerRow → Bool
unfolding unseen_count lit test test_ci
is_thin_room_unseen_ping row =
    if not (is_room row)
    then false
    else if not (test (lit (codes "[mesh-inbox-room]")) row.msg)
    then false
    else test_ci unseen_count row.msg

abbrev pub as_skipped : ℕ → PeerRow → PeerRow
as_skipped now r = record r {
  sent = true;
  sent_at = some now;
  deliver_pane = some skipped;
  deliver_mode = some idle;
}

unfoldable pub mark_peer_row_skipped : List PeerRow → PeerRow → ℕ → List PeerRow
mark_peer_row_skipped file row now = update_peer row.id (as_skipped now) file
