-- ===== src/Examples/Store.antt =====
-- The peer file.
use seat_mesh.Prelude.{
  ℕ, ◌+◌, ◌≡◌, refl, Bool, true, false, not, ◌&&◌, Option, none, some, List, [], ◌∷◌, Memᴰ, All,
  any, count, map, filter, length, arith, if◌then◌else◌,
}
use seat_mesh.Prelude.Text.{Text, codes, text_eq}
use seat_mesh.Prelude.Keyed.{IsDistinct}
use seat_mesh.Store.Rows.{
  PeerRow, to_slot, CheckbackRow, active, ToMasterRow, PaneOpRow, relayout, pending, opt_is,
}
use seat_mesh.Store.Peers.{peer_id, read_peer, compact_peer}
use seat_mesh.Store.Peers.Dedupe.{compact_peer_is_invisible}
use seat_mesh.Store.Peers.Kept.{covers, read_peer_keeps_proof}
use seat_mesh.Store.Checkbacks.{is_active, cancel_checkbacks_for_pane_expect, cancel_row}
use seat_mesh.Store.Checkbacks.Cancel.{armed_for, cancel_for_pane_expect_dedupes}
use seat_mesh.Store.Inbox.{resolve_inbox}
use seat_mesh.Store.Inbox.Resolve.{is_meant, ids, resolve_inbox_resolves}
use seat_mesh.Store.PaneOps.{is_pending, is_op_open, OpResult, succeeded, refused}
use seat_mesh.Store.PaneOps.Drain.{drain_run, drains_empty_queue}

abbrev letter : Text → Bool → Option ℕ → PeerRow
letter id sent at = record {
  id = id;
  at = 100;
  kind = to_slot;
  from_slot = codes "manager";
  from_ports = none;
  room_slug = none;
  from_agent = none;
  target_pane = codes "%3";
  target_label = codes "slot-2";
  msg = codes "review the branch";
  sent = sent;
  sent_at = at;
  deliver_pane = none;
  deliver_mode = none;
  injected_pane = none;
  injected_at = none;
}

abbrev file : List PeerRow
file =
    letter (codes "p1") true (some 200)
    ∷ letter (codes "p2") false none
    ∷ letter (codes "p1") false none
    ∷ []

compact_peer_is_invisible_example :
    (read_peer (compact_peer file).0 ≡ read_peer file)
    × ((compact_peer file).1 + length (compact_peer file).0 ≡ length file)
    × ((compact_peer (compact_peer file).0).1 ≡ 0)
compact_peer_is_invisible_example = compact_peer_is_invisible file

read_peer_keeps_proof_example :
    IsDistinct peer_id (read_peer file)
    × All (λ s. Memᴰ s file) (read_peer file)
    × All (λ r. any (covers r) (read_peer file) ≡ true) file
read_peer_keeps_proof_example = read_peer_keeps_proof file

abbrev armed : Text → Text → CheckbackRow
armed id owner = record {
  id = id;
  kind = codes "peer";
  status = active;
  renew_sec = none;
  expect = some (codes "review");
  owner_pane = some owner;
  expires_at = none;
  sender_label = none;
  recipient_label = none;
  owner_label = none;
  workspace_id = none;
  session_name = none;
  session_fingerprint = none;
  fire_count = none;
  created_at = 1000;
  updated_at = 1000;
}

abbrev checkbacks : List CheckbackRow
checkbacks = armed (codes "cb-1") (codes "%3") ∷ armed (codes "cb-2") (codes "%4") ∷ []

cancel_for_pane_expect_dedupes_example :
    let (rows', n) =
      cancel_checkbacks_for_pane_expect checkbacks (codes "%3") (codes "review") 2000 in
    let for_both =
      armed_for (λ r. opt_is r.owner_pane (codes "%3") && opt_is r.expect (codes "review")) in
    (n ≡ count for_both checkbacks)
    × (n + count is_active rows' ≡ count is_active checkbacks)
    × All (λ r. for_both r ≡ false) rows'
    × (cancel_checkbacks_for_pane_expect rows' (codes "%3") (codes "review") 2000 ≡ (rows', 0))
    × (rows' ≡ map (λ r. if for_both r then cancel_row 2000 r else r) checkbacks)
cancel_for_pane_expect_dedupes_example =
    cancel_for_pane_expect_dedupes checkbacks (codes "%3") (codes "review") 2000

abbrev mail : Text → ToMasterRow
mail id = record {
  id = id;
  at = 100;
  from = codes "secretary";
  slot = none;
  ports = none;
  msg = codes "done";
  sent = false;
  sent_at = none;
  delivered_to = none;
  deliver_pane = none;
  deliver_mode = none;
  resolved = false;
  read = false;
}

abbrev inbox_rows : List ToMasterRow
inbox_rows = mail (codes "m-1") ∷ mail (codes "n-2") ∷ []

resolve_inbox_resolves_example :
    let (rows', named) = resolve_inbox inbox_rows (some (codes "m")) false in
    (named ≡ ids (filter (is_meant (some (codes "m")) false) inbox_rows))
    × (ids rows' ≡ ids inbox_rows)
    × (count (λ r. not r.resolved) rows' + length named ≡ count (λ r. not r.resolved) inbox_rows)
    × (resolve_inbox rows' (some (codes "m")) false ≡ (rows', []))
resolve_inbox_resolves_example = resolve_inbox_resolves inbox_rows (some (codes "m")) false

abbrev op : Text → PaneOpRow
op id = record {
  id = id;
  at = 100;
  kind = relayout;
  who = codes "manager";
  summary = codes "relayout";
  payload = [];
  status = pending;
  error = none;
  finished_at = none;
}

abbrev ops : List PaneOpRow
ops = op (codes "a") ∷ op (codes "b") ∷ []

-- The second operation fails.
abbrev execute : PaneOpRow → OpResult
execute r = if text_eq r.id (codes "b") then refused (some (codes "no pane")) else succeeded

drains_empty_queue_example :
    (count is_pending (drain_run execute (10 ∷ 20 ∷ []) ops) ≡ 0)
    × (count is_op_open (drain_run execute (10 ∷ 20 ∷ []) ops) + count is_pending ops
        ≡ count is_op_open ops)
unfolding text_eq
drains_empty_queue_example =
    drains_empty_queue execute (10 ∷ 20 ∷ []) ops ((refl, tt), (tt, tt)) (omega arith)
