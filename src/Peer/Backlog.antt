-- ===== src/Peer/Backlog.antt =====
-- packages/daemon/src/peer/peer-backlog.ts: rows that are parked while a pane cannot take them. The
-- state is the peer file and the backlog file; a backlog row's `status` is always "backlog", as
-- the reader keeps no other. The log lines are left out.
pub mod Parked
use seat_mesh.Prelude.{
  ℕ, ◌≡◌, refl, Bool, true, false, not, ◌||◌, Option, some, List, [], ◌∷◌, ◌++◌, if◌then◌else◌,
  or_else, is_some, find?, filter, modify_first, any, length, leb,
}
use seat_mesh.Prelude.Text.{Text, codes, text_eq}
use seat_mesh.Prelude.Sort.{sort}
use seat_mesh.Regex.{Re, seq, at_start, at_end, boundary, one_of, lit, test, test_ci}
use seat_mesh.Store.Rows.{PeerRow, idle, steer, backlog, opt_truthy, opt_is}
use seat_mesh.Store.Peers.{read_peer}

-- `PeerBacklogRow`
pub record BacklogRow : Type 0 where
  pub row : PeerRow
  pub backlog_at : ℕ
  pub hold_reason : Text

pub record PeerStore : Type 0 where
  pub peer_file : List PeerRow
  pub backlog_file : List BacklogRow

urgent : Re
unfolding one_of
urgent = seq boundary (seq (one_of (codes "priority" ∷ codes "stop other work" ∷ [])) boundary)

busy_hold : Re
unfolding one_of lit
busy_hold = seq at_start (seq (lit (codes "held:")) (one_of (codes "busy" ∷ codes "typing" ∷ [])))

no_agent : Re
unfolding one_of lit
no_agent = seq at_start (
    seq (lit (codes "held:")) (
      seq
        (one_of (
          codes "plain_shell"
          ∷ codes "plain_pane"
          ∷ codes "limit"
          ∷ codes "no_provider"
          ∷ codes "target-unresolved"
          ∷ []))
        at_end))

coord_wait : Re
unfolding one_of lit
coord_wait =
    seq at_start
      (seq (lit (codes "held:coord:")) (one_of (codes "wait-busy" ∷ codes "wait-typing" ∷ [])))

unfoldable pub should_backlog_peer_hold : Text → Text → Bool
unfolding urgent busy_hold no_agent coord_wait test test_ci lit
should_backlog_peer_hold reason msg =
    if test_ci urgent msg
    then false
    else if test busy_hold reason
    then true
    else if test no_agent reason
    then true
    else if test (seq at_start (lit (codes "held:cotyped:"))) reason
    then true
    else test coord_wait reason

abbrev pub is_injected : PeerRow → Bool
is_injected row = opt_truthy row.injected_pane || is_some row.injected_at

-- `byId.set(r.id, r)`: in place, or at the end
unfoldable pub place : BacklogRow → List BacklogRow → List BacklogRow
unfolding text_eq
place e [] = e ∷ []
place e (x ∷ xs) = if text_eq x.row.id e.row.id then e ∷ xs else x ∷ place e xs

unfoldable pub latest_from : List BacklogRow → List BacklogRow → List BacklogRow
unfolding place
latest_from acc [] = acc
latest_from acc (e ∷ es) = latest_from (place e acc) es

abbrev pub parked_first : BacklogRow → BacklogRow → Bool
parked_first a b = leb a.backlog_at b.backlog_at

-- The file that is written: the latest entry of each id, by the time of parking.
unfoldable pub write_backlog : List BacklogRow → List BacklogRow
unfolding latest_from sort
write_backlog rows = sort parked_first (latest_from [] rows)

-- The loop's `ids` are those of the entries so far.
orphans : List Text → List PeerRow → ℕ → List BacklogRow
unfolding text_eq
orphans ids [] now = []
orphans ids (row ∷ rows) now =
    let skip = orphans ids rows now in
    let entry : BacklogRow = record {
      row = row;
      backlog_at = or_else row.sent_at now;
      hold_reason = codes "reconcile-orphan";
    } in
    let found = entry ∷ orphans (row.id ∷ ids) rows now in
    if not (opt_is row.deliver_pane backlog) || any (λ i. text_eq i row.id) ids then skip else found

ids_of : List BacklogRow → List Text
ids_of [] = []
ids_of (e ∷ es) = e.row.id ∷ ids_of es

unfoldable pub reconcile_backlog_orphans : PeerStore → ℕ → PeerStore × ℕ
unfolding orphans ids_of write_backlog read_peer
reconcile_backlog_orphans s now =
    elim (orphans (ids_of s.backlog_file) (read_peer s.peer_file) now) [
      | [] ↦ (s, 0)
      | e ∷ es ↦
          (record s { backlog_file = write_backlog (s.backlog_file ++ e ∷ es) }, length (e ∷ es))
    ]

-- `peer.findIndex((r) => r.id === row.id)`, then an assignment or a `push`
unfoldable pub replace_or_push : PeerRow → List PeerRow → List PeerRow
unfolding text_eq
replace_or_push row [] = row ∷ []
replace_or_push row (p ∷ ps) = if text_eq p.id row.id then row ∷ ps else p ∷ replace_or_push row ps

-- An empty pane name is falsy.
abbrev pub pane_or : Option Text → Text → Text
pane_or o d = if opt_truthy o then or_else o d else d

abbrev pub as_injected : PeerRow → ℕ → PeerRow
as_injected row now =
    let pane = pane_or row.injected_pane row.target_pane in
    let at = or_else row.injected_at (or_else row.sent_at now) in
    record row {
      sent = true;
      sent_at = some at;
      deliver_pane = some pane;
      deliver_mode = some (or_else row.deliver_mode steer);
      injected_pane = some pane;
      injected_at = some at;
    }

unfoldable pub finalize_already_injected : List PeerRow → PeerRow → ℕ → List PeerRow
unfolding replace_or_push
finalize_already_injected peer row now = replace_or_push (as_injected row now) peer

abbrev pub drop_entry : Text → List BacklogRow → List BacklogRow
drop_entry id es = filter (λ e. not (text_eq e.row.id id)) es

-- The row as an injected one is written back: it stays delivered.
abbrev pub as_delivered_before : PeerRow → ℕ → PeerRow
as_delivered_before row now = record row {
  sent = true;
  sent_at = some (or_else row.sent_at (or_else row.injected_at now));
  deliver_pane = some (pane_or row.injected_pane row.target_pane);
}

abbrev pub as_parked : PeerRow → ℕ → PeerRow
as_parked row now = record row {
  sent = true;
  sent_at = some now;
  deliver_pane = some backlog;
  deliver_mode = some idle;
}

abbrev set_row : PeerRow → List PeerRow → List PeerRow
set_row row peer = modify_first (λ r. text_eq r.id row.id) (λ _. row) peer

unfoldable pub park_peer_to_backlog : PeerStore → PeerRow → Text → ℕ → PeerStore
park_peer_to_backlog s row reason now =
    let peer = read_peer s.peer_file in
    let others = drop_entry row.id s.backlog_file in
    let entry : BacklogRow = record {
      row = as_parked row now;
      backlog_at = now;
      hold_reason = reason;
    } in
    if not (is_some (find? (λ r. text_eq r.id row.id) peer))
    then s
    else if is_injected row
    then record {
      peer_file = set_row (as_delivered_before row now) peer;
      backlog_file = write_backlog others;
    }
    else record {
      peer_file = set_row (as_parked row now) peer;
      backlog_file = write_backlog (others ++ entry ∷ []);
    }

unfoldable pub count_peer_backlog : PeerStore → ℕ
count_peer_backlog s = length s.backlog_file

backlog_tests :
    (should_backlog_peer_hold (codes "held:typing") (codes "do it") ≡ true)
    × (should_backlog_peer_hold (codes "held:typing") (codes "Priority: do it") ≡ false)
    × (should_backlog_peer_hold (codes "held:coord:wait-settle") (codes "do it") ≡ false)
unfolding should_backlog_peer_hold
backlog_tests = (refl, refl, refl)
