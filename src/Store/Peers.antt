-- ===== src/Store/Peers.antt =====
-- The peer file of packages/daemon/src/store/jsonl-store.ts: a list of rows as they were appended,
-- which every reader compacts. The `Map` from ids to rows is the list of its values, in the order
-- of insertion, since a row is stored under its own id.
pub mod Dedupe
pub mod Kept
pub mod Update
use seat_mesh.Prelude.{
  ℕ, ◌-◌, Bool, true, false, not, ◌&&◌, Option, none, some, List, [], ◌∷◌, ◌++◌, if◌then◌else◌,
  is_some, length, find?, filter, modify_first, reverse, ltb, ◌==◌,
}
use seat_mesh.Prelude.Text.{Text, text_eq, trim}
use seat_mesh.Store.Rows.{PeerRow, PeerKind, to_slot, to_mini, prompt, remind, room}

abbrev pub peer_id : PeerRow → Text
peer_id r = r.id

-- `row.sent === true && Boolean(row.sentAt)`
abbrev pub has_proof : PeerRow → Bool
has_proof row = row.sent && is_some row.sent_at

abbrev pub keep_better : PeerRow → PeerRow → PeerRow
keep_better prev row =
    if has_proof row && not (has_proof prev)
    then row
    else if not (has_proof row) && has_proof prev
    then prev
    else row

-- The body of the loop.
unfoldable pub merge_row : PeerRow → List PeerRow → List PeerRow
merge_row row [] = row ∷ []
merge_row row (prev ∷ rows) =
    if text_eq prev.id row.id then keep_better prev row ∷ rows else prev ∷ merge_row row rows

unfoldable pub dedupe_from : List PeerRow → List PeerRow → List PeerRow
unfolding merge_row
dedupe_from acc [] = acc
dedupe_from acc (row ∷ rows) = dedupe_from (merge_row row acc) rows

unfoldable pub dedupe_jsonl_rows_by_id : List PeerRow → List PeerRow
dedupe_jsonl_rows_by_id rows = dedupe_from [] rows

unfoldable pub read_peer : List PeerRow → List PeerRow
read_peer file = dedupe_jsonl_rows_by_id file

unfoldable pub append_peer : List PeerRow → PeerRow → List PeerRow
append_peer file row = file ++ row ∷ []

unfoldable pub append_peers : List PeerRow → List PeerRow → List PeerRow
append_peers file rows = file ++ rows

-- The file afterwards and how many lines it lost.
unfoldable pub compact_peer : List PeerRow → List PeerRow × ℕ
compact_peer file =
    let rows = dedupe_jsonl_rows_by_id file in
    if length rows == length file then (file, 0) else (rows, length file - length rows)

abbrev pub dup_enqueue_window_ms : ℕ
dup_enqueue_window_ms = 120000

abbrev pub same_kind : PeerKind → PeerKind → Bool
same_kind to_slot to_slot = true
same_kind to_mini to_mini = true
same_kind prompt prompt = true
same_kind remind remind = true
same_kind room room = true
same_kind a b = false

-- `key.kind && r.kind !== key.kind`, the other way round
abbrev kind_fits : Option PeerKind → PeerRow → Bool
kind_fits none r = true
kind_fits (some k) r = same_kind r.kind k

abbrev pub is_dup_peer : Text → Text → Option PeerKind → ℕ → PeerRow → Bool
is_dup_peer pane msg kind now r =
    text_eq r.target_pane (trim pane)
    && text_eq (trim r.msg) (trim msg)
    && kind_fits kind r
    && not (ltb dup_enqueue_window_ms (now - r.at))

-- The last row that fits: the loop runs from the end.
unfoldable pub find_dup_peer : List PeerRow → Text → Text → Option PeerKind → ℕ → Option PeerRow
unfolding text_eq trim
find_dup_peer rows pane msg kind now = find? (is_dup_peer pane msg kind now) (reverse rows)

-- `rows.findIndex((r) => r.id === id)`, the change of that row, and `writePeer(rows)`; no write
-- where there is no such row.
unfoldable pub update_peer : Text → (PeerRow → PeerRow) → List PeerRow → List PeerRow
update_peer id f file = elim (find? (λ r. text_eq r.id id) (read_peer file)) [
  | none ↦ file
  | some old ↦ modify_first (λ r. text_eq r.id id) f (read_peer file)
]
