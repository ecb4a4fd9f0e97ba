-- ===== src/Store/PaneOps.antt =====
-- The queue of pane operations: packages/daemon/src/store/jsonl-store.ts and
-- packages/daemon/src/inbox/pane-ops-drain.ts.
pub mod Drain
use seat_mesh.Prelude.{
  ℕ, Bool, true, false, not, ◌||◌, Option, none, some, List, [], ◌∷◌, ◌++◌, if◌then◌else◌, find?,
  filter, count, length, modify_first,
}
use seat_mesh.Prelude.Text.{Text, text_eq}
use seat_mesh.Store.Rows.{PaneOpRow, PaneOpStatus, PaneOpKind, pending, running, done, failed}

abbrev pub pane_op_id : PaneOpRow → Text
pane_op_id r = r.id

abbrev pub is_pending : PaneOpRow → Bool
is_pending r = elim r.status [ pending ↦ true | _ ↦ false ]

abbrev pub is_op_open : PaneOpRow → Bool
is_op_open r = elim r.status [ pending ↦ true | running ↦ true | _ ↦ false ]

unfoldable pub append_pane_op : List PaneOpRow → PaneOpRow → List PaneOpRow
append_pane_op rows row = rows ++ row ∷ []

unfoldable pub update_pane_op : List PaneOpRow → PaneOpRow → List PaneOpRow
unfolding text_eq
update_pane_op rows row = modify_first (λ r. text_eq r.id row.id) (λ _. row) rows

unfoldable pub count_pane_ops_pending : List PaneOpRow → ℕ
count_pane_ops_pending rows = length (filter is_op_open rows)

-- The rows that are left and how many were dropped.
unfoldable pub clear_pane_ops : List PaneOpRow → List PaneOpRow × ℕ
clear_pane_ops rows = (filter (λ r. not (is_op_open r)) rows, length (filter is_op_open rows))

unfoldable pub enqueue_pane_op :
    List PaneOpRow → Text → PaneOpKind → Text → Text → Text → ℕ → List PaneOpRow × PaneOpRow
unfolding append_pane_op
enqueue_pane_op rows id kind who summary payload now =
    let row : PaneOpRow = record {
      id = id;
      at = now;
      kind = kind;
      who = who;
      summary = summary;
      payload = payload;
      status = pending;
      error = none;
      finished_at = none;
    } in
    (append_pane_op rows row, row)

unfoldable pub queue_ahead_count : List PaneOpRow → ℕ
queue_ahead_count rows = length (filter is_op_open rows)

-- The result of `executePaneOp`.
pub data OpResult : Type 0 where
  succeeded : OpResult
  refused : Option Text → OpResult

abbrev pub finish : PaneOpRow → OpResult → ℕ → PaneOpRow
finish row succeeded now = record row { status = done; finished_at = some now }
finish row (refused error) now = record row {
  status = failed;
  error = error;
  finished_at = some now;
}

unfoldable pub run_op : (PaneOpRow → OpResult) → List PaneOpRow → PaneOpRow → ℕ → List PaneOpRow
run_op execute rows row now =
    let started : PaneOpRow = record row { status = running } in
    update_pane_op (update_pane_op rows started) (finish started (execute started) now)

-- `busy` is the caller's flag, which is set during the call alone; the result says whether an
-- operation was run.
unfoldable pub drain_pane_ops_once :
    (PaneOpRow → OpResult) → Bool → List PaneOpRow → ℕ → List PaneOpRow × Bool
drain_pane_ops_once execute busy rows now =
    if busy then (rows, false) else elim (find? is_pending rows) [
      | none ↦ (rows, false)
      | some row ↦ (run_op execute rows row now, true)
    ]
