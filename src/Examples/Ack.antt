-- ===== src/Examples/Ack.antt =====
-- The ledger of asks.
use seat_mesh.Prelude.{
  ℕ, ◌+◌, ◌≤◌, ◌≡◌, refl, Bool, true, false, ◌&&◌, none, some, List, [], ◌∷◌, Memᴰ, All, length,
  count, map, find?, if◌then◌else◌, arith,
}
use seat_mesh.Prelude.Text.{Text, codes, text_eq}
use seat_mesh.Prelude.Keyed.{IsDistinct}
use seat_mesh.Composer.{empty, busy}
use seat_mesh.Store.Rows.{AckRow, AckOpenInput, operator, peer, explicit}
use seat_mesh.Ack.Algo.{trim_ask, seat_key, is_ack_open, open_acks, close_ack_row}
use seat_mesh.Ack.Filing.{SeatFiling, match_filed_acks}
use seat_mesh.Ack.Filing.Match.{IsEvidenced, rows_of, match_filed_acks_sound}
use seat_mesh.Ack.Ledger.Open.{ack_id, open_ack, open_ack_idempotent}
use seat_mesh.Ack.Ledger.Close.{
  ack_ack, count_open_acks, ack_ack_closes, ack_all_acks, wanted, ack_all_acks_closes, cleared_if,
}
use seat_mesh.Ack.Watch.{reset_ack_watch, note_daemon_inject}
use seat_mesh.Store.Rows.{ToMasterRow}
use seat_mesh.Store.Peers.{read_peer, dedupe_jsonl_rows_by_id, dedupe_from}
use seat_mesh.Ack.Prompt.{PromptObservation}
use seat_mesh.Ack.Sweep.{
  close_each, filings_since, close_acks_on_filings, close_operator_acks_on_pane_reply,
}
use seat_mesh.Ack.Sweep.Closing.{sweeps_count_what_they_close}
use seat_mesh.Ack.Watch.Safety.{
  WatchEvent, inject, observe, watch_run, prompts_for, closes_for, run-closes-le-prompts,
}
use seat_mesh.Ack.Watch.Quiet.{inject_is_no_ask}

abbrev ask_row : Text → Text → ℕ → Text → AckRow
ask_row id seat at ask = record {
  id = id;
  at = at;
  seat = seat;
  pane_id = codes "%3";
  source = peer;
  from = none;
  ask = ask;
  acked_at = none;
  ack_by = none;
  ack_note = none;
  reminders = 0;
  reminded_at = none;
}

abbrev ledger : List AckRow
ledger =
    ask_row (codes "ack-a1") (codes "worker-2") 100 (codes "review the branch")
    ∷ ask_row (codes "ack-b2") (codes "manager") 200 (codes "merge it")
    ∷ []

abbrev typed : AckOpenInput
typed = record {
  seat = codes "Manager ";
  pane_id = codes "%4";
  source = operator;
  ask = codes "  restart   the daemon ";
  from = none;
  id = none;
  at = none;
}

abbrev typed_again : AckOpenInput
typed_again = record {
  seat = codes "manager";
  pane_id = codes "%9";
  source = operator;
  ask = codes "restart the daemon";
  from = some (codes "operator");
  id = some (codes "ack-zz");
  at = some 7;
}

open_ack_idempotent_example :
    let (rows', row) = open_ack ledger typed (codes "ack-c3") 300 in
    Memᴰ row rows'
    × (is_ack_open row ≡ true)
    × (seat_key row.seat ≡ seat_key typed.seat)
    × (row.ask ≡ trim_ask typed.ask)
    × (open_ack rows' typed_again (codes "ack-d4") 400 ≡ (rows', row))
unfolding open_ack
open_ack_idempotent_example =
    open_ack_idempotent ledger typed typed_again (codes "ack-c3") (codes "ack-d4") 300 400 refl refl

abbrev filings : List SeatFiling
filings = record { seat = codes "WORKER-2"; at = 150; what = codes "to manager" } ∷ []

match_filed_acks_sound_example :
    All (IsEvidenced ledger filings) (match_filed_acks ledger filings)
    × (length (match_filed_acks ledger filings) ≤ length filings)
    × ((p : AckRow → Bool)
        → count p (rows_of (match_filed_acks ledger filings)) ≤ count p (open_acks ledger))
match_filed_acks_sound_example = match_filed_acks_sound ledger filings

abbrev acked : AckRow
acked =
    close_ack_row (ask_row (codes "ack-b2") (codes "manager") 200 (codes "merge it")) explicit none
      900

abbrev ledger_after : List AckRow
ledger_after =
    ask_row (codes "ack-a1") (codes "worker-2") 100 (codes "review the branch") ∷ acked ∷ []

ack_ack_closes_example :
    (count_open_acks ledger_after + 1 ≡ count_open_acks ledger)
    × (acked.acked_at ≡ some 900)
    × ((k : Text)
        → find? (λ r. text_eq r.id k) ledger_after
          ≡ (if text_eq acked.id k then some acked else find? (λ r. text_eq r.id k) ledger))
    × IsDistinct ack_id ledger_after
unfolding ack_ack
ack_ack_closes_example =
    ack_ack_closes ledger ledger_after (codes "b2") explicit none 900 acked ((refl, tt), (tt, tt))
      refl

ack_all_acks_closes_example :
    let (rows', n) = ack_all_acks ledger (some (codes "manager")) explicit 900 in
    (n ≡ count (λ r. is_ack_open r && wanted (some (codes "manager")) r) ledger)
    × (n + count_open_acks rows' ≡ count_open_acks ledger)
    × All (λ r. (is_ack_open r && wanted (some (codes "manager")) r) ≡ false) rows'
    × (rows' ≡ map (cleared_if (some (codes "manager")) explicit 900) ledger)
ack_all_acks_closes_example = ack_all_acks_closes ledger (some (codes "manager")) explicit 900

abbrev pane : Text
pane = codes "%3"

abbrev asked_and_answered : List WatchEvent
asked_and_answered =
    observe pane (codes "slot-2") (codes "fix the build") (codes "> fix the build") (some empty)
      1000
    ∷ observe pane (codes "slot-2") [] (codes "> fix the build") (some busy) 2000
    ∷ observe pane (codes "slot-2") [] (codes "> fix the build") (some busy) 3000
    ∷ observe pane (codes "slot-2") [] (codes "done") (some empty) 4000
    ∷ []

run-closes-le-prompts_example :
    closes_for pane (watch_run reset_ack_watch asked_and_answered)
    ≤ prompts_for pane (watch_run reset_ack_watch asked_and_answered)
run-closes-le-prompts_example = run-closes-le-prompts pane asked_and_answered

abbrev after_paste : List WatchEvent
after_paste =
    observe pane (codes "slot-2") (codes "pasted text") [] (some empty) 6000
    ∷ inject (codes "%7") 6100
    ∷ observe pane (codes "slot-2") [] (codes "> pasted text") (some busy) 9000
    ∷ []

inject_is_no_ask_example :
    let w' = watch_run (note_daemon_inject reset_ack_watch pane 5000) after_paste in
    (prompts_for pane w' ≡ prompts_for pane reset_ack_watch)
    × (closes_for pane w' ≡ closes_for pane reset_ack_watch)
unfolding text_eq
inject_is_no_ask_example =
    inject_is_no_ask reset_ack_watch pane 5000 after_paste (omega arith)
      (omega arith, (refl, (omega arith, tt)))

abbrev report : ToMasterRow
report = record {
  id = codes "m-1";
  at = 300;
  from = codes "worker-2";
  slot = none;
  ports = none;
  msg = codes "done";
  sent = true;
  sent_at = some 400;
  delivered_to = none;
  deliver_pane = none;
  deliver_mode = none;
  resolved = false;
  read = false;
}

-- The worker's report closes its ask.
sweep_tests : (close_acks_on_filings ledger [] (report ∷ []) 900).1 ≡ 1
unfolding close_acks_on_filings open_acks match_filed_acks close_each filings_since read_peer
    dedupe_jsonl_rows_by_id dedupe_from ack_ack text_eq
sweep_tests = refl

sweeps_count_what_they_close_example :
    let (filed, n) = close_acks_on_filings ledger [] (report ∷ []) 900 in
    let ((replied, w'), m) = close_operator_acks_on_pane_reply ledger reset_ack_watch 900 in
    (n + count_open_acks filed ≡ count_open_acks ledger)
    × IsDistinct ack_id filed
    × (m + count_open_acks replied ≡ count_open_acks ledger)
    × IsDistinct ack_id replied
unfolding text_eq
sweeps_count_what_they_close_example =
    sweeps_count_what_they_close ledger reset_ack_watch [] (report ∷ []) 900 ((refl, tt), (tt, tt))

abbrev pasted_ticks : List (PromptObservation × ℕ)
pasted_ticks =
    (record { draft = codes "[from:manager to:slot-2] go"; capture_tail = [] }, 1000)
    ∷ (record { draft = []; capture_tail = codes "> [from:manager to:slot-2] go" }, 2000)
    ∷ []
