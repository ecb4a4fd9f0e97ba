-- ===== src/Target/Fire.antt =====
-- packages/daemon/src/target/target-fire.ts: toasting and triaging the targets that are due. Where
-- a seat's pane is found, the default seats, `Date.parse` and the ids of new peer rows are
-- arguments; that a toast was shown is part of the result.
pub mod OneShot
use seat_mesh.Prelude.{
  ℕ, zero, suc, ◌-◌, ◌≡◌, refl, Bool, true, false, not, ◌&&◌, ◌||◌, Option, none, some, List, [],
  ◌∷◌, ◌++◌, map, if◌then◌else◌, filter, find?, is_some, leb, ltb, take, or_else, any,
}
use seat_mesh.Prelude.Text.{Text, codes, text_eq, trim, to_lower, is_truthy}
use seat_mesh.Store.Rows.{PeerRow, to_slot}
use seat_mesh.Target.{
  TargetRow, TargetKind, scope, slice, is_target_active, upsert_target, target_id,
}

abbrev pub target_fire_budget : ℕ
target_fire_budget = 4

-- `[...new Set(xs)]`
dedupe : List Text → List Text → List Text
dedupe seen [] = []
dedupe seen (t ∷ ts) =
    let on = dedupe (t ∷ seen) ts in
    let rest = dedupe seen ts in if any (λ x. text_eq x t) seen then rest else t ∷ on

abbrev non_empty_or : Option (List Text) → List Text → List Text
non_empty_or none d = d
non_empty_or (some []) d = d
non_empty_or (some (t ∷ ts)) d = t ∷ ts

unfoldable pub triage_seats : List Text → TargetRow → List Text
unfolding dedupe
triage_seats default row =
    dedupe [] (filter is_truthy (map (λ s. to_lower (trim s)) (non_empty_or row.triage_to default)))

abbrev newline : Text
newline = 10 ∷ []

unfoldable pub breakdown : TargetRow → Text
breakdown row = elim row.kind [
  | some scope ↦
      newline
      ++ codes "SCOPE: break into workable slices — seatmesh target add \"<ticket>\" --under "
      ++ take 8 row.id
      ++ codes " --deadline 6h"
      ++ newline
      ++ codes "Then assign workers; balance load. Mark scope done when children clear."
  | some slice ↦
      newline
      ++ codes "SLICE under "
      ++ (elim row.parent_id [ none ↦ codes "?" | some p ↦ take 8 p ])
      ++ codes ": assign a worker/mini; seatmesh target done "
      ++ take 8 row.id
      ++ codes " when finished."
  | none ↦ newline ++ codes "Triage: balance load across workers/minis."
]

abbrev kind_word : Option TargetKind → Text
kind_word none = codes "TARGET"
kind_word (some scope) = codes "SCOPE"
kind_word (some slice) = codes "SLICE"

unfoldable pub triage_msg : TargetRow → Text
unfolding breakdown
triage_msg row =
    codes "[target "
    ++ take 8 row.id
    ++ codes "] "
    ++ kind_word row.kind
    ++ codes " DUE: "
    ++ row.goal
    ++ newline
    ++ codes "deadline="
    ++ row.deadline_at
    ++ breakdown row
    ++ newline
    ++ codes "Operator: seatmesh target done "
    ++ take 8 row.id
    ++ codes " · UI: http://127.0.0.1:<daemon>/ui/"

unfoldable pub triage_peer : TargetRow → Text → Text → Text → ℕ → PeerRow
triage_peer row id pane seat now = record {
  id = id;
  at = now;
  kind = to_slot;
  from_slot = codes "operator";
  from_ports = none;
  room_slug = none;
  from_agent = some (codes "target");
  target_pane = pane;
  target_label = seat;
  msg = triage_msg row;
  sent = false;
  sent_at = none;
  deliver_pane = none;
  deliver_mode = none;
  injected_pane = none;
  injected_at = none;
}

-- A deadline that does not parse never passes.
abbrev pub is_past : Option ℕ → ℕ → Bool
is_past none now = false
is_past (some due) now = leb due now

-- Due, and not both toasted and triaged.
unfoldable pub is_target_due : (Text → Option ℕ) → ℕ → TargetRow → Bool
is_target_due parse now row =
    is_target_active row
    && is_past (parse row.deadline_at) now
    && not (is_some row.reminded_at && is_some row.triage_at)

module _ (resolve : Text → Option Text) (default : List Text) (fresh : Text → Text → Text) where
  -- The peer rows for the seats whose pane is found; `fresh` gives the id for a target and a seat.
  unfoldable pub enqueue_triage_peers : TargetRow → ℕ → List Text → List PeerRow
  enqueue_triage_peers row now [] = []
  enqueue_triage_peers row now (seat ∷ seats) =
      let rest = enqueue_triage_peers row now seats in
      elim (resolve seat) [
        | none ↦ rest
        | some pane ↦ triage_peer row (fresh row.id seat) pane seat now ∷ rest
      ]

  -- The row afterwards, the new peer rows, and whether a toast was shown.
  unfoldable pub fired_row : Bool → Bool → TargetRow → ℕ → TargetRow × List PeerRow × Bool
  fired_row force_toast force_triage row now =
      let toast = force_toast || not (is_some row.reminded_at) in
      let peers =
        if force_triage || not (is_some row.triage_at)
        then enqueue_triage_peers row now (triage_seats default row)
        else [] in
      (
        record row {
          reminded_at = if toast then some now else row.reminded_at;
          triage_at = elim peers [ [] ↦ row.triage_at | p ∷ ps ↦ some now ];
          updated_at = now;
        },
        peers,
        toast,
      )

  unfoldable pub fire_one_target :
      Bool
      → Bool
      → List TargetRow × List PeerRow
      → TargetRow
      → ℕ
      → (List TargetRow × List PeerRow) × Bool
  unfolding fired_row
  fire_one_target force_toast force_triage (rows, peers) row now =
      let (row', new, toast) = fired_row force_toast force_triage row now in
      ((upsert_target rows row', peers ++ new), toast)

  -- The loop over the rows that were read, within the budget.
  unfoldable pub fire_within :
      (Text → Option ℕ)
      → ℕ
      → List TargetRow
      → ℕ
      → List TargetRow × List PeerRow
      → List TargetRow × List PeerRow
  unfolding fire_one_target is_target_due
  fire_within parse budget [] now state = state
  fire_within parse zero (row ∷ rows) now state = state
  fire_within parse (suc budget) (row ∷ rows) now state =
      let on = fire_within parse budget rows now (fire_one_target false false state row now).0 in
      let pass = fire_within parse (suc budget) rows now state in
      if is_target_due parse now row then on else pass

  unfoldable pub fire_due_targets :
      (Text → Option ℕ) → ℕ → List TargetRow × List PeerRow → List TargetRow × List PeerRow
  unfolding fire_within
  fire_due_targets parse now (rows, peers) =
      fire_within parse target_fire_budget rows now (rows, peers)
