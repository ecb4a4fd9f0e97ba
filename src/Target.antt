-- ===== src/Target.antt =====
-- packages/daemon/src/store/target-jsonl.ts: the operator's targets and their file. `Date.parse` is
-- read off a deadline where it is needed; `now` is the instant of a call.
pub mod Fire
use seat_mesh.Prelude.{
  ℕ, suc, Bool, true, false, not, ◌&&◌, ◌||◌, Option, none, some, List, [], ◌∷◌, if◌then◌else◌,
  find?,
}
use seat_mesh.Prelude.Text.{Text, text_eq, trim, to_lower, starts_with, is_truthy}
use seat_mesh.Prelude.Keyed.{upsert}

pub data TargetStatus : Type 0 where
  active done cancelled : TargetStatus

pub data TargetKind : Type 0 where
  scope slice : TargetKind

pub record TargetRow : Type 0 where
  pub id : Text
  pub status : TargetStatus
  pub goal : Text
  pub deadline_at : Text
  pub created_at : ℕ
  pub updated_at : ℕ
  pub kind : Option TargetKind
  pub parent_id : Option Text
  pub reminded_at : Option ℕ
  pub triage_at : Option ℕ
  pub triage_to : Option (List Text)
  pub by_operator : Bool

abbrev pub target_id : TargetRow → Text
target_id r = r.id

abbrev pub is_target_active : TargetRow → Bool
is_target_active r = elim r.status [ active ↦ true | _ ↦ false ]

unfoldable pub upsert_target : List TargetRow → TargetRow → List TargetRow
upsert_target rows row = upsert target_id row rows

unfoldable pub find_target : List TargetRow → Text → Option TargetRow
find_target rows id =
    let needle = to_lower (trim id) in
    if is_truthy needle
    then find? (λ r. text_eq r.id id || starts_with needle (to_lower r.id)) rows
    else none

-- The rows afterwards, and the row that was found.
unfoldable pub mark_target_status :
    List TargetRow → Text → TargetStatus → ℕ → List TargetRow × Option TargetRow
mark_target_status rows id status now = elim (find_target rows id) [
  | none ↦ (rows, none)
  | some row ↦
      let row' : TargetRow = record row { status = status; updated_at = now } in
      if is_target_active row then (upsert_target rows row', some row') else (rows, some row)
]

-- The loop over the rows: the rows afterwards, and how many were cancelled.
unfoldable pub cancel_goal : Text → ℕ → List TargetRow → List TargetRow × ℕ
cancel_goal want now [] = ([], 0)
cancel_goal want now (r ∷ rows) =
    let (rest, n) = cancel_goal want now rows in
    if is_target_active r && text_eq (to_lower (trim r.goal)) want
    then (record r { status = cancelled; updated_at = now } ∷ rest, suc n)
    else (r ∷ rest, n)

unfoldable pub cancel_active_targets_with_goal : List TargetRow → Text → ℕ → List TargetRow × ℕ
cancel_active_targets_with_goal rows goal now =
    let want = to_lower (trim goal) in
    if is_truthy want then cancel_goal want now rows else (rows, 0)
