-- ===== src/Store/Checkbacks.antt =====
-- The checkback operations of packages/daemon/src/store/jsonl-store.ts. The file is a list of rows;
-- `now` is the instant of the call, and `expires_at` what `Date.parse` reads, `none` for NaN.
pub mod Cancel
use seat_mesh.Prelude.{
  ℕ, zero, suc, Bool, true, false, not, ◌&&◌, ◌||◌, Option, none, some, List, [], ◌∷◌,
  if◌then◌else◌, find?, length, drop, leb,
}
use seat_mesh.Prelude.Text.{Text, codes, text_eq, trim, to_lower, starts_with, includes, is_truthy}
use seat_mesh.Prelude.Keyed.{upsert}
use seat_mesh.Store.Rows.{CheckbackRow, CheckbackStatus, active, cancelled, opt_is}

abbrev pub checkback_id : CheckbackRow → Text
checkback_id r = r.id

abbrev pub is_active : CheckbackRow → Bool
is_active row = elim row.status [ active ↦ true | cancelled ↦ false ]

abbrev pub cancel_row : ℕ → CheckbackRow → CheckbackRow
cancel_row now r = record r { status = cancelled; updated_at = now }

unfoldable pub upsert_checkback : List CheckbackRow → CheckbackRow → List CheckbackRow
unfolding upsert text_eq
upsert_checkback rows row = upsert checkback_id row rows

-- The id itself or a prefix of it in any case.
unfoldable pub find_checkback : List CheckbackRow → Text → Option CheckbackRow
unfolding trim to_lower starts_with text_eq
find_checkback rows id =
    let needle = to_lower (trim id) in
    if is_truthy needle
    then find? (λ r. text_eq r.id id || starts_with needle (to_lower r.id)) rows
    else none

unfoldable pub reset_checkback :
    List CheckbackRow → Text → Option ℕ → ℕ → List CheckbackRow × Option CheckbackRow
unfolding upsert_checkback find_checkback
reset_checkback rows id none now = (rows, none)
reset_checkback rows id (some expires_at) now = elim (find_checkback rows id) [
  | none ↦ (rows, none)
  | some row ↦
      let row' : CheckbackRow = record row {
        status = active;
        expires_at = some expires_at;
        updated_at = now;
      } in
      (upsert_checkback rows row', some row')
]

pub data CheckbackAck : Type 0 where
  matched : Text → CheckbackAck
  ignored : Text → CheckbackAck
  unknown : CheckbackAck
  not_active : CheckbackStatus → CheckbackAck

ack_row : List CheckbackRow → CheckbackRow → Bool → ℕ → List CheckbackRow × CheckbackAck
unfolding upsert_checkback
ack_row rows row confirmed now =
    if not (is_active row)
    then (rows, not_active row.status)
    else if confirmed
    then (upsert_checkback rows (cancel_row now row), matched row.id)
    else (rows, ignored row.id)

unfoldable pub ack_checkback :
    List CheckbackRow → Text → Bool → ℕ → List CheckbackRow × CheckbackAck
unfolding find_checkback ack_row
ack_checkback rows id confirmed now = elim (find_checkback rows id) [
  | none ↦ (rows, unknown)
  | some row ↦ ack_row rows row confirmed now
]

-- Every active row that passes is cancelled; the rows afterwards and how many they were.
unfoldable pub cancel_where : (CheckbackRow → Bool) → ℕ → List CheckbackRow → List CheckbackRow × ℕ
cancel_where p now [] = ([], 0)
cancel_where p now (r ∷ rows) =
    let (rest, n) = cancel_where p now rows in
    if is_active r && p r then (cancel_row now r ∷ rest, suc n) else (r ∷ rest, n)

-- `.replace(/^cb-/i, "")`
unfoldable pub bare_id : Text → Text
unfolding starts_with to_lower
bare_id id = if starts_with (codes "cb-") (to_lower id) then drop 3 id else id

unfoldable pub names_row : Text → CheckbackRow → Bool
unfolding bare_id text_eq starts_with includes
names_row needle r =
    text_eq r.id needle
    || starts_with needle r.id
    || (leb 6 (length (bare_id needle))
        && (starts_with (bare_id needle) (bare_id r.id) || includes (bare_id needle) r.id))

-- `hit` is whether a row was cancelled.
unfoldable pub cancel_checkback : List CheckbackRow → Text → ℕ → List CheckbackRow × Bool
unfolding trim cancel_where names_row
cancel_checkback rows id now =
    let needle = trim id in
    let (rows', n) = cancel_where (names_row needle) now rows in
    if is_truthy needle then (rows', leb 1 n) else (rows, false)

unfoldable pub cancel_all_checkbacks : List CheckbackRow → ℕ → List CheckbackRow × ℕ
cancel_all_checkbacks rows now = cancel_where (λ _. true) now rows

unfoldable pub cancel_checkbacks_for_pane_expect :
    List CheckbackRow → Text → Text → ℕ → List CheckbackRow × ℕ
cancel_checkbacks_for_pane_expect rows owner_pane expect now =
    cancel_where (λ r. opt_is r.owner_pane owner_pane && opt_is r.expect expect) now rows
