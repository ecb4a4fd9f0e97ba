-- ===== src/Checkback/Fire.antt =====
-- packages/daemon/src/checkback/checkback-fire.ts, and the renewal after a fire of
-- `fireDueCheckbacks` (orchestrator/mesh-orchestrator.ts). Instants are those that `Date.parse`
-- reads from the rows, 0 for a missing one.
pub mod Order
pub mod Renewal
use seat_mesh.Prelude.{
  ℕ, zero, suc, ◌+◌, ◌-◌, ◌*◌, min, max, Bool, true, false, not, ◌&&◌, ◌||◌, Option, none, some,
  List, [], ◌∷◌, if◌then◌else◌, or_else, ltb, leb, ◌==◌, get_elem?, reverse, take,
}
use seat_mesh.Prelude.Text.{Text, codes, text_eq, starts_with, is_truthy}
use seat_mesh.Prelude.Sort.{sort}
use seat_mesh.Store.Rows.{CheckbackRow, CheckbackStatus, active, cancelled}

abbrev pub checkback_max_fires : ℕ
checkback_max_fires = 3

-- `kind.endsWith("-nudge")`
is_nudge : Text → Bool
unfolding starts_with
is_nudge kind = starts_with (reverse (codes "-nudge")) (reverse kind)

unfoldable pub checkback_unbounded_renew : Text → Bool
unfolding is_nudge text_eq
checkback_unbounded_renew kind =
    if not (is_truthy kind)
    then false
    else if text_eq kind (codes "mesh-watch")
        || text_eq kind (codes "secretary-supervise")
        || text_eq kind (codes "balance-lead-tick")
    then true
    else is_nudge kind

-- `maxFires >= 1 ? maxFires : CHECKBACK_MAX_FIRES`
abbrev pub fire_cap : ℕ → ℕ
fire_cap max_fires = if leb 1 max_fires then max_fires else checkback_max_fires

-- `Date.parse(row.createdAt || "") || nowMs`
abbrev created : CheckbackRow → ℕ → ℕ
created row now = if row.created_at == 0 then now else row.created_at

unfoldable pub should_renew_checkback : CheckbackRow → ℕ → ℕ → Bool
should_renew_checkback row now max_fires =
    let renew = or_else row.renew_sec 0 in
    if renew == 0
    then false
    else if checkback_unbounded_renew row.kind
    then true
    else if leb (fire_cap max_fires) (or_else row.fire_count 0)
    then false
    else not (leb (renew * 1000 * fire_cap max_fires) (now - created row now))

unfoldable pub checkback_fire_priority : Text → ℕ
unfolding is_nudge text_eq
checkback_fire_priority kind =
    if text_eq kind (codes "secretary-supervise")
    then 0
    else if text_eq kind (codes "balance-lead-tick")
    then 1
    else if text_eq kind (codes "coord-expect")
    then 2
    else if text_eq kind (codes "cc-limit-retry")
    then 2
    else if text_eq kind (codes "coord-nudge")
    then 3
    else if text_eq kind (codes "mesh-watch")
    then 2
    else if is_nudge kind && not (text_eq kind (codes "manager-nudge"))
    then 3
    else 10

abbrev pub is_active : CheckbackRow → Bool
is_active row = elim row.status [ active ↦ true | cancelled ↦ false ]

abbrev pub expiry : CheckbackRow → ℕ
expiry row = or_else row.expires_at 0

abbrev pub is_due : ℕ → CheckbackRow → Bool
is_due now row = is_active row && not (expiry row == 0) && leb (expiry row) now

-- An index with the row at it, which the comparison looks up.
abbrev pub DueRow : Type 0
DueRow = ℕ × CheckbackRow

unfoldable pub due_rows : ℕ → ℕ → List CheckbackRow → List DueRow
due_rows now i [] = []
due_rows now i (row ∷ rows) =
    let rest = due_rows now (suc i) rows in if is_due now row then (i, row) ∷ rest else rest

-- The comparison says that the first may stand before the second.
unfoldable pub ranks_before : ℕ → ℕ → ℕ → ℕ → Bool
ranks_before pa pb ea eb = if pa == pb then leb ea eb else ltb pa pb

unfoldable pub fires_before : DueRow → DueRow → Bool
fires_before (i, a) (j, b) =
    ranks_before (checkback_fire_priority a.kind) (checkback_fire_priority b.kind) (expiry a)
      (expiry b)

abbrev firsts : List DueRow → List ℕ
firsts [] = []
firsts ((i, row) ∷ rows) = i ∷ firsts rows

abbrev pub due_in_order : List CheckbackRow → ℕ → List DueRow
due_in_order rows now = sort fires_before (due_rows now 0 rows)

abbrev pub checkback_fire_budget : ℕ
checkback_fire_budget = 6

-- The rows that one pass of `fireDueCheckbacks` goes through.
unfoldable pub tried_rows : List CheckbackRow → ℕ → List DueRow
tried_rows rows now = take checkback_fire_budget (due_in_order rows now)

unfoldable pub sort_due_checkback_indices : List CheckbackRow → ℕ → List ℕ
unfolding sort due_rows fires_before ranks_before checkback_fire_priority
sort_due_checkback_indices rows now = firsts (due_in_order rows now)

unfoldable pub defer_checkback_after_failed_fire : CheckbackRow → ℕ → ℕ → CheckbackRow
defer_checkback_after_failed_fire row fired_at now =
    let renew = if ltb 0 (or_else row.renew_sec 0) then or_else row.renew_sec 0 else 180 in
    record row { expires_at = some (fired_at + min (max renew 30) 90 * 1000); updated_at = now }

-- The end of the loop's body, for a row that was delivered and is still active.
unfoldable pub renew_after_fire : CheckbackRow → ℕ → ℕ → ℕ → CheckbackRow
renew_after_fire row fired_at max_fires now =
    let counted = record row { fire_count = some (or_else row.fire_count 0 + 1) } in
    if should_renew_checkback counted fired_at max_fires
    then record counted {
      expires_at = some (fired_at + or_else row.renew_sec 0 * 1000);
      updated_at = now;
    }
    else record row { status = cancelled; updated_at = now }
