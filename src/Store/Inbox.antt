-- ===== src/Store/Inbox.antt =====
-- The inbox operations of packages/daemon/src/store/jsonl-store.ts.
pub mod Resolve
use seat_mesh.Prelude.{
  ℕ, ◌-◌, Bool, true, false, not, ◌&&◌, ◌||◌, Option, none, some, List, [], ◌∷◌, ◌++◌,
  if◌then◌else◌, or_else, find?, reverse, ltb,
}
use seat_mesh.Prelude.Text.{Text, text_eq, trim, starts_with}
use seat_mesh.Store.Rows.{ToMasterRow}

unfoldable pub append_inbox : List ToMasterRow → ToMasterRow → List ToMasterRow
append_inbox rows row = rows ++ row ∷ []

-- `opts.all === true || (opts.id != null && (…))`
abbrev pub resolve_hits : Option Text → Bool → ToMasterRow → Bool
resolve_hits id whole r =
    whole || elim id [ none ↦ false | some t ↦ text_eq r.id t || starts_with t r.id ]

-- The rows afterwards and the ids that were resolved; their number is `resolved`.
unfoldable pub resolve_inbox : List ToMasterRow → Option Text → Bool → List ToMasterRow × List Text
resolve_inbox [] id whole = ([], [])
resolve_inbox (r ∷ rows) id whole =
    let (rest, ids) = resolve_inbox rows id whole in
    if not r.resolved && resolve_hits id whole r
    then (record r { resolved = true; read = true } ∷ rest, r.id ∷ ids)
    else (r ∷ rest, ids)

abbrev slot_fits : Option Text → ToMasterRow → Bool
slot_fits none r = true
slot_fits (some slot) r = text_eq (or_else r.slot []) slot

abbrev pub is_dup_inbox : Text → Option Text → ℕ → ToMasterRow → Bool
is_dup_inbox msg slot now r =
    not r.resolved
    && text_eq (trim r.msg) (trim msg)
    && slot_fits slot r
    && not (ltb 120000 (now - r.at))

unfoldable pub find_dup_inbox : List ToMasterRow → Text → Option Text → ℕ → Option ToMasterRow
unfolding text_eq trim
find_dup_inbox rows msg slot now = find? (is_dup_inbox msg slot now) (reverse rows)
