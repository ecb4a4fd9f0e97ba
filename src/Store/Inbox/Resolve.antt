-- ===== src/Store/Inbox/Resolve.antt =====
-- What resolving leaves of the inbox.
use seat_mesh.Prelude.{
  ◌+◌, ◌≡◌, refl, Bool, not, ◌&&◌, Option, List, [], ◌∷◌, count, length, filter, map, arith,
  Bool-cases, inl, inr,
}
use seat_mesh.Prelude.Text.{Text}
use seat_mesh.Store.Rows.{ToMasterRow}
use seat_mesh.Store.Inbox.{resolve_hits, resolve_inbox}

-- An unresolved row that is meant.
abbrev pub is_meant : Option Text → Bool → ToMasterRow → Bool
is_meant id whole r = not r.resolved && resolve_hits id whole r

abbrev pub ids : List ToMasterRow → List Text
ids = map (λ r. r.id)

-- Resolving by an id or its prefix, or all, names the ids of exactly the unresolved rows that are
-- meant, in the order of the file; it keeps the ids of the file, leaves as many unresolved rows
-- fewer as it names, and done again names none and changes nothing.
pub resolve_inbox_resolves :
    (rows : List ToMasterRow) (id : Option Text) (whole : Bool)
    → let (rows', named) = resolve_inbox rows id whole in
      (named ≡ ids (filter (is_meant id whole) rows))
      × (ids rows' ≡ ids rows)
      × (count (λ r. not r.resolved) rows' + length named ≡ count (λ r. not r.resolved) rows)
      × (resolve_inbox rows' id whole ≡ (rows', []))
unfolding resolve_inbox
resolve_inbox_resolves [] id whole = (refl, refl, omega arith, refl)
resolve_inbox_resolves (r ∷ rows) id whole =
    let (a, b, c, d) = resolve_inbox_resolves rows id whole in
    elim (Bool-cases (is_meant id whole r)) [
      | inl t ↦ rw t (rw a refl, rw b refl, ground (arith, c), rw d refl)
      | inr f ↦ rw f (a, rw b refl, ground (arith, c), rw (f, d) refl)
    ]
