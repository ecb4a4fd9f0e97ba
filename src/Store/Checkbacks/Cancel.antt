-- ===== src/Store/Checkbacks/Cancel.antt =====
-- What cancelling leaves of the checkback file.
use seat_mesh.Prelude.{
  ℕ, ◌+◌, ◌≡◌, refl, Bool, true, false, ◌&&◌, List, [], ◌∷◌, All, count, filter, map, if◌then◌else◌,
  not, arith, Bool-cases, inl, inr,
}
use seat_mesh.Prelude.Text.{Text}
use seat_mesh.Store.Rows.{CheckbackRow, opt_is}
use seat_mesh.Store.Checkbacks.{
  is_active, cancel_row, cancel_where, cancel_all_checkbacks, cancel_checkbacks_for_pane_expect,
}

abbrev pub armed_for : (CheckbackRow → Bool) → CheckbackRow → Bool
armed_for p r = is_active r && p r

abbrev pub spared : (CheckbackRow → Bool) → List CheckbackRow → List CheckbackRow
spared p rows = filter (λ r. not (armed_for p r)) rows

abbrev pub cancelled_if : (CheckbackRow → Bool) → ℕ → CheckbackRow → CheckbackRow
cancelled_if p now r = if armed_for p r then cancel_row now r else r

cancel_where-count :
    (p : CheckbackRow → Bool) (now : ℕ) (rows : List CheckbackRow)
    → let (rows', n) = cancel_where p now rows in
      (n ≡ count (armed_for p) rows)
      × (n + count is_active rows' ≡ count is_active rows)
      × All (λ r. armed_for p r ≡ false) rows'
      × (cancel_where p now rows' ≡ (rows', 0))
      × (rows' ≡ map (cancelled_if p now) rows)
unfolding cancel_where
cancel_where-count p now [] = (refl, omega arith, tt, refl, refl)
cancel_where-count p now (r ∷ rows) =
    let (a, b, c, d, e) = cancel_where-count p now rows in
    elim (Bool-cases (armed_for p r)) [
      | inl t ↦ rw t (ground (arith, a), ground (arith, b), (refl, c), rw d refl, rw e refl)
      | inr f ↦ rw f (a, ground (arith, b), (f, c), rw (f, d) refl, rw e refl)
    ]

armed_for-every :
    (rows : List CheckbackRow) → count (armed_for (λ _. true)) rows ≡ count is_active rows
armed_for-every [] = refl
armed_for-every (r ∷ rows) = ground (arith, armed_for-every rows)

-- Cancelling all checkbacks leaves none active and counts those that were; done again it finds
-- none and changes nothing.
pub cancel_all_leaves_none :
    (rows : List CheckbackRow) (now : ℕ)
    → let (rows', n) = cancel_all_checkbacks rows now in
      (n ≡ count is_active rows)
      × (count is_active rows' ≡ 0)
      × (cancel_all_checkbacks rows' now ≡ (rows', 0))
unfolding cancel_all_checkbacks
cancel_all_leaves_none rows now =
    let (a, b, c, d, _) = cancel_where-count (λ _. true) now rows in
    let every = armed_for-every rows in (omega (arith, a, every), omega (arith, a, b, every), d)

-- Cancelling the checkbacks of a pane and an expectation replaces each active row for both by that
-- row cancelled, in its place, and leaves every other row as it was; it counts exactly those, leaves
-- no active row for both, and done again finds none and changes nothing.
pub cancel_for_pane_expect_dedupes :
    (rows : List CheckbackRow) (owner_pane expect : Text) (now : ℕ)
    → let (rows', n) = cancel_checkbacks_for_pane_expect rows owner_pane expect now in
      let for_both = armed_for (λ r. opt_is r.owner_pane owner_pane && opt_is r.expect expect) in
      (n ≡ count for_both rows)
      × (n + count is_active rows' ≡ count is_active rows)
      × All (λ r. for_both r ≡ false) rows'
      × (cancel_checkbacks_for_pane_expect rows' owner_pane expect now ≡ (rows', 0))
      × (rows' ≡ map (λ r. if for_both r then cancel_row now r else r) rows)
unfolding cancel_checkbacks_for_pane_expect
cancel_for_pane_expect_dedupes rows owner_pane expect now =
    cancel_where-count (λ r. opt_is r.owner_pane owner_pane && opt_is r.expect expect) now rows
