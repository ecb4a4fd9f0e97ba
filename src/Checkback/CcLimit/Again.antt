-- ===== src/Checkback/CcLimit/Again.antt =====
-- Arming the retry of a pane twice.
use seat_mesh.Prelude.{
  ℕ, ◌≡◌, refl, ◌∙◌, true, not, Option, some, List, [], ◌∷◌, ◌++◌, filter, find?, arith, Bool-cases,
  inl, inr, ap,
}
use seat_mesh.Prelude.Text.{Text, codes, text_eq, text_eq_refl, includes, starts_with}
use seat_mesh.Prelude.Keyed.{upsert}
use seat_mesh.Store.Rows.{CheckbackRow}
use seat_mesh.Store.Checkbacks.{upsert_checkback, is_active}
use seat_mesh.Checkback.CcLimit.{
  cc_limit_retry_id, active_row, is_armed, limit_row, arm_cc_limit_retry_checkback,
}

starts_with_refl : (s : Text) → starts_with s s ≡ true
unfolding starts_with
starts_with_refl [] = refl
starts_with_refl (c ∷ s) = ground (arith, starts_with_refl s)

includes_self : (s : Text) → includes s s ≡ true
unfolding includes
includes_self [] = starts_with_refl []
includes_self (c ∷ s) = ground (arith, starts_with_refl (c ∷ s))

includes-append : (p s : Text) → includes s (p ++ s) ≡ true
unfolding includes
includes-append [] s = includes_self s
includes-append (c ∷ p) s = ground (arith, includes-append p s)

active_row-last :
    (row : CheckbackRow) (rows : List CheckbackRow)
    → is_active row ≡ true
    → find? (active_row row.id) (filter (λ r. not (text_eq r.id row.id)) rows ++ row ∷ [])
      ≡ some row
unfolding active_row
active_row-last row [] a = ground (arith, a, text_eq_refl row.id)
active_row-last row (x ∷ xs) a = elim (Bool-cases (text_eq x.id row.id)) [
  | inl same ↦ rw same (active_row-last row xs a)
  | inr other ↦ rw (other, other) (active_row-last row xs a)
]

limit_row-is_armed :
    (pane_id fingerprint : Text) (at now : ℕ) (existing : Option CheckbackRow)
    → is_armed fingerprint at (some (limit_row pane_id fingerprint at now existing)) ≡ true
unfolding is_armed limit_row
limit_row-is_armed pane_id fingerprint at now existing =
    ground (arith, includes-append (codes "F-cc-limit-retry ") fingerprint)

arm-is_armed :
    (rows : List CheckbackRow) (pane_id fingerprint : Text) (at now : ℕ)
    → is_armed fingerprint at (
        find?
          (active_row (cc_limit_retry_id pane_id))
          (arm_cc_limit_retry_checkback rows pane_id fingerprint at now))
      ≡ true
unfolding arm_cc_limit_retry_checkback upsert_checkback upsert limit_row
arm-is_armed rows pane_id fingerprint at now =
    let existing = find? (active_row (cc_limit_retry_id pane_id)) rows in
    elim (Bool-cases (is_armed fingerprint at existing)) [
      | inl armed ↦ rw armed armed
      | inr fresh ↦ rw fresh (
          ap (is_armed fingerprint at)
            (active_row-last (limit_row pane_id fingerprint at now existing) rows refl)
          ∙ limit_row-is_armed pane_id fingerprint at now existing)
    ]

-- Once the retry of a pane is armed, its id has an active row for that time which names the
-- fingerprint, and arming it again for the same fingerprint and time, whenever, leaves the file as
-- it is.
pub arm_again_keeps :
    (rows : List CheckbackRow) (pane_id fingerprint : Text) (at now later : ℕ)
    → let rows' = arm_cc_limit_retry_checkback rows pane_id fingerprint at now in
      (is_armed fingerprint at (find? (active_row (cc_limit_retry_id pane_id)) rows') ≡ true)
      × (arm_cc_limit_retry_checkback rows' pane_id fingerprint at later ≡ rows')
unfolding arm_cc_limit_retry_checkback
arm_again_keeps rows pane_id fingerprint at now later =
    let armed = arm-is_armed rows pane_id fingerprint at now in
    (armed, rw (armed, arm_cc_limit_retry_checkback) refl)
