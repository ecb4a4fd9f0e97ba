-- ===== src/Target/Fire/OneShot.antt =====
-- A target that was toasted and triaged is not fired again.
use mathlib.Core.List.{append-nil}
use seat_mesh.Prelude.{
  ℕ, ◌≡◌, refl, ◌∙◌, Bool, true, false, not, ◌&&◌, Option, some, List, [], ◌∷◌, ◌++◌, arith,
  is_some, find?,
}
use seat_mesh.Prelude.Text.{Text, text_eq_refl}
use seat_mesh.Prelude.Keyed.{same_key, find?-upsert}
use seat_mesh.Store.Rows.{PeerRow}
use seat_mesh.Target.{TargetRow, target_id, upsert_target, is_target_active}
use seat_mesh.Target.Fire.{
  triage_seats, enqueue_triage_peers, fired_row, fire_one_target, is_target_due, is_past,
}

and_false : (a b : Bool) → (a && b && false) ≡ false
and_false a b = ground arith

marked_is_not_due :
    (parse : Text → Option ℕ) (row : TargetRow) (now : ℕ)
    → is_some row.reminded_at ≡ true
    → is_some row.triage_at ≡ true
    → is_target_due parse now row ≡ false
unfolding is_target_due
marked_is_not_due parse row now r t =
    rw (r, t) (and_false (is_target_active row) (is_past (parse row.deadline_at) now))

module _ (resolve : Text → Option Text) (default : List Text) (fresh : Text → Text → Text) where
  -- The row that a firing without force leaves.
  abbrev pub after_firing : TargetRow → ℕ → TargetRow
  after_firing row now = (fired_row resolve default fresh false false row now).0

  fired_is_stored :
      (rows : List TargetRow) (peers : List PeerRow) (row : TargetRow) (now : ℕ)
      → find?
          (same_key target_id row.id)
          (fire_one_target resolve default fresh false false (rows, peers) row now).0.0
        ≡ some (after_firing row now)
  unfolding fire_one_target upsert_target fired_row
  fired_is_stored rows peers row now =
      find?-upsert target_id (after_firing row now) row.id rows ∙ rw (text_eq_refl row.id) refl

  fired_is_marked :
      (row : TargetRow) (now : ℕ) (p : PeerRow) (ps : List PeerRow)
      → enqueue_triage_peers resolve default fresh row now (triage_seats default row) ≡ p ∷ ps
      → (is_some (after_firing row now).reminded_at ≡ true)
        × (is_some (after_firing row now).triage_at ≡ true)
  unfolding fired_row
  fired_is_marked row now p ps e = (ground arith, ground arith)

  fire_one-quiet :
      (rows : List TargetRow) (peers : List PeerRow) (row : TargetRow) (now : ℕ)
      → is_some row.reminded_at ≡ true
      → is_some row.triage_at ≡ true
      → let ((rows', peers'), toast) =
          fire_one_target resolve default fresh false false (rows, peers) row now in
        (peers' ≡ peers ++ []) × (toast ≡ false)
  unfolding fire_one_target fired_row
  fire_one-quiet rows peers row now r t = (ground arith, ground arith)

  toast_of_firing :
      (rows : List TargetRow) (peers : List PeerRow) (row : TargetRow) (now : ℕ)
      → (fire_one_target resolve default fresh false false (rows, peers) row now).1
        ≡ not (is_some row.reminded_at)
  unfolding fire_one_target fired_row
  toast_of_firing rows peers row now = refl

  -- Firing a target, without force, stores it with its marks under its id and shows a toast if and
  -- only if it had none before. Where a pane was found for one of its seats, it is not due again
  -- at any later tick, and firing the stored row again shows no toast and adds no peer row.
  pub target_fires_once :
      (parse : Text → Option ℕ) (rows : List TargetRow) (peers : List PeerRow) (row : TargetRow)
      (now later : ℕ) (p : PeerRow) (ps : List PeerRow)
      → enqueue_triage_peers resolve default fresh row now (triage_seats default row) ≡ p ∷ ps
      → let ((rows', peers'), toast) =
          fire_one_target resolve default fresh false false (rows, peers) row now in
        let row' = after_firing row now in
        let ((_, peers''), toast') =
          fire_one_target resolve default fresh false false (rows', peers') row' later in
        (find? (same_key target_id row.id) rows' ≡ some row')
        × (toast ≡ not (is_some row.reminded_at))
        × (is_target_due parse later row' ≡ false)
        × (peers'' ≡ peers')
        × (toast' ≡ false)
  target_fires_once parse rows peers row now later p ps e =
      let (r, t) = fired_is_marked row now p ps e in
      let (state, _) = fire_one_target resolve default fresh false false (rows, peers) row now in
      let (quiet, no_toast) = fire_one-quiet state.0 state.1 (after_firing row now) later r t in
      (
        fired_is_stored rows peers row now,
        toast_of_firing rows peers row now,
        marked_is_not_due parse (after_firing row now) later r t,
        quiet ∙ append-nil state.1,
        no_toast,
      )
