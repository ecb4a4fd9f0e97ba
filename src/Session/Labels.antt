-- ===== src/Session/Labels.antt =====
-- packages/tmux/src/session/labels.ts: the slots that worker panes get. The panes of a window stand
-- in its order, with the user options that tmux keeps for them; `slot` is the number that the
-- option mesh_slot reads as, and stamping a pane sets its options. portsForSlot is from
-- packages/core/src/paths/paths.ts.
pub mod Free
pub mod Slots
use seat_mesh.Prelude.{
  ℕ, zero, suc, Bool, true, false, not, ◌&&◌, ◌||◌, Option, none, some, List, [], ◌∷◌, ◌++◌,
  if◌then◌else◌, leb, ◌==◌, any,
}
use seat_mesh.Prelude.Text.{Text, codes, text_eq, is_truthy, starts_with}
use seat_mesh.Prelude.Decimal.{decimal}

pub record Pane : Type 0 where
  pub pane_id : Text
  pub role : Text
  pub slot : Option ℕ
  pub ports : Text
  pub name : Text
  pub title : Text
  pub mini : Text

abbrev pub has : List ℕ → ℕ → Bool
has xs n = any (λ x. x == n) xs

-- The loop from `s`, of `n` rounds.
unfoldable pub free_from : List ℕ → ℕ → ℕ → Option ℕ
free_from used s zero = none
free_from used s (suc n) =
    let rest = free_from used (suc s) n in if has used s then rest else some s

unfoldable pub next_free_slot : List ℕ → ℕ → Option ℕ
unfolding free_from
next_free_slot used max = free_from used 1 max

abbrev pub in_slots : ℕ → ℕ → Bool
in_slots max n = leb 1 n && leb n max

-- The slot of a worker pane, where it is one of the session's.
unfoldable pub worker_slot : ℕ → Pane → Option ℕ
worker_slot max p = elim p.slot [
  | none ↦ none
  | some n ↦ if text_eq p.role (codes "worker") && in_slots max n then some n else none
]

unfoldable pub worker_slots : ℕ → List Pane → List ℕ
worker_slots max [] = []
worker_slots max (p ∷ ps) = elim (worker_slot max p) [
  | none ↦ worker_slots max ps
  | some n ↦ n ∷ worker_slots max ps
]

-- `formula.replace(/\{n\}/g, digits)`; `skip` units belong to the match before.
fill_from : ℕ → Text → Text → Text
unfolding starts_with
fill_from skip digits [] = []
fill_from (suc skip) digits (c ∷ s) = fill_from skip digits s
fill_from zero digits (c ∷ s) =
    let after = fill_from 2 digits s in
    let on = fill_from zero digits s in
    if starts_with (codes "{n}") (c ∷ s) then digits ++ after else c ∷ on

unfoldable pub ports_for_slot : Text → ℕ → Text
unfolding fill_from decimal
ports_for_slot formula slot = fill_from zero (decimal slot) formula

module _ (formula : Text) where
  unfoldable pub stamp_worker_slot : Pane → ℕ → Pane
  unfolding decimal ports_for_slot
  stamp_worker_slot p n = record p {
    role = codes "worker";
    slot = some n;
    ports = ports_for_slot formula n;
    name = codes "slot-" ++ decimal n;
    title = codes "slot-" ++ decimal n;
    mini = [];
  }

  -- The first loop: the workers that have a slot are stamped anew with it.
  unfoldable pub restamp_workers : ℕ → List Pane → List Pane
  unfolding stamp_worker_slot worker_slot
  restamp_workers max [] = []
  restamp_workers max (p ∷ ps) = elim (worker_slot max p) [
    | none ↦ p ∷ restamp_workers max ps
    | some n ↦ stamp_worker_slot p n ∷ restamp_workers max ps
  ]

  -- The second loop, over the next `n` panes: one without a role gets the next free slot.
  unfoldable pub label_new : ℕ → ℕ → List ℕ → List Pane → List Pane
  unfolding stamp_worker_slot next_free_slot
  label_new max zero used ps = ps
  label_new max (suc n) used [] = []
  label_new max (suc n) used (p ∷ ps) =
      let kept = label_new max n used ps in
      if is_truthy p.role then p ∷ kept else elim (next_free_slot used max) [
        | none ↦ p ∷ ps
        | some s ↦ stamp_worker_slot p s ∷ label_new max n (s ∷ used) ps
      ]

  unfoldable pub assign_worker_identities : ℕ → List Pane → List Pane
  unfolding restamp_workers label_new worker_slots
  assign_worker_identities max ps = label_new max max (worker_slots max ps) (restamp_workers max ps)
