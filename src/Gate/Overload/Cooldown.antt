-- ===== src/Gate/Overload/Cooldown.antt =====
-- A sequence of evaluations of one pane's pressure.
use seat_mesh.Prelude.{ℕ, ◌+◌, ◌≤◌, ◌<◌, ◌≡◌, true, false, List, [], ◌∷◌, All, arith, or_else}
use seat_mesh.Prelude.Text.{Text}
use seat_mesh.Prelude.Dict.{Dict, lookup, lookup-put_self}
use seat_mesh.Gate.Overload.{
  InboxOverloadEval, evaluate_inbox_overload, overload_cooldown_remaining_ms,
}

-- The evaluations at the counts and instants given.
abbrev pub overload_run : Dict ℕ → Text → List (ℕ × ℕ) → List InboxOverloadEval
overload_run cooldowns pane [] = []
overload_run cooldowns pane ((count, now) ∷ rest) =
    let (cooldowns', result) = evaluate_inbox_overload cooldowns pane count now in
    result ∷ overload_run cooldowns' pane rest

-- An evaluation inside the cooldown changes nothing.
within_cooldown :
    (cooldowns : Dict ℕ) (pane : Text) (count now : ℕ)
    → now < or_else (lookup pane cooldowns) 0
    → let (cooldowns', result) = evaluate_inbox_overload cooldowns pane count now in
      (cooldowns' ≡ cooldowns) × (result.hold ≡ true) × (result.warn ≡ false)
unfolding evaluate_inbox_overload overload_cooldown_remaining_ms
within_cooldown cooldowns pane count now h = ground arith

run_holds :
    (cooldowns : Dict ℕ) (pane : Text) (until : ℕ) (ticks : List (ℕ × ℕ))
    → or_else (lookup pane cooldowns) 0 ≡ until
    → All (λ t. t.1 < until) ticks
    → All (λ r. (r.hold ≡ true) × (r.warn ≡ false)) (overload_run cooldowns pane ticks)
run_holds cooldowns pane until [] e h = tt
run_holds cooldowns pane until ((count, now) ∷ ticks) e (before, h) =
    let (same, held, quiet) = within_cooldown cooldowns pane count now (omega (arith, e)) in
    ((held, quiet), rw same (run_holds cooldowns pane until ticks e h))

warned :
    (cooldowns : Dict ℕ) (pane : Text) (count now : ℕ)
    → (evaluate_inbox_overload cooldowns pane count now).1.warn ≡ true
    → (or_else (lookup pane cooldowns) 0 ≤ now)
      × (25 ≤ count)
      × ((evaluate_inbox_overload cooldowns pane count now).1.hold ≡ true)
      × (or_else (lookup pane (evaluate_inbox_overload cooldowns pane count now).0) 0
          ≡ now + 600000)
unfolding evaluate_inbox_overload overload_cooldown_remaining_ms
warned cooldowns pane count now h = ground (arith, lookup-put_self pane (now + 600000) cooldowns)

-- An evaluation that warns found no cooldown running and at least 25 pending, and it holds; every
-- evaluation of the pane before ten minutes have passed then holds too, without a warning,
-- whatever the counts.
pub overload_warns_once :
    (cooldowns : Dict ℕ) (pane : Text) (count now : ℕ) (ticks : List (ℕ × ℕ))
    → (evaluate_inbox_overload cooldowns pane count now).1.warn ≡ true
    → All (λ t. t.1 < now + 600000) ticks
    → (or_else (lookup pane cooldowns) 0 ≤ now)
      × (25 ≤ count)
      × ((evaluate_inbox_overload cooldowns pane count now).1.hold ≡ true)
      × All
          (λ r. (r.hold ≡ true) × (r.warn ≡ false))
          (overload_run (evaluate_inbox_overload cooldowns pane count now).0 pane ticks)
overload_warns_once cooldowns pane count now ticks h before =
    let (idle, many, held, until) = warned cooldowns pane count now h in
    (
      idle,
      many,
      held,
      run_holds (evaluate_inbox_overload cooldowns pane count now).0 pane (now + 600000) ticks until
          before,
    )
