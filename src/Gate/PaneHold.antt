-- ===== src/Gate/PaneHold.antt =====
-- packages/daemon/src/inject/pane-hold.ts: after a pane refused a paste, it is left alone until an
-- instant. The module's `Map` is the state; `HOLD_MS` is an argument.
use seat_mesh.Prelude.{
  ℕ, ◌+◌, ◌≤◌, ◌≡◌, refl, Bool, true, false, not, ◌||◌, [], ◌∷◌, if◌then◌else◌, or_else, ltb, leb,
  ◌==◌, arith, max, none, ◌⊎◌,
}
use seat_mesh.Prelude.Text.{Text, codes, starts_with, text_eq_refl}
use seat_mesh.Prelude.Dict.{Dict, lookup, put, remove, lookup-remove, lookup-put_self}
use seat_mesh.Regex.{Re, one_of, test_ci}

abbrev pub Holds : Type 0
Holds = Dict ℕ

-- `HOLD_RE`
hold_re : Re
unfolding one_of
hold_re = one_of (
    codes "typing"
    ∷ codes "busy"
    ∷ codes "wait-typing"
    ∷ codes "wait-busy"
    ∷ codes "cotyped"
    ∷ codes "wait-settle"
    ∷ codes "plain_shell"
    ∷ codes "plain_pane"
    ∷ [])

unfoldable pub is_hold_reason : Text → Bool
unfolding hold_re test_ci
is_hold_reason reason = test_ci hold_re reason

unfoldable pub hold_until : Holds → Text → ℕ
hold_until holds pane = or_else (lookup pane holds) 0

unfoldable pub note_pane_delivery_hold : ℕ → Holds → Text → Text → ℕ → Holds
unfolding is_hold_reason hold_until starts_with
note_pane_delivery_hold hold_ms holds pane reason now =
    if not (starts_with (codes "%") pane)
    then holds
    else if not (is_hold_reason reason)
    then holds
    else if ltb (hold_until holds pane) (now + hold_ms)
    then put pane (now + hold_ms) holds
    else holds

-- The test also drops an entry that is over.
unfoldable pub pane_in_delivery_hold : Holds → Text → ℕ → Holds × Bool
unfolding hold_until
pane_in_delivery_hold holds pane now =
    if leb (hold_until holds pane) now
    then (if hold_until holds pane == 0 then holds else remove pane holds, false)
    else (holds, true)

noted_until :
    (hold_ms : ℕ) (holds : Holds) (pane reason : Text) (now : ℕ)
    → starts_with (codes "%") pane ≡ true
    → is_hold_reason reason ≡ true
    → hold_until (note_pane_delivery_hold hold_ms holds pane reason now) pane
      ≡ max (hold_until holds pane) (now + hold_ms)
unfolding note_pane_delivery_hold hold_until
noted_until hold_ms holds pane reason now real held =
    rw (real, held) (ground (arith, lookup-put_self pane (now + hold_ms) holds))

looked_at :
    (holds : Holds) (pane : Text) (now : ℕ)
    → ((pane_in_delivery_hold holds pane now).1 ≡ ltb now (hold_until holds pane))
      × (((pane_in_delivery_hold holds pane now).0 ≡ holds)
          ⊎ ((hold_until holds pane ≤ now)
              × (lookup pane (pane_in_delivery_hold holds pane now).0 ≡ none)))
unfolding pane_in_delivery_hold
looked_at holds pane now = ground (arith, lookup-remove pane pane holds, text_eq_refl pane)

-- After a refusal for one of the listed reasons, a real pane is held at each instant before the
-- hold time has passed, and at each instant up to which it was held already; looking at it at such
-- an instant changes nothing, and the first look at or after both ends drops the entry.
pub hold_lasts :
    (hold_ms : ℕ) (holds : Holds) (pane reason : Text) (now later : ℕ)
    → starts_with (codes "%") pane ≡ true
    → is_hold_reason reason ≡ true
    → let noted = note_pane_delivery_hold hold_ms holds pane reason now in
      ((pane_in_delivery_hold noted pane later).1
        ≡ (ltb later (now + hold_ms) || ltb later (hold_until holds pane)))
      × (((pane_in_delivery_hold noted pane later).0 ≡ noted)
          ⊎ ((now + hold_ms ≤ later)
              × (lookup pane (pane_in_delivery_hold noted pane later).0 ≡ none)))
hold_lasts hold_ms holds pane reason now later real held =
    let noted = note_pane_delivery_hold hold_ms holds pane reason now in
    let until = noted_until hold_ms holds pane reason now real held in
    let (told, kept) = looked_at noted pane later in
    (ground (arith, told, until), ground (arith, kept, until))

pane_hold_tests :
    (is_hold_reason (codes "held:coord:WAIT-busy") ≡ true)
    × (is_hold_reason (codes "no_snapshot") ≡ false)
unfolding is_hold_reason
pane_hold_tests = (refl, refl)
