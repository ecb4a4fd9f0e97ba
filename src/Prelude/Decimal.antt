-- ===== src/Prelude/Decimal.antt =====
-- `String(n)` and `Number(s)` of natural numbers.
use Prim.Native.Nat.{ℕ, zero, suc, ◌+◌, ◌-◌, ◌*◌, ◌/◌, ◌%◌}
use mathlib.Core.Path.{◌≡◌, refl}
use mathlib.Core.List.{[], ◌∷◌}
use seat_mesh.Prelude.Tests.{if◌then◌else◌, ltb}
use seat_mesh.Prelude.Text.{Text, codes}

-- The fuel `n` is enough, as each round leaves less than before.
decimal_onto : ℕ → ℕ → Text → Text
decimal_onto zero n acc = acc
decimal_onto (suc fuel) n acc =
    let rest = decimal_onto fuel (n / 10) ((n % 10 + 48) ∷ acc) in
    if ltb n 10 then (n + 48) ∷ acc else rest

unfoldable pub decimal : ℕ → Text
unfolding decimal_onto
decimal n = decimal_onto (suc n) n []

unfoldable pub number_onto : ℕ → Text → ℕ
number_onto acc [] = acc
number_onto acc (c ∷ s) = number_onto (acc * 10 + (c - 48)) s

-- `Number.parseInt(s, 10)` of a text of digits
unfoldable pub number_of : Text → ℕ
unfolding number_onto
number_of s = number_onto 0 s

decimal_tests :
    (decimal 0 ≡ codes "0")
    × (decimal 12 ≡ codes "12")
    × (decimal 31670 ≡ codes "31670")
    × (number_of (codes "408") ≡ 408)
unfolding decimal number_of
decimal_tests = (refl, refl, refl, refl)
