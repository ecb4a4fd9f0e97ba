-- ===== src/Prelude/Text.antt =====
-- Texts as lists of UTF-16 code units, with the string functions of the JavaScript library that
-- the source calls. `to_lower` maps the ASCII letters and leaves other units as they are.
use Prim.Native.Char.{code}
use Prim.Native.String.{String}
use Prim.Native.Nat.{ℕ, ◌+◌, ◌-◌}
use mathlib.Core.Path.{◌≡◌, refl}
use mathlib.Core.Logic.{◌↔◌}
use mathlib.Core.Bool.{Bool, true, false, ◌&&◌, ◌||◌}
use mathlib.Core.List.{List, [], ◌∷◌, ◌++◌, map, reverse}
use native.Mathlib.Omega.{arith}
use seat_mesh.Prelude.Tests.{◌==◌, leb, if◌then◌else◌}

abbrev pub Text : Type 0
Text = List ℕ

abbrev pub codes : String → Text
codes String.[] = []
codes (String.◌∷◌ c s) = code c ∷ codes s

-- `a === b` on strings
unfoldable pub text_eq : Text → Text → Bool
text_eq [] [] = true
text_eq [] (b ∷ t) = false
text_eq (a ∷ s) [] = false
text_eq (a ∷ s) (b ∷ t) = a == b && text_eq s t

pub text_eq_refl : (s : Text) → text_eq s s ≡ true
unfolding text_eq
text_eq_refl [] = refl
text_eq_refl (a ∷ s) = ground (arith, text_eq_refl s)

text_eq→eq : (s t : Text) → text_eq s t ≡ true → s ≡ t
unfolding text_eq
text_eq→eq [] [] h = refl
text_eq→eq [] (b ∷ t) h = cc
text_eq→eq (a ∷ s) [] h = cc
text_eq→eq (a ∷ s) (b ∷ t) h = ground (arith, text_eq→eq s t)

pub text_eq_iff : (s t : Text) → (text_eq s t ≡ true) ↔ (s ≡ t)
text_eq_iff s t = (text_eq→eq s t, λ e. rw e (text_eq_refl t))

pub text_eq_comm : (s t : Text) → text_eq s t ≡ text_eq t s
text_eq_comm s t = ground (arith, text_eq_iff s t, text_eq_iff t s)

-- `Boolean(s)`: the empty string is falsy.
abbrev pub is_truthy : Text → Bool
is_truthy [] = false
is_truthy (c ∷ s) = true

-- WhiteSpace and LineTerminator, which `trim` and `\s` share.
unfoldable pub is_space : ℕ → Bool
is_space c =
    (leb 9 c && leb c 13)
    || c == 32
    || c == 160
    || c == 0x1680
    || (leb 0x2000 c && leb c 0x200a)
    || c == 0x2028
    || c == 0x2029
    || c == 0x202f
    || c == 0x205f
    || c == 0x3000
    || c == 0xfeff

unfoldable pub trim_start : Text → Text
unfolding is_space
trim_start [] = []
trim_start (c ∷ s) = if is_space c then trim_start s else c ∷ s

unfoldable pub trim : Text → Text
unfolding trim_start
trim s = reverse (trim_start (reverse (trim_start s)))

unfoldable pub lower_unit : ℕ → ℕ
lower_unit c = if leb b'A' c && leb c b'Z' then c + 32 else c

-- `s.toLowerCase()`
unfoldable pub to_lower : Text → Text
unfolding lower_unit
to_lower s = map lower_unit s

unfoldable pub upper_unit : ℕ → ℕ
upper_unit c = if leb b'a' c && leb c b'z' then c - 32 else c

-- `s.toUpperCase()`, of the ASCII letters as well
unfoldable pub to_upper : Text → Text
unfolding upper_unit
to_upper s = map upper_unit s

-- `s.startsWith(p)`, argument order of the library: the prefix first
unfoldable pub starts_with : Text → Text → Bool
starts_with [] s = true
starts_with (c ∷ p) [] = false
starts_with (c ∷ p) (d ∷ s) = c == d && starts_with p s

-- `s.includes(p)`
unfoldable pub includes : Text → Text → Bool
unfolding starts_with
includes p [] = starts_with p []
includes p (c ∷ s) = starts_with p (c ∷ s) || includes p s

-- `s.replace(/\s+/g, " ")`; the flag says that the unit before was white space
squeeze : Bool → Text → Text
unfolding is_space
squeeze after [] = []
squeeze after (c ∷ s) =
    let rest = squeeze (is_space c) s in
    if is_space c then (if after then rest else 32 ∷ rest) else c ∷ rest

unfoldable pub collapse_spaces : Text → Text
unfolding squeeze
collapse_spaces s = squeeze false s

-- `s.split("\n")`
split_from : Text → Text → List Text
split_from acc [] = reverse acc ∷ []
split_from acc (c ∷ s) =
    let here = split_from [] s in
    let on = split_from (c ∷ acc) s in if c == 10 then reverse acc ∷ here else on

unfoldable pub split_lines : Text → List Text
unfolding split_from
split_lines s = split_from [] s

pub to_lower_idem : (s : Text) → to_lower (to_lower s) ≡ to_lower s
unfolding to_lower
to_lower_idem [] = refl
to_lower_idem (c ∷ s) = ground (arith, to_lower_idem s)

pub starts_with_self : (p s : Text) → starts_with p (p ++ s) ≡ true
unfolding starts_with
starts_with_self [] s = refl
starts_with_self (c ∷ p) s = ground (arith, starts_with_self p s)

text_tests :
    (trim (codes "  a b ") ≡ codes "a b")
    × (to_lower (codes "ACK-1") ≡ codes "ack-1")
    × (collapse_spaces (codes "a   b  c") ≡ codes "a b c")
    × (includes (codes "b c") (codes "a b c") ≡ true)
unfolding trim to_lower collapse_spaces includes
text_tests = (refl, refl, refl, refl)
