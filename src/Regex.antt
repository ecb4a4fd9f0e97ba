-- ===== src/Regex.antt =====
-- The part of JavaScript's regular expressions that the source's tests use: `re.test(text)`, which
-- asks whether some match exists, so that greediness does not matter. Backtracking is by a
-- continuation on what is left; a star runs at most once for each unit that is left, since a round
-- that consumes nothing is not repeated. `test_ci` is the flag `i`, for a pattern in lower case.
use seat_mesh.Prelude.{
  ℕ, zero, suc, ◌≡◌, refl, Bool, true, false, not, ◌&&◌, ◌||◌, Option, none, some, List, [], ◌∷◌,
  leb, ltb, ◌==◌, length,
}
use seat_mesh.Prelude.Text.{Text, codes, is_space, to_lower}

pub data Re : Type 0 where
  eps : Re
  unit : (ℕ → Bool) → Re
  seq : Re → Re → Re
  alt : Re → Re → Re
  star : Re → Re
  -- `^` and `$` without and with the flag `m`, and `\b`
  at_start : Re
  at_end : Re
  line_start : Re
  boundary : Re

unfoldable pub is_word : ℕ → Bool
is_word c =
    (leb b'a' c && leb c b'z')
    || (leb b'A' c && leb c b'Z')
    || (leb b'0' c && leb c b'9')
    || c == b'_'

abbrev pub opt_word : Option ℕ → Bool
opt_word none = false
opt_word (some c) = is_word c

abbrev pub head_unit : Text → Option ℕ
head_unit [] = none
head_unit (c ∷ s) = some c

unfoldable pub at_boundary : Option ℕ → Text → Bool
unfolding is_word
at_boundary before s = elim (opt_word before) [
  | true ↦ not (opt_word (head_unit s))
  | false ↦ opt_word (head_unit s)
]

abbrev is_absent : Option ℕ → Bool
is_absent none = true
is_absent (some c) = false

abbrev is_line_start : Option ℕ → Bool
is_line_start none = true
is_line_start (some c) = c == 10 || c == 13 || c == 0x2028 || c == 0x2029

-- A matcher gets the unit before, the text that is left, and what is to match afterwards.
abbrev pub Matcher : Type 0
Matcher = Option ℕ → Text → (Option ℕ → Text → Bool) → Bool

match_unit : (ℕ → Bool) → Matcher
match_unit f before [] k = false
match_unit f before (c ∷ s) k = elim (f c) [ true ↦ k (some c) s | false ↦ false ]

match_star : Matcher → ℕ → Matcher
match_star m zero before s k = k before s
match_star m (suc fuel) before s k = elim (k before s) [
  | true ↦ true
  | false ↦ m before s λ before' s'. elim (ltb (length s') (length s)) [
    | true ↦ match_star m fuel before' s' k
    | false ↦ false
  ]
]

unfoldable pub match : Re → Matcher
unfolding match_unit match_star at_boundary
match eps before s k = k before s
match (unit f) before s k = match_unit f before s k
match (seq a b) before s k = match a before s λ before' s'. match b before' s' k
match (alt a b) before s k = elim (match a before s k) [ true ↦ true | false ↦ match b before s k ]
match (star a) before s k = match_star (match a) (length s) before s k
match at_start before s k = elim (is_absent before) [ true ↦ k before s | false ↦ false ]
match at_end before [] k = k before []
match at_end before (c ∷ s) k = false
match line_start before s k = elim (is_line_start before) [ true ↦ k before s | false ↦ false ]
match boundary before s k = elim (at_boundary before s) [ true ↦ k before s | false ↦ false ]

-- A match may begin at any position.
search_from : Re → Option ℕ → Text → Bool
unfolding match
search_from r before [] = match r before [] (λ _ _. true)
search_from r before (c ∷ s) = elim (match r before (c ∷ s) (λ _ _. true)) [
  | true ↦ true
  | false ↦ search_from r (some c) s
]

unfoldable pub test : Re → Text → Bool
unfolding search_from
test r s = search_from r none s

unfoldable pub test_ci : Re → Text → Bool
unfolding test to_lower
test_ci r s = test r (to_lower s)

-- The pattern language.
unfoldable pub lit : Text → Re
lit [] = eps
lit (c ∷ s) = seq (unit (λ d. d == c)) (lit s)

unfoldable pub one_of : List Text → Re
unfolding lit
one_of [] = unit (λ _. false)
one_of (t ∷ ts) = alt (lit t) (one_of ts)

abbrev pub plus : Re → Re
plus r = seq r (star r)

abbrev pub maybe : Re → Re
maybe r = alt r eps

abbrev pub is_digit : ℕ → Bool
is_digit c = leb b'0' c && leb c b'9'

abbrev pub digit : Re
digit = unit is_digit

abbrev pub space : Re
space = unit is_space

abbrev pub none_of : ℕ → Re
none_of c = unit (λ d. not (d == c))

-- `^\d+$`
unfoldable pub all_digits : Text → Bool
unfolding test
all_digits s = test (seq at_start (seq (plus digit) at_end)) s

regex_tests :
    (all_digits (codes "120") ≡ true)
    × (all_digits (codes "") ≡ false)
    × (test (seq boundary (seq (lit (codes "on")) boundary)) (codes "go on!") ≡ true)
    × (test (seq boundary (seq (lit (codes "on")) boundary)) (codes "none") ≡ false)
    × (test_ci (seq at_start (lit (codes "ack"))) (codes "ACK: done") ≡ true)
    × (test (seq (plus (none_of b'x')) (lit (codes "x"))) (codes "abx") ≡ true)
unfolding all_digits test test_ci lit
regex_tests = (refl, refl, refl, refl, refl, refl)
