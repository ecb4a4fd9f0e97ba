-- ===== src/Room/Layout.antt =====
-- packages/core/src/layout/minis.ts: the grid of mini panes and the order of the minis in it. A
-- throw is `none`.
use seat_mesh.Prelude.{
  ℕ, zero, suc, ◌*◌, ◌≡◌, refl, min, Bool, not, ◌&&◌, Option, none, some, List, [], ◌∷◌, ◌++◌, map,
  if◌then◌else◌, leb, ◌==◌, any, filter, length, take, get_elem?, ◌>>=◌,
}
use seat_mesh.Prelude.Text.{Text, codes, text_eq, trim, is_truthy}
use seat_mesh.Prelude.Decimal.{decimal, number_of}
use seat_mesh.Regex.{is_digit}

-- The digits at the front, and the rest.
abbrev pub span_digits : Text → Text × Text
span_digits [] = ([], [])
span_digits (c ∷ s) = let (a, b) = span_digits s in if is_digit c then (c ∷ a, b) else ([], c ∷ s)

abbrev in_range : ℕ → Bool
in_range n = leb 1 n && leb n 8

check_grid : Text → Text → Text → Option (ℕ × ℕ)
unfolding number_of
check_grid a [] b = none
check_grid a (c ∷ s) b =
    if is_truthy a
      && c == b'x'
      && text_eq s b
      && is_truthy b
      && in_range (number_of a)
      && in_range (number_of b)
    then some (number_of a, number_of b)
    else none

-- `/^(\d+)x(\d+)$/` on the trimmed text, then the range check.
unfoldable pub parse_grid_spec : Text → Option (ℕ × ℕ)
unfolding check_grid trim
parse_grid_spec grid =
    let (a, s) = span_digits (trim grid) in
    let (b, _) = span_digits (drop_unit s) in check_grid a s b
  where
    drop_unit : Text → Text
    drop_unit [] = []
    drop_unit (c ∷ t) = t

-- `1`, …, `n` in decimal
unfoldable pub ids_to : ℕ → List Text
unfolding decimal
ids_to zero = []
ids_to (suc n) = ids_to n ++ decimal (suc n) ∷ []

abbrev pub has_text : List Text → Text → Bool
has_text xs t = any (λ x. text_eq x t) xs

-- The `while` that passes over the ids that were placed already.
skip_placed : List Text → List Text → List Text
skip_placed want [] = []
skip_placed want (t ∷ ts) =
    let rest = skip_placed want ts in if has_text want t then rest else t ∷ ts

-- One cell of the grid: what was placed, and the ids that are left.
place_cell : ℕ → List ℕ → ℕ → ℕ → List Text → List Text → Option (List Text × List Text)
unfolding skip_placed decimal
place_cell total leads row col want rest =
    if leb total (length want)
    then some (want, rest)
    else elim (if col == 0 then get_elem? leads row else none) [
      | some lead ↦ some (want ++ decimal lead ∷ [], rest)
      | none ↦ elim (skip_placed want rest) [ [] ↦ none | t ∷ ts ↦ some (want ++ t ∷ [], ts) ]
    ]

-- The cells of one row, from `col` on; `n` of them are left.
place_row : ℕ → List ℕ → ℕ → ℕ → ℕ → List Text × List Text → Option (List Text × List Text)
unfolding place_cell
place_row total leads row zero col (want, rest) = some (want, rest)
place_row total leads row (suc n) col (want, rest) = do
  next ← place_cell total leads row col want rest
  place_row total leads row n (suc col) next

place_rows : ℕ → List ℕ → ℕ → ℕ → ℕ → List Text × List Text → Option (List Text × List Text)
unfolding place_row
place_rows total leads cols zero row placed = some placed
place_rows total leads cols (suc n) row placed = do
  next ← place_row total leads row cols 0 placed
  place_rows total leads cols n (suc row) next

unfoldable pub compute_minis_want_order : ℕ → ℕ → ℕ → List ℕ → Option (List Text)
unfolding place_rows ids_to decimal
compute_minis_want_order cols rows max leads =
    let total = min max (cols * rows) in
    let non_leads = filter (λ m. not (has_text (map decimal leads) m)) (ids_to total) in
    do placed ← place_rows total leads cols rows 0 ([], non_leads); some (take total placed.0)

layout_tests :
    (parse_grid_spec (codes " 4x2 ") ≡ some (4, 2))
    × (parse_grid_spec (codes "9x2") ≡ none)
    × (parse_grid_spec (codes "4x") ≡ none)
    × (compute_minis_want_order 4 2 8 (1 ∷ 2 ∷ [])
        ≡ some (map codes ("1" ∷ "3" ∷ "4" ∷ "5" ∷ "2" ∷ "6" ∷ "7" ∷ "8" ∷ [])))
    × (compute_minis_want_order 2 1 2 (1 ∷ 2 ∷ []) ≡ none)
unfolding parse_grid_spec compute_minis_want_order text_eq
layout_tests = (refl, refl, refl, refl, refl)
