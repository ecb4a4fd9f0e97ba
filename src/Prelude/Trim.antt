-- ===== src/Prelude/Trim.antt =====
-- What `trim` leaves of a text.
use mathlib.Core.Path.{◌≡◌, refl, ap, sym, ◌∙◌}
use mathlib.Core.Bool.{false}
use mathlib.Core.Logic.{inl, inr}
use mathlib.Core.List.{
  [], ◌∷◌, ◌++◌, reverse, reverse-append, reverse-cons, reverse-reverse, append_assoc,
}
use Prim.Native.Nat.{ℕ}
use seat_mesh.Prelude.Tests.{Bool-cases}
use seat_mesh.Prelude.Text.{Text, is_space, trim_start, trim}

-- No white space in front.
abbrev IsTight : Text → Type 0
IsTight [] = Unit
IsTight (c ∷ s) = is_space c ≡ false

trim_start-IsTight : (s : Text) → IsTight (trim_start s)
unfolding trim_start
trim_start-IsTight [] = tt
trim_start-IsTight (c ∷ s) = elim (Bool-cases (is_space c)) [
  | inl t ↦ rw t (trim_start-IsTight s)
  | inr f ↦ rw f f
]

trim_start-tight : (s : Text) → IsTight s → trim_start s ≡ s
unfolding trim_start
trim_start-tight [] h = refl
trim_start-tight (c ∷ s) h = rw h refl

-- What is trimmed is in front.
trim_start-suffix : (s : Text) → (w : Text) × (s ≡ w ++ trim_start s)
unfolding trim_start
trim_start-suffix [] = ([], refl)
trim_start-suffix (c ∷ s) = elim (Bool-cases (is_space c)) [
  | inl t ↦ let (w, e) = trim_start-suffix s in (c ∷ w, rw t (ap (λ x. c ∷ x) e))
  | inr f ↦ ([], rw f refl)
]

-- A text that ends in a fixed one which begins tight keeps that end.
trim_start-keeps_end :
    (x r : Text) (c : ℕ) → is_space c ≡ false → (y : Text) × (trim_start (x ++ c ∷ r) ≡ y ++ c ∷ r)
unfolding trim_start
trim_start-keeps_end [] r c h = ([], rw h refl)
trim_start-keeps_end (a ∷ x) r c h = elim (Bool-cases (is_space a)) [
  | inl t ↦ let (y, e) = trim_start-keeps_end x r c h in (y, rw t e)
  | inr f ↦ (a ∷ x, rw f refl)
]

IsTight-front : (a b : Text) → IsTight (a ++ b) → IsTight a
IsTight-front [] b h = tt
IsTight-front (c ∷ a) b h = h

reverse-split : (q s : Text) (d : ℕ) → reverse (q ++ d ∷ s) ≡ reverse s ++ d ∷ reverse q
reverse-split q s d =
    reverse-append q (d ∷ s)
    ∙ ap (λ x. x ++ reverse q) (reverse-cons d s)
    ∙ append_assoc (reverse s) (d ∷ []) (reverse q)

-- A text that begins and ends tight is kept in front.
pub trim-keeps_front :
    (c d : ℕ) (p s : Text)
    → is_space c ≡ false
    → is_space d ≡ false
    → (y : Text) × (trim (c ∷ p ++ d ∷ s) ≡ c ∷ p ++ d ∷ y)
unfolding trim
trim-keeps_front c d p s hc hd =
    let (y, e) = trim_start-keeps_end (reverse s) (reverse (c ∷ p)) d hd in
    (
      reverse y,
      ap (λ x. reverse (trim_start (reverse x))) (trim_start-tight (c ∷ p ++ d ∷ s) hc)
          ∙ ap (λ x. reverse (trim_start x)) (reverse-split (c ∷ p) s d)
          ∙ ap reverse e
          ∙ reverse-split y (reverse (c ∷ p)) d
          ∙ ap (λ x. x ++ d ∷ reverse y) (reverse-reverse (c ∷ p)),
    )

-- Trimming a trimmed text changes nothing.
pub trim_idem : (s : Text) → trim (trim s) ≡ trim s
unfolding trim
trim_idem s =
    ap (λ x. reverse (trim_start (reverse x))) (trim_start-tight (reverse v) tight)
    ∙ ap (λ x. reverse (trim_start x)) (reverse-reverse v)
    ∙ ap reverse (trim_start-tight v (trim_start-IsTight (reverse u)))
  where
    u : Text
    u = trim_start s

    v : Text
    v = trim_start (reverse u)

    tight : IsTight (reverse v)
    tight =
        let (w, e) = trim_start-suffix (reverse u) in
        let whole : u ≡ reverse v ++ reverse w =
          sym (reverse-reverse u) ∙ ap reverse e ∙ reverse-append w v in
        IsTight-front (reverse v) (reverse w) (rw whole at (trim_start-IsTight s))
