-- ===== src/Prelude/Keyed.antt =====
-- A JSONL file of rows with an id, under the operations that every such file has: drop the rows
-- with the same id and append (`upsert`), and look a row up.
use mathlib.Core.Path.{◌≡◌, refl, ap, sym, ◌∙◌}
use mathlib.Core.Logic.{inl, inr}
use mathlib.Core.Bool.{Bool, true, false, not}
use mathlib.Core.List.{List, [], ◌∷◌, ◌++◌, Memᴰ}
use mathlib.Core.Option.{some}
use Prim.Native.Nat.{ℕ, ◌+◌}
use native.Mathlib.Omega.{arith}
use seat_mesh.Prelude.Tests.{if◌then◌else◌, Bool-cases}
use seat_mesh.Prelude.Lists.{All, All-append, All-lookup, filter, find?, count}
use seat_mesh.Prelude.Text.{Text, text_eq, text_eq_iff, text_eq_comm}

-- `find` hits the only row that passes.
pub find?_only {ℓ} :
    {A : Type ℓ} (p : A → Bool) (x : A) (xs : List A)
    → All (λ y. p y ≡ true → y ≡ x) xs
    → Memᴰ x xs
    → p x ≡ true
    → find? p xs ≡ some x
find?_only p x [] h m t = elim m [ ]
find?_only p x (y ∷ ys) h m t = elim (Bool-cases (p y)) [
  | inl hit ↦ rw hit (ground (arith, h.0 hit))
  | inr miss ↦ rw miss (find?_only p x ys h.1 (later miss m) t)
]
  where
    later : p y ≡ false → Memᴰ x (y ∷ ys) → Memᴰ x ys
    later miss (Memᴰ.head e) = absurd (let e' : p x ≡ p y = ap p e in cc)
    later miss (Memᴰ.tail m') = m'

abbrev pub tally : Bool → ℕ
tally true = 1
tally false = 0

module _ {ℓ} {A : Type ℓ} (key : A → Text) where
  abbrev pub same_key : Text → A → Bool
  same_key k r = text_eq (key r) k

  -- `rows.filter((r) => r.id !== row.id)`, then `rows.push(row)`
  unfoldable pub upsert : A → List A → List A
  upsert row rows = filter (λ r. not (text_eq (key r) (key row))) rows ++ row ∷ []

  abbrev pub IsDistinct : List A → Type 0
  IsDistinct [] = Unit
  IsDistinct (x ∷ xs) = All (λ y. text_eq (key y) (key x) ≡ false) xs × IsDistinct xs

  find-filter :
      (row : A) (k : Text) (rows : List A)
      → find? (same_key k) (filter (λ r. not (text_eq (key r) (key row))) rows ++ row ∷ [])
        ≡ (if text_eq (key row) k then some row else find? (same_key k) rows)
  find-filter row k [] = refl
  find-filter row k (x ∷ xs) = ground (
    arith,
    text_eq_iff (key x) (key row),
    text_eq_iff (key x) k,
    text_eq_iff (key row) k,
    find-filter row k xs,
  )

  -- After an upsert its id finds the new row, and every other id what it found before.
  pub find?-upsert :
      (row : A) (k : Text) (rows : List A)
      → find? (same_key k) (upsert row rows)
        ≡ (if text_eq (key row) k then some row else find? (same_key k) rows)
  unfolding upsert
  find?-upsert row k rows = find-filter row k rows

  All-filter {κ} : (P : A → Type κ) (p : A → Bool) (xs : List A) → All P xs → All P (filter p xs)
  All-filter P p [] h = tt
  All-filter P p (x ∷ xs) (h, hs) = elim (Bool-cases (p x)) [
    | inl t ↦ rw t (h, All-filter P p xs hs)
    | inr f ↦ rw f (All-filter P p xs hs)
  ]

  upsert-All {κ} :
      (P : A → Type κ) (row : A) (xs : List A) → All P xs → P row → All P (upsert row xs)
  unfolding upsert
  upsert-All P row xs h p =
      All-append P _ _ (All-filter P (λ r. not (text_eq (key r) (key row))) xs h) (p, tt)

  -- An upsert keeps the ids distinct.
  pub upsert-IsDistinct : (row : A) (xs : List A) → IsDistinct xs → IsDistinct (upsert row xs)
  unfolding upsert
  upsert-IsDistinct row [] d = (tt, tt)
  upsert-IsDistinct row (x ∷ xs) (h, d) = elim (Bool-cases (text_eq (key x) (key row))) [
    | inl same ↦ rw same (upsert-IsDistinct row xs d)
    | inr other ↦ rw other (
      upsert-All (λ y. text_eq (key y) (key x) ≡ false) row xs h
          (text_eq_comm (key row) (key x) ∙ other),
      upsert-IsDistinct row xs d,
    )
  ]

  count-absent :
      (p : A → Bool) (k : Text) (row : A) (xs : List A)
      → All (λ y. text_eq (key y) k ≡ false) xs
      → count p (filter (λ r. not (text_eq (key r) k)) xs ++ row ∷ []) ≡ count p xs + tally (p row)
  count-absent p k row [] h = ground arith
  count-absent p k row (x ∷ xs) (h, hs) = ground (arith, count-absent p k row xs hs)

  -- Of the rows that pass a test, an upsert over a row of the list exchanges one.
  pub count-upsert :
      (p : A → Bool) (row old : A) (xs : List A)
      → IsDistinct xs
      → Memᴰ old xs
      → key old ≡ key row
      → count p (upsert row xs) + tally (p old) ≡ count p xs + tally (p row)
  unfolding upsert
  count-upsert p row old [] d m e = elim m [ ]
  count-upsert p row old (x ∷ xs) (h, d) (Memᴰ.head s) e =
      let same : text_eq (key x) (key row) ≡ true = (text_eq_iff _ _).1 (sym (ap key s) ∙ e) in
      let away : All (λ y. text_eq (key y) (key row) ≡ false) xs = rw (sym (ap key s) ∙ e) at h in
      rw same (ground (arith, count-absent p (key row) row xs away, ap p s))
  count-upsert p row old (x ∷ xs) (h, d) (Memᴰ.tail m) e =
      let apart : text_eq (key x) (key row) ≡ false =
        text_eq_comm (key x) (key row)
        ∙ (rw e at (All-lookup (λ y. text_eq (key y) (key x) ≡ false) xs h m)) in
      rw apart (ground (arith, count-upsert p row old xs d m e))
