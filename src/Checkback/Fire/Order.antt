-- ===== src/Checkback/Fire/Order.antt =====
-- The order in which due rows fire.
use seat_mesh.Prelude.{
  ℕ, zero, suc, ◌+◌, ◌≡◌, ap, sym, ◌∙◌, true, false, some, List, [], ◌∷◌, Memᴰ, get_elem?, arith,
  take, length, ◌++◌, ◌⊎◌, refl, Bool-cases, inl, inr, mem-cons_inv, ◌↔◌,
}
use seat_mesh.Prelude.Sort.{IsSorted, sort-IsSorted, sort-mem, mem-sort}
use seat_mesh.Store.Rows.{CheckbackRow}
use seat_mesh.Checkback.Fire.{
  is_due, DueRow, due_rows, fires_before, ranks_before, due_in_order, tried_rows,
}

ranks_before-total : (p q e f : ℕ) → ranks_before p q e f ≡ false → ranks_before q p f e ≡ true
unfolding ranks_before
ranks_before-total p q e f h = ground arith

ranks_before_trans :
    (p q r e f g : ℕ)
    → ranks_before p q e f ≡ true
    → ranks_before q r f g ≡ true
    → ranks_before p r e g ≡ true
unfolding ranks_before
ranks_before_trans p q r e f g h k = ground arith

fires_before-total : (a b : DueRow) → fires_before a b ≡ false → fires_before b a ≡ true
unfolding fires_before
fires_before-total a b h = ranks_before-total _ _ _ _ h

fires_before_trans :
    (a b c : DueRow) → fires_before a b ≡ true → fires_before b c ≡ true → fires_before a c ≡ true
unfolding fires_before
fires_before_trans a b c h k = ranks_before_trans _ _ _ _ _ _ h k

mem-due_rows :
    (now i : ℕ) (rows : List CheckbackRow) {d : DueRow}
    → Memᴰ d (due_rows now i rows)
    → (k : ℕ) × (d.0 ≡ i + k) × (get_elem? rows k ≡ some d.1) × (is_due now d.1 ≡ true)
unfolding due_rows
mem-due_rows now i [] m = elim m [ ]
mem-due_rows now i (r ∷ rows) m = elim (Bool-cases (is_due now r)) [
  | inl due ↦ elim (mem-cons_inv (rw due at m)) [
    | inl e ↦ (
      0,
      omega (arith, ap (λ d. d.0) e),
      ap (λ d. some d.1) (sym e),
      ap (λ d. is_due now d.1) e ∙ due,
    )
    | inr m' ↦
        let (k, a, b, c) = mem-due_rows now (suc i) rows m' in (suc k, omega (arith, a), b, c)
  ]
  | inr not_due ↦
      let (k, a, b, c) = mem-due_rows now (suc i) rows (rw not_due at m) in
      (suc k, omega (arith, a), b, c)
]

due_rows-mem :
    (now i k : ℕ) (rows : List CheckbackRow) (row : CheckbackRow)
    → get_elem? rows k ≡ some row
    → is_due now row ≡ true
    → Memᴰ (i + k, row) (due_rows now i rows)
unfolding due_rows
due_rows-mem now i k [] row e due = absurd (cc)
due_rows-mem now i zero (r ∷ rows) row e due =
    let same : r ≡ row = cc in
    let here : (i + 0, row) ≡ (i, r) = let z : i + 0 ≡ i = omega arith in rw (z, same) in
    rw (ap (is_due now) same ∙ due) (Memᴰ.head here)
due_rows-mem now i (suc k) (r ∷ rows) row e due =
    let shift : i + suc k ≡ suc i + k = omega arith in
    let rest = due_rows-mem now (suc i) k rows row e due in
    elim (Bool-cases (is_due now r)) [
      | inl t ↦ rw (shift, t) (Memᴰ.tail rest)
      | inr f ↦ rw (shift, f) rest
    ]

take-cases :
    (n : ℕ) (ds : List DueRow)
    → ((rest : List DueRow) × (ds ≡ take n ds ++ rest))
      × ((length (take n ds) ≡ n) ⊎ (take n ds ≡ ds))
take-cases zero ds = ((ds, refl), inl refl)
take-cases (suc n) [] = (([], refl), inr refl)
take-cases (suc n) (d ∷ ds) =
    let ((rest, e), c) = take-cases n ds in
    (
      (rest, ap (λ xs. d ∷ xs) e),
      elim c [ inl full ↦ inl (omega (arith, full)) | inr all ↦ inr (ap (λ xs. d ∷ xs) all) ],
    )

-- The due rows are those, and only those, that stand in the file, are active, and have an expiry
-- that has come, ordered by rank of their kind, and within a rank by expiry. One pass tries the first
-- of them in that order: six, or all where there are fewer.
pub due_rows_in_order :
    (rows : List CheckbackRow) (now : ℕ)
    → ((rest : List DueRow) × (due_in_order rows now ≡ tried_rows rows now ++ rest))
      × ((length (tried_rows rows now) ≡ 6) ⊎ (tried_rows rows now ≡ due_in_order rows now))
      × IsSorted fires_before (due_in_order rows now)
      × ((i : ℕ) (row : CheckbackRow)
          → Memᴰ (i, row) (due_in_order rows now)
            ↔ ((get_elem? rows i ≡ some row) × (is_due now row ≡ true)))
unfolding tried_rows
due_rows_in_order rows now = (
  (take-cases 6 (due_in_order rows now)).0,
  (take-cases 6 (due_in_order rows now)).1,
  sort-IsSorted fires_before fires_before-total fires_before_trans (due_rows now 0 rows),
  λ i row. (
    λ m.
        let (k, a, b, c) =
          mem-due_rows now 0 rows (mem-sort fires_before (due_rows now 0 rows) m) in
        (let z : i ≡ k = omega (arith, a) in rw z b, c),
    λ (e, due).
        sort-mem fires_before (due_rows now 0 rows)
          (let z : 0 + i ≡ i = omega arith in rw z at (due_rows-mem now 0 i rows row e due)),
  ),
)
