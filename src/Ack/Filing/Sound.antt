-- ===== src/Ack/Filing/Sound.antt =====
-- The lists per seat of `matchFiledAcks`, and what one filing takes from them.
use seat_mesh.Prelude.{
  ℕ, ◌+◌, ◌<◌, ◌≡◌, refl, sym, ◌∙◌, inl, inr, Bool, Option, some, List, [], ◌∷◌, ◌++◌, ltb, count,
  count-append, Memᴰ, arith, Option-cases, Bool-cases, ltb→lt, All, All-append,
}
use seat_mesh.Prelude.Text.{Text, text_eq, text_eq_iff}
use seat_mesh.Prelude.Dict.{Dict, lookup, put}
use seat_mesh.Prelude.Sort.{sort, insert, sort-All}
use seat_mesh.Store.Rows.{AckRow}
use seat_mesh.Ack.Algo.{seat_key, older}
use seat_mesh.Ack.Filing.{group_by_seat, sort_lists, take_older, list_of}

-- How many rows of the lists pass a test.
abbrev pub total : (AckRow → Bool) → Dict (List AckRow) → ℕ
total p [] = 0
total p ((k, rows) ∷ d) = count p rows + total p d

count-insert :
    (p : AckRow → Bool) (x : AckRow) (xs : List AckRow)
    → count p (insert older x xs) ≡ count p (x ∷ xs)
unfolding insert
count-insert p x [] = refl
count-insert p x (y ∷ ys) = ground (arith, count-insert p x ys)

pub count-sort : (p : AckRow → Bool) (xs : List AckRow) → count p (sort older xs) ≡ count p xs
unfolding sort
count-sort p [] = refl
count-sort p (x ∷ xs) = count-insert p x (sort older xs) ∙ ground (arith, count-sort p xs)

pub total-put :
    (p : AckRow → Bool) (k : Text) (rows : List AckRow) (d : Dict (List AckRow))
    → total p (put k rows d) + count p (list_of k d) ≡ total p d + count p rows
unfolding put lookup
total-put p k rows [] = omega arith
total-put p k rows ((j, old) ∷ d) = ground (arith, total-put p k rows d)

pub total-group :
    (p : AckRow → Bool) (rows : List AckRow) (d : Dict (List AckRow))
    → total p (group_by_seat rows d) ≡ total p d + count p rows
unfolding group_by_seat
total-group p [] d = omega arith
total-group p (row ∷ rows) d =
    let k = seat_key row.seat in
    let here : count p (row ∷ rows) ≡ count p (row ∷ []) + count p rows = ground arith in
    omega (
      arith,
      here,
      total-group p rows (put k (list_of k d ++ row ∷ []) d),
      total-put p k (list_of k d ++ row ∷ []) d,
      count-append p (list_of k d) (row ∷ []),
    )

pub total-sort_lists :
    (p : AckRow → Bool) (d : Dict (List AckRow)) → total p (sort_lists d) ≡ total p d
unfolding sort_lists
total-sort_lists p [] = refl
total-sort_lists p ((k, rows) ∷ d) = omega (arith, count-sort p rows, total-sort_lists p d)

some_pair :
    {a b : AckRow} {xs ys : List AckRow}
    → ◌≡◌ {A = Option (AckRow × List AckRow)} (some (a, xs)) (some (b, ys))
    → (a ≡ b) × (xs ≡ ys)
some_pair e = (cc, cc)

-- What `take_older` takes is an element before the time, and the rest is what it leaves.
pub record Taken (at : ℕ) (rows : List AckRow) (hit : AckRow) (rest : List AckRow) : Type 0 where
  pub before : hit.at < at
  pub member : Memᴰ hit rows
  pub remains : (r : AckRow) → Memᴰ r rest → Memᴰ r rows
  pub counted : (p : AckRow → Bool) → count p rows ≡ count p (hit ∷ []) + count p rest

pub take_older-Taken :
    (at : ℕ) (rows : List AckRow) {hit : AckRow} {rest : List AckRow}
    → take_older at rows ≡ some (hit, rest)
    → Taken at rows hit rest
unfolding take_older
take_older-Taken at [] e = absurd cc
take_older-Taken at (r ∷ rows) {hit} {rest} e = elim (Bool-cases (ltb r.at at)) [
  | inl early ↦
      let (is_hit, is_rest) = some_pair (rw (early, take_older) at e) in
      record {
        before = rw (← is_hit) (ltb→lt r.at at early);
        member = Memᴰ.head (sym is_hit);
        remains = λ r m. Memᴰ.tail (rw (← is_rest) at m);
        counted = λ p. rw (← is_hit, ← is_rest) (ground arith);
      }
  | inr late ↦ elim (Option-cases (take_older at rows)) [
    | inl missed ↦ absurd (let e' = rw (late, missed, take_older) at e in cc)
    | inr (found, is_found) ↦
        let (is_hit, is_rest) = some_pair (rw (late, is_found, take_older) at e) in
        let t = take_older-Taken at rows is_found in
        record {
          before = rw (← is_hit) t.before;
          member = rw (← is_hit) (Memᴰ.tail t.member);
          remains = λ x m. deeper x (rw (← is_rest) at m) t.remains;
          counted = λ p. rw (← is_hit, ← is_rest) (ground (arith, t.counted p));
        }
  ]
]
  where
    deeper :
        (x : AckRow) {ys zs : List AckRow}
        → Memᴰ x (r ∷ ys)
        → ((y : AckRow) → Memᴰ y ys → Memᴰ y zs)
        → Memᴰ x (r ∷ zs)
    deeper x (Memᴰ.head e) f = Memᴰ.head e
    deeper x (Memᴰ.tail m) f = Memᴰ.tail (f x m)

module _ (P : Text → AckRow → Type 0) where
  -- Every row of every list has the property, at the list's key.
  abbrev pub Entries : Dict (List AckRow) → Type 0
  Entries [] = Unit
  Entries ((k, rows) ∷ d) = All (P k) rows × Entries d

  pub Entries-put :
      (k : Text) (rows : List AckRow) (d : Dict (List AckRow))
      → All (P k) rows
      → Entries d
      → Entries (put k rows d)
  unfolding put
  Entries-put k rows [] h es = (h, tt)
  Entries-put k rows ((j, old) ∷ d) h (e, es) = elim (Bool-cases (text_eq j k)) [
    | inl same ↦ rw same (rw (← (text_eq_iff j k).0 same) at h, es)
    | inr other ↦ rw other (e, Entries-put k rows d h es)
  ]

  pub Entries-list_of : (k : Text) (d : Dict (List AckRow)) → Entries d → All (P k) (list_of k d)
  unfolding lookup
  Entries-list_of k [] es = tt
  Entries-list_of k ((j, rows) ∷ d) (e, es) = elim (Bool-cases (text_eq j k)) [
    | inl same ↦ rw same (rw ((text_eq_iff j k).0 same) at e)
    | inr other ↦ rw other (Entries-list_of k d es)
  ]

  pub Entries-group :
      (rows : List AckRow) (d : Dict (List AckRow))
      → All (λ r. P (seat_key r.seat) r) rows
      → Entries d
      → Entries (group_by_seat rows d)
  unfolding group_by_seat
  Entries-group [] d h es = es
  Entries-group (row ∷ rows) d (h, hs) es =
      let k = seat_key row.seat in
      Entries-group rows (put k (list_of k d ++ row ∷ []) d) hs (
        Entries-put k (list_of k d ++ row ∷ []) d
          (All-append (P k) (list_of k d) (row ∷ []) (Entries-list_of k d es) (h, tt)) es)

  pub Entries-sort_lists : (d : Dict (List AckRow)) → Entries d → Entries (sort_lists d)
  unfolding sort_lists
  Entries-sort_lists [] es = tt
  Entries-sort_lists ((k, rows) ∷ d) (e, es) =
      (sort-All older (P k) rows e, Entries-sort_lists d es)
