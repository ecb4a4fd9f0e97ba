-- ===== src/Ack/Ledger/Close.antt =====
-- Closing rows: `findAck`, `ackAck`, `ackAllAcks` and `countOpenAcks`.
use seat_mesh.Prelude.{
  ◌⊎◌, ℕ, suc, ◌+◌, ◌≡◌, refl, ap, sym, ◌∙◌, inl, inr, Bool, true, false, ◌&&◌, Option, none, some,
  List, [], ◌∷◌, if◌then◌else◌, or_option, find?, count, length, arith, Memᴰ, Option-cases, All,
  find?-some, length-filter, Bool-cases, map, and-eq_true,
}
use seat_mesh.Prelude.Text.{Text, codes, is_truthy, text_eq, trim, to_lower, starts_with}
use seat_mesh.Prelude.Keyed.{
  upsert, IsDistinct, upsert-IsDistinct, count-upsert, find?-upsert, tally,
}
use seat_mesh.Store.Rows.{AckRow, AckCloseBy}
use seat_mesh.Ack.Algo.{is_ack_open, open_acks, close_ack_row, drop_ack_prefix, seat_key}
use seat_mesh.Ack.Ledger.Open.{ack_id, upsert_ack}

-- First an id that is the needle, then an id that begins with it.
unfoldable pub find_ack : List AckRow → Text → Option AckRow
unfolding drop_ack_prefix trim to_lower starts_with text_eq
find_ack rows id =
    let needle = drop_ack_prefix (to_lower (trim id)) in
    if is_truthy needle
    then or_option (find? (λ r. text_eq (to_lower r.id) needle) rows)
        (find? (λ r. starts_with needle (drop_ack_prefix (to_lower r.id))) rows)
    else none

pub data AckOutcome : Type 0 where
  closed : AckRow → AckOutcome
  not_found : AckOutcome
  already_acked : ℕ → AckOutcome

ack_found : List AckRow → Option AckRow → AckCloseBy → Option Text → ℕ → List AckRow × AckOutcome
unfolding upsert_ack close_ack_row
ack_found rows none by remark now = (rows, not_found)
ack_found rows (some row) by remark now = elim row.acked_at [
  | some at ↦ (rows, already_acked at)
  | none ↦
      (upsert_ack (close_ack_row row by remark now) rows, closed (close_ack_row row by remark now))
]

unfoldable pub ack_ack :
    List AckRow → Text → AckCloseBy → Option Text → ℕ → List AckRow × AckOutcome
unfolding ack_found find_ack
ack_ack rows id by remark now = ack_found rows (find_ack rows id) by remark now

-- `if (want && …) continue`: no seat, or a blank one, means every seat.
abbrev pub wanted : Option Text → AckRow → Bool
wanted none r = true
wanted (some seat) r =
    if is_truthy (seat_key seat) then text_eq (seat_key r.seat) (seat_key seat) else true

-- The loop of `ackAllAcks`: the rows afterwards and how many were closed.
unfoldable pub ack_all_acks : List AckRow → Option Text → AckCloseBy → ℕ → List AckRow × ℕ
ack_all_acks [] seat by now = ([], 0)
ack_all_acks (r ∷ rows) seat by now =
    let (rest, n) = ack_all_acks rows seat by now in
    if is_ack_open r && wanted seat r
    then (close_ack_row r by (some (codes "cleared by operator")) now ∷ rest, suc n)
    else (r ∷ rest, n)

unfoldable pub count_open_acks : List AckRow → ℕ
unfolding open_acks
count_open_acks rows = length (open_acks rows)

count_open_acks-count : (rows : List AckRow) → count_open_acks rows ≡ count is_ack_open rows
unfolding count_open_acks open_acks
count_open_acks-count rows = length-filter is_ack_open rows

close_ack_row-fields :
    (row : AckRow) (by : AckCloseBy) (remark : Option Text) (now : ℕ)
    → ((close_ack_row row by remark now).id ≡ row.id)
      × ((close_ack_row row by remark now).acked_at ≡ some now)
      × ((close_ack_row row by remark now).ask ≡ row.ask)
      × ((close_ack_row row by remark now).seat ≡ row.seat)
unfolding close_ack_row
close_ack_row-fields row by none now = (refl, refl, refl, refl)
close_ack_row-fields row by (some remark) now = ground arith

close_ack_row-shut :
    (row : AckRow) (by : AckCloseBy) (remark : Option Text) (now : ℕ)
    → is_ack_open (close_ack_row row by remark now) ≡ false
unfolding is_ack_open
close_ack_row-shut row by remark now = rw (close_ack_row-fields row by remark now).1

find_ack-mem :
    (rows : List AckRow) (id : Text) {row : AckRow} → find_ack rows id ≡ some row → Memᴰ row rows
unfolding find_ack
find_ack-mem rows id {row} e =
    let needle = drop_ack_prefix (to_lower (trim id)) in
    elim (Option-cases (find? (λ r. text_eq (to_lower r.id) needle) rows)) [
      | inr (r, hit) ↦ (find?-some _ rows (hit ∙ ground (arith, hit))).0
      | inl miss ↦
          (find?-some (λ r. starts_with needle (drop_ack_prefix (to_lower r.id))) rows
            (ground (arith, miss))).0
    ]

ack_ack-found :
    (rows : List AckRow) (id : Text) (by : AckCloseBy) (remark : Option Text) (now : ℕ)
    {r : List AckRow × AckOutcome}
    → ack_ack rows id by remark now ≡ r
    → ack_found rows (find_ack rows id) by remark now ≡ r
unfolding ack_ack
ack_ack-found rows id by remark now e = e

closed_injective : (a b : AckRow) → closed a ≡ closed b → a ≡ b
closed_injective a b e = cc

module _ (by : AckCloseBy) (remark : Option Text) (now : ℕ) (rows rows' : List AckRow)
    (row : AckRow) where
  -- What a successful close was.
  abbrev Closes : Option AckRow → AckRow → Type 0
  Closes found old =
      (found ≡ some old)
      × (old.acked_at ≡ none)
      × (row ≡ close_ack_row old by remark now)
      × (rows' ≡ upsert_ack row rows)

  ack_row-inv :
      (old : AckRow) (o : Option ℕ)
      → old.acked_at ≡ o
      → ack_found rows (some old) by remark now ≡ (rows', closed row)
      → Closes (some old) old
  unfolding ack_found
  ack_row-inv old (some at) open_ e = absurd (let e' = rw (open_, ack_found) at e in cc)
  ack_row-inv old none open_ e =
      let e' : (
        upsert_ack (close_ack_row old by remark now) rows,
        closed (close_ack_row old by remark now),
      )
          ≡ (rows', closed row) =
        rw open_ at e in
      let same : close_ack_row old by remark now ≡ row = closed_injective _ _ (ap (λ p. p.1) e') in
      (refl, open_, sym same, sym (ap (λ p. p.0) e') ∙ ap (λ r. upsert_ack r rows) same)

  ack_found-inv :
      (o : Option AckRow)
      → ack_found rows o by remark now ≡ (rows', closed row)
      → (old : AckRow) × Closes o old
  unfolding ack_found
  ack_found-inv none e = absurd cc
  ack_found-inv (some old) e = (old, ack_row-inv old old.acked_at refl e)

-- The three outcomes of an ack; only a success changes the ledger.
ack_found-cases :
    (rows : List AckRow) (o : Option AckRow) (by : AckCloseBy) (remark : Option Text) (now : ℕ)
    → (ack_found rows o by remark now ≡ (rows, not_found))
      ⊎ (((at : ℕ) × (ack_found rows o by remark now ≡ (rows, already_acked at)))
          ⊎ ((rows' : List AckRow) × (row : AckRow) × (ack_found rows o by remark now
                ≡ (rows', closed row))))
unfolding ack_found
ack_found-cases rows none by remark now = inl refl
ack_found-cases rows (some row) by remark now = elim (Option-cases row.acked_at) [
  | inr (at, e) ↦ rw (e, ack_found) (inr (inl (at, refl)))
  | inl e ↦
      rw (e, ack_found)
        (inr (
          inr (
            upsert_ack (close_ack_row row by remark now) rows,
            close_ack_row row by remark now,
            refl,
          )))
]

pub ack_ack-cases :
    (rows : List AckRow) (id : Text) (by : AckCloseBy) (remark : Option Text) (now : ℕ)
    → (ack_ack rows id by remark now ≡ (rows, not_found))
      ⊎ (((at : ℕ) × (ack_ack rows id by remark now ≡ (rows, already_acked at)))
          ⊎ ((rows' : List AckRow) × (row : AckRow) × (ack_ack rows id by remark now
                ≡ (rows', closed row))))
unfolding ack_ack
ack_ack-cases rows id by remark now = ack_found-cases rows (find_ack rows id) by remark now

tally-open : (old : AckRow) → old.acked_at ≡ none → tally (is_ack_open old) ≡ 1
unfolding is_ack_open
tally-open old e = rw e

-- A successful ack closes one row of a ledger with distinct ids: exactly one row fewer is open,
-- the row that is returned bears the time of the ack and is what its id now finds, every other id
-- finds what it found before, and the ids stay distinct.
pub ack_ack_closes :
    (rows rows' : List AckRow) (id : Text) (by : AckCloseBy) (remark : Option Text) (now : ℕ)
    (row : AckRow)
    → IsDistinct ack_id rows
    → ack_ack rows id by remark now ≡ (rows', closed row)
    → (count_open_acks rows' + 1 ≡ count_open_acks rows)
      × (row.acked_at ≡ some now)
      × ((k : Text)
          → find? (λ r. text_eq r.id k) rows'
            ≡ (if text_eq row.id k then some row else find? (λ r. text_eq r.id k) rows))
      × IsDistinct ack_id rows'
unfolding upsert_ack
ack_ack_closes rows rows' id by remark now row d e =
    let (old, (found, open_, is_row, is_rows)) =
      ack_found-inv by remark now rows rows' row (find_ack rows id)
        (ack_ack-found rows id by remark now e) in
    let (same_id, at, _, _) = close_ack_row-fields old by remark now in
    let one =
      count-upsert ack_id is_ack_open row old rows d (find_ack-mem rows id found)
        (rw is_row (sym same_id)) in
    rw is_rows (
      omega (
        arith,
        one,
        count_open_acks-count rows,
        count_open_acks-count (upsert ack_id row rows),
        tally-open old open_,
        ap tally (close_ack_row-shut old by remark now),
        ap (λ r. tally (is_ack_open r)) is_row,
      ),
      rw is_row at,
      (λ k. find?-upsert ack_id row k rows),
      upsert-IsDistinct ack_id row rows d,
    )

abbrev pub cleared_if : Option Text → AckCloseBy → ℕ → AckRow → AckRow
cleared_if seat by now r =
    if is_ack_open r && wanted seat r
    then close_ack_row r by (some (codes "cleared by operator")) now
    else r

ack_all_acks-count :
    (rows : List AckRow) (seat : Option Text) (by : AckCloseBy) (now : ℕ)
    → let (rows', n) = ack_all_acks rows seat by now in
      (n ≡ count (λ r. is_ack_open r && wanted seat r) rows)
      × (n + count is_ack_open rows' ≡ count is_ack_open rows)
      × All (λ r. (is_ack_open r && wanted seat r) ≡ false) rows'
      × (rows' ≡ map (cleared_if seat by now) rows)
unfolding ack_all_acks
ack_all_acks-count [] seat by now = (refl, omega arith, tt, refl)
ack_all_acks-count (r ∷ rows) seat by now =
    let (a, b, c, d) = ack_all_acks-count rows seat by now in
    let shut = close_ack_row-shut r by (some (codes "cleared by operator")) now in
    elim (Bool-cases (is_ack_open r && wanted seat r)) [
      | inl t ↦ rw t (
        ground (arith, and-eq_true (is_ack_open r) (wanted seat r) t, a),
        ground (arith, shut, and-eq_true (is_ack_open r) (wanted seat r) t, b),
        (ground (arith, shut), c),
        rw d refl,
      )
      | inr f ↦ rw f (a, ground (arith, b), (f, c), rw d refl)
    ]

-- Clearing all rows, of one seat or of every seat, replaces each open row that is meant by that row
-- closed with the operator's remark, in its place, and leaves every other row as it was; it counts
-- exactly those, and no such row is open any longer.
pub ack_all_acks_closes :
    (rows : List AckRow) (seat : Option Text) (by : AckCloseBy) (now : ℕ)
    → let (rows', n) = ack_all_acks rows seat by now in
      (n ≡ count (λ r. is_ack_open r && wanted seat r) rows)
      × (n + count_open_acks rows' ≡ count_open_acks rows)
      × All (λ r. (is_ack_open r && wanted seat r) ≡ false) rows'
      × (rows' ≡ map (cleared_if seat by now) rows)
ack_all_acks_closes rows seat by now =
    rw (count_open_acks-count (ack_all_acks rows seat by now).0, count_open_acks-count rows)
      (ack_all_acks-count rows seat by now)
