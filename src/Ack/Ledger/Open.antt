-- ===== src/Ack/Ledger/Open.antt =====
-- Opening a row: `upsertAck` and `openAck`.
use seat_mesh.Prelude.{
  ℕ, ◌≡◌, refl, ◌∙◌, ◌⊎◌, inl, inr, true, Option, none, some, List, [], ◌∷◌, if◌then◌else◌, or_else,
  filter, find?, arith, Memᴰ, Option-cases, All-of, mem-append_right, mem-append_inv, filter-mem,
  mem-filter, find?-none, find?-some, All-lookup, mem-cons_inv,
}
use seat_mesh.Prelude.Text.{Text, is_truthy, text_eq, text_eq_refl, text_eq_iff}
use seat_mesh.Prelude.Sort.{sort-mem, mem-sort}
use seat_mesh.Prelude.Keyed.{upsert, find?_only, IsDistinct, upsert-IsDistinct}
use seat_mesh.Store.Rows.{AckRow, AckOpenInput}
use seat_mesh.Ack.Algo.{trim_ask, is_ack_open, open_acks, open_acks_for_seat, seat_key, older}

abbrev pub ack_id : AckRow → Text
ack_id r = r.id

unfoldable pub upsert_ack : AckRow → List AckRow → List AckRow
unfolding upsert
upsert_ack row rows = upsert ack_id row rows

-- An empty sender is not stored.
abbrev pub non_empty : Option Text → Option Text
non_empty none = none
non_empty (some s) = if is_truthy s then some s else none

-- The row that `openAck` writes; `fresh` is the generated id.
unfoldable pub new_ack : AckOpenInput → Text → ℕ → AckRow
unfolding trim_ask
new_ack input fresh now = record {
  id = or_else input.id fresh;
  at = or_else input.at now;
  seat = input.seat;
  pane_id = input.pane_id;
  source = input.source;
  from = non_empty input.from;
  ask = trim_ask input.ask;
  acked_at = none;
  ack_by = none;
  ack_note = none;
  reminders = 0;
  reminded_at = none;
}

unfoldable pub find_open_ask : List AckRow → Text → Text → Option AckRow
unfolding open_acks_for_seat
find_open_ask rows seat ask = find? (λ r. text_eq r.ask ask) (open_acks_for_seat rows seat)

-- The ledger afterwards, and the row that stands for the ask.
unfoldable pub open_ack : List AckRow → AckOpenInput → Text → ℕ → List AckRow × AckRow
unfolding find_open_ask new_ack upsert_ack trim_ask
open_ack rows input fresh now = elim (find_open_ask rows input.seat (trim_ask input.ask)) [
  | some dup ↦ (rows, dup)
  | none ↦ (upsert_ack (new_ack input fresh now) rows, new_ack input fresh now)
]

-- The rows that `openAck` would take for a given ask.
abbrev pub Stands : Text → Text → AckRow → Type 0
Stands seat ask r =
    (is_ack_open r ≡ true)
    × (text_eq (seat_key r.seat) (seat_key seat) ≡ true)
    × (text_eq r.ask ask ≡ true)

open_for_seat-mem :
    (rows : List AckRow) (seat : Text) {r : AckRow}
    → Memᴰ r (open_acks_for_seat rows seat)
    → Memᴰ r rows × (is_ack_open r ≡ true) × (text_eq (seat_key r.seat) (seat_key seat) ≡ true)
unfolding open_acks_for_seat open_acks
open_for_seat-mem rows seat m =
    let (m₁, same) = mem-filter _ (filter is_ack_open rows) (mem-sort older _ m) in
    let (m₂, open_) = mem-filter is_ack_open rows m₁ in (m₂, open_, same)

mem-open_for_seat :
    (rows : List AckRow) (seat : Text) {r : AckRow}
    → Memᴰ r rows
    → is_ack_open r ≡ true
    → text_eq (seat_key r.seat) (seat_key seat) ≡ true
    → Memᴰ r (open_acks_for_seat rows seat)
unfolding open_acks_for_seat open_acks
mem-open_for_seat rows seat m open_ same =
    sort-mem older _
      (filter-mem _ (filter is_ack_open rows) (filter-mem is_ack_open rows m open_) same)

-- A row that stands alone for an ask is the one that is found.
pub find_open_ask_only :
    (rows : List AckRow) (seat ask : Text) (r : AckRow)
    → Memᴰ r rows
    → Stands seat ask r
    → ((s : AckRow) → Memᴰ s rows → Stands seat ask s → s ≡ r)
    → find_open_ask rows seat ask ≡ some r
unfolding find_open_ask
find_open_ask_only rows seat ask r m (o, s, a) only =
    find?_only (λ x. text_eq x.ask ask) r (open_acks_for_seat rows seat)
      (All-of _ (open_acks_for_seat rows seat)
        λ x mx hit. let (x₁, x₂, x₃) = open_for_seat-mem rows seat mx in only x x₁ (x₂, x₃, hit))
      (mem-open_for_seat rows seat m o s) a

pub find_open_ask-none :
    (rows : List AckRow) (seat ask : Text)
    → find_open_ask rows seat ask ≡ none
    → (s : AckRow) → Memᴰ s rows
    → ¬ Stands seat ask s
unfolding find_open_ask
find_open_ask-none rows seat ask e s m (o, same, a) =
    let h =
      All-lookup _ _ (find?-none (λ r. text_eq r.ask ask) (open_acks_for_seat rows seat) e)
        (mem-open_for_seat rows seat m o same) in
    absurd (ground (arith, h, a))

upsert_ack-inv :
    (row : AckRow) (rows : List AckRow) {s : AckRow}
    → Memᴰ s (upsert_ack row rows)
    → Memᴰ s rows ⊎ (s ≡ row)
unfolding upsert_ack
upsert_ack-inv row rows m = elim (mem-append_inv _ (row ∷ []) m) [
  | inl a ↦ inl (mem-filter _ rows a).0
  | inr b ↦ elim (mem-cons_inv b) [ inl e ↦ inr e | inr c ↦ elim c [ ] ]
]

upsert_ack-self : (row : AckRow) (rows : List AckRow) → Memᴰ row (upsert_ack row rows)
unfolding upsert_ack
upsert_ack-self row rows = mem-append_right _ (row ∷ []) (Memᴰ.head refl)

pub new_ack-Stands :
    (input : AckOpenInput) (fresh : Text) (now : ℕ) (seat ask : Text)
    → seat_key seat ≡ seat_key input.seat
    → trim_ask ask ≡ trim_ask input.ask
    → Stands seat (trim_ask ask) (new_ack input fresh now)
unfolding new_ack is_ack_open
new_ack-Stands input fresh now seat ask e a = (refl, rw e (text_eq_refl _), rw a (text_eq_refl _))

find_open_ask-cong :
    (rows : List AckRow) (s t ask : Text)
    → seat_key s ≡ seat_key t
    → find_open_ask rows s ask ≡ find_open_ask rows t ask
unfolding find_open_ask open_acks_for_seat
find_open_ask-cong rows s t ask e = rw e

module _ (rows : List AckRow) (input : AckOpenInput) (fresh : Text) (now : ℕ) where
  pub open_ack-dup :
      (dup : AckRow)
      → find_open_ask rows input.seat (trim_ask input.ask) ≡ some dup
      → open_ack rows input fresh now ≡ (rows, dup)
  unfolding open_ack
  open_ack-dup dup e = rw (e, open_ack)

  pub open_ack-new :
      find_open_ask rows input.seat (trim_ask input.ask) ≡ none
      → open_ack rows input fresh now
        ≡ (upsert_ack (new_ack input fresh now) rows, new_ack input fresh now)
  unfolding open_ack
  open_ack-new e = rw (e, open_ack)

  Stands-move :
      (seat ask : Text) (s : AckRow)
      → seat_key seat ≡ seat_key input.seat
      → trim_ask ask ≡ trim_ask input.ask
      → Stands seat (trim_ask ask) s
      → Stands input.seat (trim_ask input.ask) s
  Stands-move seat ask s e a (o, same, hit) = (o, rw e at same, rw a at hit)

  open_ack-again :
      (seat ask : Text)
      → seat_key seat ≡ seat_key input.seat
      → trim_ask ask ≡ trim_ask input.ask
      → find_open_ask (open_ack rows input fresh now).0 seat (trim_ask ask)
        ≡ some (open_ack rows input fresh now).1
  open_ack-again seat ask e a =
      elim (Option-cases (find_open_ask rows input.seat (trim_ask input.ask))) [
        | inr (dup, hit) ↦
            rw (open_ack-dup dup hit)
              (rw a (find_open_ask-cong rows seat input.seat (trim_ask input.ask) e ∙ hit))
        | inl miss ↦ rw (open_ack-new miss) (
            find_open_ask_only (upsert_ack row rows) seat (trim_ask ask) row
              (upsert_ack-self row rows) (new_ack-Stands input fresh now seat ask e a)
              λ s m h. elim (upsert_ack-inv row rows m) [
                | inl old ↦ absurd (
                    find_open_ask-none rows input.seat (trim_ask input.ask) miss s old
                      (Stands-move seat ask s e a h))
                | inr same ↦ same
              ])
      ]
    where
      row : AckRow
      row = new_ack input fresh now

pub find_open_ask-some :
    (rows : List AckRow) (seat ask : Text) (r : AckRow)
    → find_open_ask rows seat ask ≡ some r
    → Memᴰ r rows × Stands seat ask r
unfolding find_open_ask
find_open_ask-some rows seat ask r e =
    let (m, hit) = find?-some (λ x. text_eq x.ask ask) (open_acks_for_seat rows seat) e in
    let (in_rows, o, same) = open_for_seat-mem rows seat m in (in_rows, (o, same, hit))

-- After an ask was opened, the row that `openAck` returned stands in the ledger, open, for that
-- seat and with the ask's text; and asking the same of the same seat again, with whatever id,
-- time, pane, sender or source, returns that row and changes nothing.
pub open_ack_idempotent :
    (rows : List AckRow) (input again : AckOpenInput) (fresh fresh' : Text) (now now' : ℕ)
    → seat_key again.seat ≡ seat_key input.seat
    → trim_ask again.ask ≡ trim_ask input.ask
    → let (rows', row) = open_ack rows input fresh now in
      Memᴰ row rows'
      × (is_ack_open row ≡ true)
      × (seat_key row.seat ≡ seat_key input.seat)
      × (row.ask ≡ trim_ask input.ask)
      × (open_ack rows' again fresh' now' ≡ (rows', row))
open_ack_idempotent rows input again fresh fresh' now now' e a =
    let (rows', row) = open_ack rows input fresh now in
    let (m, (o, same, hit)) =
      find_open_ask-some rows' input.seat (trim_ask input.ask) row
        (open_ack-again rows input fresh now input.seat input.ask refl refl) in
    (
      m,
      o,
      (text_eq_iff _ _).0 same,
      (text_eq_iff _ _).0 hit,
      open_ack-dup rows' again fresh' now' row
          (open_ack-again rows input fresh now again.seat again.ask e a),
    )

pub open_ack-IsDistinct :
    (rows : List AckRow) (input : AckOpenInput) (fresh : Text) (now : ℕ)
    → IsDistinct ack_id rows
    → IsDistinct ack_id (open_ack rows input fresh now).0
unfolding upsert_ack
open_ack-IsDistinct rows input fresh now d =
    elim (Option-cases (find_open_ask rows input.seat (trim_ask input.ask))) [
      | inr (dup, hit) ↦ rw (open_ack-dup rows input fresh now dup hit) d
      | inl miss ↦
          rw (open_ack-new rows input fresh now miss)
            (upsert-IsDistinct ack_id (new_ack input fresh now) rows d)
    ]
