-- ===== src/Store/Sqlite/Ledger.antt =====
-- packages/daemon/src/store/sqlite-store.ts: `openAck` over the ACK table. The database is a
-- parameter: a table with a primary key, read by `SELECT` and changed by `INSERT OR REPLACE`.
use seat_mesh.Prelude.{
  ℕ, ◌≡◌, refl, ◌∙◌, sym, ap, ◌⊎◌, inl, inr, ◌↔◌, true, false, none, some, List, [], ◌∷◌, Memᴰ,
  Option-cases, mem-cons_inv, filter-mem, mem-filter, mem-append_left, mem-append_right,
  mem-append_inv, arith,
}
use seat_mesh.Prelude.Text.{Text, text_eq, text_eq_iff}
use seat_mesh.Prelude.Keyed.{upsert}
use seat_mesh.Store.Rows.{AckRow, AckOpenInput}
use seat_mesh.Ack.Algo.{trim_ask, is_ack_open, seat_key}
use seat_mesh.Ack.Ledger.Open.{
  ack_id, upsert_ack, new_ack, find_open_ask, open_ack, Stands, find_open_ask_only,
  find_open_ask-none, find_open_ask-some, new_ack-Stands, open_ack-dup, open_ack-new,
}

-- What SQLite documents of `INSERT OR REPLACE` into a table whose primary key is `key`: the row is
-- there, and of the others those with another key.
pub record Table {ℓ} {A : Type ℓ} (key : A → Text) : Type (ℓ + 1) where
  pub Db : Type ℓ
  pub all : Db → List A
  pub replace : A → Db → Db
  pub mem-replace :
      (r x : A) (d : Db)
      → Memᴰ x (all (replace r d))
        ↔ ((x ≡ r) ⊎ (Memᴰ x (all d) × (text_eq (key x) (key r) ≡ false)))

-- The same rows, in whatever order.
abbrev pub SameRows {ℓ} : {A : Type ℓ} → List A → List A → Type ℓ
SameRows {A} xs ys = (x : A) → Memᴰ x xs ↔ Memᴰ x ys

-- At most one open row for each seat and ask.
abbrev pub OneOpen : List AckRow → Type 0
OneOpen rows =
    (r s : AckRow)
    → Memᴰ r rows
    → Memᴰ s rows
    → is_ack_open r ≡ true
    → is_ack_open s ≡ true
    → seat_key r.seat ≡ seat_key s.seat
    → r.ask ≡ s.ask
    → r ≡ s

pub upsert-mem :
    (row x : AckRow) (rows : List AckRow)
    → Memᴰ x (upsert_ack row rows) ↔ ((x ≡ row) ⊎ (Memᴰ x rows × (text_eq x.id row.id ≡ false)))
unfolding upsert_ack upsert
upsert-mem row x rows = (
  λ m. elim (mem-append_inv _ (row ∷ []) m) [
    | inl a ↦ let (k, e) = mem-filter _ rows a in inr (k, ground arith)
    | inr b ↦ elim (mem-cons_inv b) [ inl e ↦ inl e | inr c ↦ elim c [ ] ]
  ],
  λ h. elim h [
    | inl e ↦ mem-append_right _ (row ∷ []) (Memᴰ.head e)
    | inr (m, e) ↦ mem-append_left _ (row ∷ []) (filter-mem _ rows m (rw e refl))
  ],
)

module _ (table : Table ack_id) where
  -- `upsertAck` is the statement, and `openAck` is written as in the JSONL store.
  unfoldable pub sqlite_open_ack : table.Db → AckOpenInput → Text → ℕ → table.Db × AckRow
  unfolding find_open_ask new_ack
  sqlite_open_ack d input fresh now =
      elim (find_open_ask (table.all d) input.seat (trim_ask input.ask)) [
        | some dup ↦ (d, dup)
        | none ↦ (table.replace (new_ack input fresh now) d, new_ack input fresh now)
      ]

  sqlite_open_ack-dup :
      (d : table.Db) (input : AckOpenInput) (fresh : Text) (now : ℕ) (dup : AckRow)
      → find_open_ask (table.all d) input.seat (trim_ask input.ask) ≡ some dup
      → sqlite_open_ack d input fresh now ≡ (d, dup)
  unfolding sqlite_open_ack
  sqlite_open_ack-dup d input fresh now dup e = rw (e, sqlite_open_ack)

  sqlite_open_ack-new :
      (d : table.Db) (input : AckOpenInput) (fresh : Text) (now : ℕ)
      → find_open_ask (table.all d) input.seat (trim_ask input.ask) ≡ none
      → sqlite_open_ack d input fresh now
        ≡ (table.replace (new_ack input fresh now) d, new_ack input fresh now)
  unfolding sqlite_open_ack
  sqlite_open_ack-new d input fresh now e = rw (e, sqlite_open_ack)

-- In a ledger with the same rows, the same row stands for an ask.
find_open_ask-same :
    (xs ys : List AckRow) (seat ask : Text) (r : AckRow)
    → SameRows xs ys
    → OneOpen ys
    → find_open_ask ys seat ask ≡ some r
    → find_open_ask xs seat ask ≡ some r
find_open_ask-same xs ys seat ask r same one e =
    let (m, (o, k, a)) = find_open_ask-some ys seat ask r e in
    find_open_ask_only xs seat ask r ((same r).1 m) (o, k, a)
      λ s m' (o', k', a').
        one s r ((same s).0 m') m o' o ((text_eq_iff _ _).0 k' ∙ sym ((text_eq_iff _ _).0 k))
          ((text_eq_iff _ _).0 a' ∙ sym ((text_eq_iff _ _).0 a))

find_open_ask-same_none :
    (xs ys : List AckRow) (seat ask : Text)
    → SameRows xs ys
    → find_open_ask ys seat ask ≡ none
    → find_open_ask xs seat ask ≡ none
find_open_ask-same_none xs ys seat ask same e = elim (Option-cases (find_open_ask xs seat ask)) [
  | inl n ↦ n
  | inr (r, hit) ↦
      let (m, stands) = find_open_ask-some xs seat ask r hit in
      absurd (find_open_ask-none ys seat ask e r ((same r).0 m) stands)
]

upsert_ack-OneOpen :
    (rows : List AckRow) (input : AckOpenInput) (fresh : Text) (now : ℕ)
    → OneOpen rows
    → find_open_ask rows input.seat (trim_ask input.ask) ≡ none
    → OneOpen (upsert_ack (new_ack input fresh now) rows)
upsert_ack-OneOpen rows input fresh now one e r s mr ms o o' k a =
    elim ((upsert-mem row r rows).0 mr) [
      | inl er ↦ elim ((upsert-mem row s rows).0 ms) [
        | inl es ↦ er ∙ sym es
        | inr (hs, _) ↦ absurd (clash s hs o' (sym k ∙ ap seat_of er) (sym a ∙ ap ask_of er))
      ]
      | inr (hr, _) ↦ elim ((upsert-mem row s rows).0 ms) [
        | inl es ↦ absurd (clash r hr o (k ∙ ap seat_of es) (a ∙ ap ask_of es))
        | inr (hs, _) ↦ one r s hr hs o o' k a
      ]
    ]
  where
    row : AckRow
    row = new_ack input fresh now

    seat_of : AckRow → Text
    seat_of x = seat_key x.seat

    ask_of : AckRow → Text
    ask_of x = x.ask

    stands : Stands input.seat (trim_ask input.ask) row
    stands = new_ack-Stands input fresh now input.seat input.ask refl refl

    clash :
        (x : AckRow)
        → Memᴰ x rows
        → is_ack_open x ≡ true
        → seat_key x.seat ≡ seat_key row.seat
        → x.ask ≡ row.ask
        → ⊥
    clash x m ox kx ax =
        find_open_ask-none rows input.seat (trim_ask input.ask) e x m
          (ox, rw kx stands.1, rw ax stands.2)

-- A database table and a JSONL ledger with the same rows, of which at most one is open for each
-- seat and ask, stay so under `openAck` with the same input, id and time; both return the same
-- row, and the JSONL ledger still has at most one open row for each seat and ask.
pub sqlite_open_ack_refines :
    (table : Table ack_id) (d : table.Db) (rows : List AckRow) (input : AckOpenInput) (fresh : Text)
    (now : ℕ)
    → SameRows (table.all d) rows
    → OneOpen rows
    → let (d', row) = sqlite_open_ack table d input fresh now in
      let (rows', row') = open_ack rows input fresh now in
      SameRows (table.all d') rows' × (row ≡ row') × OneOpen rows'
sqlite_open_ack_refines table d rows input fresh now same one =
    elim (Option-cases (find_open_ask rows input.seat (trim_ask input.ask))) [
      | inr (dup, e) ↦
          rw
            (
              open_ack-dup rows input fresh now dup e,
              sqlite_open_ack-dup table d input fresh now dup
                  (find_open_ask-same _ rows input.seat (trim_ask input.ask) dup same one e),
            )
            (same, refl, one)
      | inl e ↦
          rw
            (
              open_ack-new rows input fresh now e,
              sqlite_open_ack-new table d input fresh now
                  (find_open_ask-same_none _ rows input.seat (trim_ask input.ask) same e),
            )
            (agree, refl, upsert_ack-OneOpen rows input fresh now one e)
    ]
  where
    row : AckRow
    row = new_ack input fresh now

    agree : SameRows (table.all (table.replace row d)) (upsert_ack row rows)
    agree x = (
      λ m. elim ((table.mem-replace row x d).0 m) [
        | inl e ↦ (upsert-mem row x rows).1 (inl e)
        | inr (k, ne) ↦ (upsert-mem row x rows).1 (inr ((same x).0 k, ne))
      ],
      λ m. elim ((upsert-mem row x rows).0 m) [
        | inl e ↦ (table.mem-replace row x d).1 (inl e)
        | inr (k, ne) ↦ (table.mem-replace row x d).1 (inr ((same x).1 k, ne))
      ],
    )
