-- ===== src/Store/Peers/Dedupe.antt =====
-- Compaction of the peer file, and reading the compacted file again.
use seat_mesh.Prelude.{
  suc, ◌+◌, ◌-◌, ◌≤◌, ◌≡◌, refl, sym, ap, ◌∙◌, true, false, List, [], ◌∷◌, ◌++◌, length, All,
  All-append_inv, arith, Bool-cases, inl, inr, ◌⊎◌, ◌==◌,
}
use seat_mesh.Prelude.Text.{Text, text_eq, text_eq_iff, text_eq_comm}
use seat_mesh.Prelude.Keyed.{IsDistinct}
use seat_mesh.Store.Rows.{PeerRow}
use seat_mesh.Store.Peers.{
  peer_id, keep_better, merge_row, dedupe_from, dedupe_jsonl_rows_by_id, read_peer, compact_peer,
}

abbrev pub Absent : Text → List PeerRow → Type 0
Absent k rows = All (λ y. text_eq y.id k ≡ false) rows

append_nil : (xs : List PeerRow) → xs ++ [] ≡ xs
append_nil [] = refl
append_nil (x ∷ xs) = ap (λ ys. x ∷ ys) (append_nil xs)

append_one :
    (acc : List PeerRow) (r : PeerRow) (rows : List PeerRow)
    → (acc ++ (r ∷ [])) ++ rows ≡ acc ++ (r ∷ rows)
append_one [] r rows = refl
append_one (x ∷ xs) r rows = ap (λ us. x ∷ us) (append_one xs r rows)

keep-id : (prev row : PeerRow) → text_eq prev.id row.id ≡ true → (keep_better prev row).id ≡ prev.id
keep-id prev row h = ground (arith, text_eq_iff prev.id row.id)

merge-Absent :
    (k : Text) (row : PeerRow) (rows : List PeerRow)
    → Absent k rows
    → text_eq row.id k ≡ false
    → Absent k (merge_row row rows)
unfolding merge_row
merge-Absent k row [] h away = (away, tt)
merge-Absent k row (x ∷ xs) (h, hs) away = elim (Bool-cases (text_eq x.id row.id)) [
  | inl same ↦ rw same (rw (keep-id x row same) h, hs)
  | inr apart ↦ rw apart (h, merge-Absent k row xs hs away)
]

merge-IsDistinct :
    (row : PeerRow) (rows : List PeerRow)
    → IsDistinct peer_id rows
    → IsDistinct peer_id (merge_row row rows)
unfolding merge_row
merge-IsDistinct row [] d = (tt, tt)
merge-IsDistinct row (x ∷ xs) (h, d) = elim (Bool-cases (text_eq x.id row.id)) [
  | inl same ↦ rw same (rw (keep-id x row same) h, d)
  | inr apart ↦
      rw apart
        (merge-Absent x.id row xs h (text_eq_comm row.id x.id ∙ apart), merge-IsDistinct row xs d)
]

dedupe_from-IsDistinct :
    (acc rows : List PeerRow) → IsDistinct peer_id acc → IsDistinct peer_id (dedupe_from acc rows)
unfolding dedupe_from
dedupe_from-IsDistinct acc [] d = d
dedupe_from-IsDistinct acc (r ∷ rows) d =
    dedupe_from-IsDistinct (merge_row r acc) rows (merge-IsDistinct r acc d)

pub dedupe-IsDistinct : (rows : List PeerRow) → IsDistinct peer_id (dedupe_jsonl_rows_by_id rows)
unfolding dedupe_jsonl_rows_by_id
dedupe-IsDistinct rows = dedupe_from-IsDistinct [] rows tt

merge_new :
    (row : PeerRow) (rows : List PeerRow)
    → Absent row.id rows
    → merge_row row rows ≡ rows ++ row ∷ []
unfolding merge_row
merge_new row [] h = refl
merge_new row (x ∷ xs) (h, hs) = rw h (ap (λ us. x ∷ us) (merge_new row xs hs))

distinct-Absent :
    (acc : List PeerRow) (x : PeerRow) (xs : List PeerRow)
    → IsDistinct peer_id (acc ++ x ∷ xs)
    → Absent x.id acc
distinct-Absent [] x xs d = tt
distinct-Absent (a ∷ acc) x xs (h, d) =
    let (_, (here, _)) = All-append_inv (λ y. text_eq y.id a.id ≡ false) acc (x ∷ xs) h in
    (text_eq_comm a.id x.id ∙ here, distinct-Absent acc x xs d)

transport-IsDistinct :
    {xs ys : List PeerRow} → xs ≡ ys → IsDistinct peer_id ys → IsDistinct peer_id xs
transport-IsDistinct e d = rw e d

dedupe_from-fixed :
    (acc rows : List PeerRow)
    → IsDistinct peer_id (acc ++ rows)
    → dedupe_from acc rows ≡ acc ++ rows
unfolding dedupe_from
dedupe_from-fixed acc [] d = sym (append_nil acc)
dedupe_from-fixed acc (r ∷ rows) d =
    let step : merge_row r acc ≡ acc ++ r ∷ [] = merge_new r acc (distinct-Absent acc r rows d) in
    let regroup : (acc ++ r ∷ []) ++ rows ≡ acc ++ (r ∷ rows) = append_one acc r rows in
    let d' : IsDistinct peer_id ((acc ++ r ∷ []) ++ rows) = transport-IsDistinct regroup d in
    rw step (dedupe_from-fixed (acc ++ r ∷ []) rows d' ∙ regroup)

pub dedupe-fixed :
    (rows : List PeerRow) → IsDistinct peer_id rows → dedupe_jsonl_rows_by_id rows ≡ rows
unfolding dedupe_jsonl_rows_by_id
dedupe-fixed rows d = dedupe_from-fixed [] rows d

length-merge-le :
    (row : PeerRow) (rows : List PeerRow) → length (merge_row row rows) ≤ suc (length rows)
unfolding merge_row
length-merge-le row [] = omega arith
length-merge-le row (x ∷ xs) = ground (arith, length-merge-le row xs)

length-dedupe_from-le :
    (acc rows : List PeerRow) → length (dedupe_from acc rows) ≤ length acc + length rows
unfolding dedupe_from
length-dedupe_from-le acc [] = omega arith
length-dedupe_from-le acc (r ∷ rows) =
    omega (arith, length-dedupe_from-le (merge_row r acc) rows, length-merge-le r acc)

length-dedupe-le : (file : List PeerRow) → length (dedupe_jsonl_rows_by_id file) ≤ length file
unfolding dedupe_jsonl_rows_by_id
length-dedupe-le file = omega (arith, length-dedupe_from-le [] file)

compact-cases :
    (file : List PeerRow)
    → let rows = dedupe_jsonl_rows_by_id file in
      (compact_peer file ≡ (file, 0)) ⊎ (compact_peer file ≡ (rows, length file - length rows))
unfolding compact_peer
compact-cases file = elim (Bool-cases (length (dedupe_jsonl_rows_by_id file) == length file)) [
  | inl same ↦ rw same (inl refl)
  | inr apart ↦ rw apart (inr refl)
]

compact-fixed : (rows : List PeerRow) → IsDistinct peer_id rows → compact_peer rows ≡ (rows, 0)
unfolding compact_peer
compact-fixed rows d =
    let same : (length rows == length rows) ≡ true = ground arith in
    rw (dedupe-fixed rows d, same) refl

-- Compacting the peer file changes nothing that a reader sees, it reports the number of lines that
-- went, and compacting again removes none.
pub compact_peer_is_invisible :
    (file : List PeerRow)
    → (read_peer (compact_peer file).0 ≡ read_peer file)
      × ((compact_peer file).1 + length (compact_peer file).0 ≡ length file)
      × ((compact_peer (compact_peer file).0).1 ≡ 0)
unfolding read_peer
compact_peer_is_invisible file =
    let d = dedupe-IsDistinct file in
    elim (compact-cases file) [
      | inl e ↦ rw e (refl, omega arith, ap (λ c. c.1) e)
      | inr e ↦ rw e (
        dedupe-fixed (dedupe_jsonl_rows_by_id file) d,
        omega (arith, length-dedupe-le file),
        ap (λ c. c.1) (compact-fixed (dedupe_jsonl_rows_by_id file) d),
      )
    ]

pub read-IsDistinct : (file : List PeerRow) → IsDistinct peer_id (read_peer file)
unfolding read_peer
read-IsDistinct file = dedupe-IsDistinct file

pub read_fixed : {rows : List PeerRow} → IsDistinct peer_id rows → read_peer rows ≡ rows
unfolding read_peer
read_fixed {rows} d = dedupe-fixed rows d
