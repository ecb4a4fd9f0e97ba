-- ===== src/Ack/Filing/Match.antt =====
-- The pairing of rows with filings, as a whole.
use seat_mesh.Prelude.{
  ◌≤◌, ◌<◌, ◌≡◌, refl, inl, inr, Bool, true, List, [], ◌∷◌, map, length, count, Memᴰ, arith,
  Option-cases, All, All-of, All-lookup, mem-filter,
}
use seat_mesh.Prelude.Text.{Text}
use seat_mesh.Prelude.Dict.{Dict, put}
use seat_mesh.Prelude.Sort.{sort, mem-sort, sort-length}
use seat_mesh.Store.Rows.{AckRow}
use seat_mesh.Ack.Algo.{is_ack_open, open_acks, seat_key}
use seat_mesh.Ack.Filing.{
  SeatFiling, group_by_seat, sort_lists, take_older, list_of, pair_up, filed_first,
  match_filed_acks,
}
use seat_mesh.Ack.Filing.Sound.{
  total, total-put, total-group, total-sort_lists, take_older-Taken, Entries, Entries-put,
  Entries-list_of, Entries-group, Entries-sort_lists,
}

abbrev pub rows_of : List (AckRow × Text) → List AckRow
rows_of = map (λ m. m.0)

-- Why a row is cleared: it was an open row of the ledger, and its seat filed something later.
pub record IsEvidenced (rows : List AckRow) (filings : List SeatFiling) (m : AckRow × Text)
    : Type 0 where
  pub in_ledger : Memᴰ m.0 rows
  pub was_open : is_ack_open m.0 ≡ true
  pub filing : SeatFiling
  pub filed : Memᴰ filing filings
  pub same_seat : seat_key m.0.seat ≡ seat_key filing.seat
  pub later : m.0.at < filing.at
  pub noted : m.1 ≡ filing.what

module _ (rows : List AckRow) (filings : List SeatFiling) where
  abbrev Kept : Text → AckRow → Type 0
  Kept k r = Memᴰ r rows × (is_ack_open r ≡ true) × (seat_key r.seat ≡ k)

  record Paired (fs : List SeatFiling) (d : Dict (List AckRow)) (out : List (AckRow × Text))
      : Type 0 where
    evidenced : All (IsEvidenced rows filings) out
    bounded : length out ≤ length fs
    once : (p : AckRow → Bool) → count p (rows_of out) ≤ total p d

  pair_up-Paired :
      (fs : List SeatFiling) (d : Dict (List AckRow))
      → All (λ f. Memᴰ f filings) fs
      → Entries Kept d
      → Paired fs d (pair_up fs d)
  unfolding pair_up
  pair_up-Paired [] d hf es = record {
    evidenced = tt;
    bounded = omega arith;
    once = λ p. omega arith;
  }
  pair_up-Paired (f ∷ fs) d (hf, hfs) es =
      let k = seat_key f.seat in
      elim (Option-cases (take_older f.at (list_of k d))) [
        | inl missed ↦
            let rest = pair_up-Paired fs d hfs es in
            rw (missed, pair_up)
              (record {
                evidenced = rest.evidenced;
                bounded = omega (arith, rest.bounded);
                once = rest.once;
              })
        | inr ((hit, left), found) ↦
            let t = take_older-Taken f.at (list_of k d) found in
            let all = Entries-list_of Kept k d es in
            let (member, open_, seat) = All-lookup (Kept k) (list_of k d) all t.member in
            let rest = pair_up-Paired fs (put k left d) hfs (
              Entries-put Kept k left d
                (All-of (Kept k) left
                  (λ r m. All-lookup (Kept k) (list_of k d) all (t.remains r m)))
                es) in
            rw (found, pair_up)
              (record {
                evidenced = (
                  record {
                    in_ledger = member;
                    was_open = open_;
                    filing = f;
                    filed = hf;
                    same_seat = seat;
                    later = t.before;
                    noted = refl;
                  },
                  rest.evidenced,
                );
                bounded = omega (arith, rest.bounded);
                once = λ p. ground (arith, rest.once p, t.counted p, total-put p k left d);
              })
      ]

-- Every pair that `matchFiledAcks` returns clears an open row of the ledger by a filing of the same
-- seat that came later, with that filing's text as the note; no more rows are cleared than there
-- are filings; and no row is cleared more often than it stands open in the ledger.
pub match_filed_acks_sound :
    (rows : List AckRow) (filings : List SeatFiling)
    → All (IsEvidenced rows filings) (match_filed_acks rows filings)
      × (length (match_filed_acks rows filings) ≤ length filings)
      × ((p : AckRow → Bool)
          → count p (rows_of (match_filed_acks rows filings)) ≤ count p (open_acks rows))
unfolding match_filed_acks
match_filed_acks_sound rows filings =
    let d = group_by_seat (open_acks rows) [] in
    let kept : All (λ r. Kept rows filings (seat_key r.seat) r) (open_acks rows) =
      All-of _ (open_acks rows)
        (λ r m. let (a, b) = mem-filter is_ack_open rows m in (a, b, refl)) in
    let es =
      Entries-sort_lists (Kept rows filings) d
        (Entries-group (Kept rows filings) (open_acks rows) [] kept tt) in
    let known =
      All-of (λ f. Memᴰ f filings) (sort filed_first filings)
        (λ f m. mem-sort filed_first filings m) in
    let out = pair_up-Paired rows filings (sort filed_first filings) (sort_lists d) known es in
    (
      out.evidenced,
      omega (arith, out.bounded, sort-length filed_first filings),
      (λ p. omega (arith, out.once p, total-sort_lists p d, total-group p (open_acks rows) [])),
    )
