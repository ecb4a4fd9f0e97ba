-- ===== src/Ack/Sweep/Closing.antt =====
-- The closing loops of the sweeps.
use seat_mesh.Prelude.{
  ℕ, ◌+◌, ◌≡◌, refl, Option, some, List, [], ◌∷◌, arith, inl, inr, ◌⊎◌, if◌then◌else◌,
}
use seat_mesh.Prelude.Text.{Text}
use seat_mesh.Prelude.Keyed.{IsDistinct}
use seat_mesh.Store.Rows.{AckRow, AckCloseBy, PeerRow, ToMasterRow}
use seat_mesh.Ack.Algo.{open_acks}
use seat_mesh.Ack.Ledger.Open.{ack_id}
use seat_mesh.Ack.Ledger.Close.{ack_ack, count_open_acks, ack_ack_closes, ack_ack-cases}
use seat_mesh.Ack.Watch.{AckWatch}
use seat_mesh.Ack.Sweep.{
  is_closed, close_each, close_operator_acks_on_pane_reply, close_acks_on_filings,
}

-- One ack: a success closes one row; anything else leaves the ledger as it was.
ack_ack-step :
    (acks : List AckRow) (id : Text) (by : AckCloseBy) (remark : Option Text) (now : ℕ)
    → IsDistinct ack_id acks
    → let (acks', outcome) = ack_ack acks id by remark now in
      (count_open_acks acks' + (if is_closed outcome then 1 else 0) ≡ count_open_acks acks)
      × IsDistinct ack_id acks'
ack_ack-step acks id by remark now d = elim (ack_ack-cases acks id by remark now) [
  | inl missing ↦ rw missing (omega arith, d)
  | inr (inl (at, before)) ↦ rw before (omega arith, d)
  | inr (inr (acks', row, e)) ↦
      let (one, _, _, d') = ack_ack_closes acks acks' id by remark now row d e in
      rw e (omega (arith, one), d')
]

-- The count of a loop of acks is the number of rows that are no longer open.
close_each-counts :
    (acks : List AckRow) (marks : List (AckRow × Text)) (by : AckCloseBy) (now : ℕ)
    → IsDistinct ack_id acks
    → let (acks', n) = close_each acks marks by now in
      (n + count_open_acks acks' ≡ count_open_acks acks) × IsDistinct ack_id acks'
unfolding close_each
close_each-counts acks [] by now d = (omega arith, d)
close_each-counts acks ((row, remark) ∷ rest) by now d =
    let (a, d') = ack_ack-step acks row.id by (some remark) now d in
    let (b, d'') = close_each-counts (ack_ack acks row.id by (some remark) now).0 rest by now d' in
    (ground (arith, a, b), d'')

reply-counts :
    (acks : List AckRow) (w : AckWatch) (now : ℕ)
    → IsDistinct ack_id acks
    → let ((acks', _), n) = close_operator_acks_on_pane_reply acks w now in
      (n + count_open_acks acks' ≡ count_open_acks acks) × IsDistinct ack_id acks'
unfolding close_operator_acks_on_pane_reply
reply-counts acks w now d = close_each-counts acks _ _ now d

list-cases : (xs : List AckRow) → (xs ≡ []) ⊎ ((x : AckRow) × (ys : List AckRow) × (xs ≡ x ∷ ys))
list-cases [] = inl refl
list-cases (x ∷ ys) = inr (x, ys, refl)

filing-counts :
    (acks : List AckRow) (peer_file : List PeerRow) (inbox : List ToMasterRow) (now : ℕ)
    → IsDistinct ack_id acks
    → let (acks', n) = close_acks_on_filings acks peer_file inbox now in
      (n + count_open_acks acks' ≡ count_open_acks acks) × IsDistinct ack_id acks'
unfolding close_acks_on_filings
filing-counts acks peer_file inbox now d = elim (list-cases (open_acks acks)) [
  | inl e ↦ rw (e, close_acks_on_filings) (omega arith, d)
  | inr (r, rows, e) ↦ rw (e, close_acks_on_filings) (close_each-counts acks _ _ now d)
]

-- Closing on filings, and closing on replies in the pane, each report exactly the number of rows
-- that are open no longer, on a ledger with distinct ids, which stay distinct.
pub sweeps_count_what_they_close :
    (acks : List AckRow) (w : AckWatch) (peer_file : List PeerRow) (inbox : List ToMasterRow)
    (now : ℕ)
    → IsDistinct ack_id acks
    → let (filed, n) = close_acks_on_filings acks peer_file inbox now in
      let ((replied, w'), m) = close_operator_acks_on_pane_reply acks w now in
      (n + count_open_acks filed ≡ count_open_acks acks)
      × IsDistinct ack_id filed
      × (m + count_open_acks replied ≡ count_open_acks acks)
      × IsDistinct ack_id replied
sweeps_count_what_they_close acks w peer_file inbox now d =
    let (a, b) = filing-counts acks peer_file inbox now d in
    let (c, e) = reply-counts acks w now d in (a, b, c, e)
