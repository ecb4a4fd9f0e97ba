-- ===== src/Ack/Filing.antt =====
-- packages/core/src/ack/ack-algo.ts: `matchFiledAcks`, which pairs open rows with filings that came
-- after them.
pub mod Sound
pub mod Match
use seat_mesh.Prelude.{
  ℕ, ◌≡◌, refl, Bool, true, false, Option, none, some, List, [], ◌∷◌, ◌++◌, map, if◌then◌else◌,
  or_else, ltb, leb, length,
}
use seat_mesh.Prelude.Text.{Text}
use seat_mesh.Prelude.Dict.{Dict, lookup, put}
use seat_mesh.Prelude.Sort.{sort}
use seat_mesh.Store.Rows.{AckRow}
use seat_mesh.Ack.Algo.{open_acks, seat_key, older}

pub record SeatFiling : Type 0 where
  pub seat : Text
  pub at : ℕ
  pub what : Text

-- `bySeat`: the open rows of each seat, in ledger order.
pub group_by_seat : List AckRow → Dict (List AckRow) → Dict (List AckRow)
unfolding lookup put seat_key
group_by_seat [] d = d
group_by_seat (row ∷ rows) d =
    group_by_seat rows
      (put (seat_key row.seat) (or_else (lookup (seat_key row.seat) d) [] ++ row ∷ []) d)

pub sort_lists : Dict (List AckRow) → Dict (List AckRow)
unfolding sort
sort_lists [] = []
sort_lists ((k, rows) ∷ d) = (k, sort older rows) ∷ sort_lists d

-- `list.findIndex((r) => r.at < filing.at)` and `list.splice(idx, 1)`
pub take_older : ℕ → List AckRow → Option (AckRow × List AckRow)
take_older at [] = none
take_older at (r ∷ rows) = elim (ltb r.at at) [
  | true ↦ some (r, rows)
  | false ↦ elim (take_older at rows) [ none ↦ none | some (hit, rest) ↦ some (hit, r ∷ rest) ]
]

abbrev pub list_of : Text → Dict (List AckRow) → List AckRow
list_of k d = or_else (lookup k d) []

-- The loop over the filings, earliest first.
pub pair_up : List SeatFiling → Dict (List AckRow) → List (AckRow × Text)
unfolding take_older lookup put
pair_up [] d = []
pair_up (f ∷ fs) d = elim (take_older f.at (list_of (seat_key f.seat) d)) [
  | none ↦ pair_up fs d
  | some (row, rest) ↦ (row, f.what) ∷ pair_up fs (put (seat_key f.seat) rest d)
]

abbrev pub filed_first : SeatFiling → SeatFiling → Bool
filed_first a b = leb a.at b.at

unfoldable pub match_filed_acks : List AckRow → List SeatFiling → List (AckRow × Text)
unfolding open_acks group_by_seat sort_lists pair_up sort
match_filed_acks rows filings =
    pair_up (sort filed_first filings) (sort_lists (group_by_seat (open_acks rows) []))
