-- ===== src/Ack/Algo.antt =====
-- packages/core/src/ack/ack-algo.ts: the constants, the open rows, the backoff, closing a row.
use native.Mathlib.Nat.{pow-suc}
use seat_mesh.Prelude.{
  ℕ, zero, suc, ◌-◌, ◌*◌, ◌^◌, ◌≤◌, min, ◌≡◌, refl, Bool, not, ◌&&◌, Option, none, some, List, ◌++◌,
  if◌then◌else◌, is_some, ltb, leb, length, take, drop, filter, arith, length-append, length-take,
  Bool-cases, inl, inr,
}
use seat_mesh.Prelude.Text.{
  Text, codes, text_eq, trim, to_lower, collapse_spaces, starts_with, is_truthy,
}
use seat_mesh.Prelude.Sort.{sort}
use seat_mesh.Store.Rows.{AckRow, AckCloseBy}

abbrev pub ack_ask_max : ℕ
ack_ask_max = 200

abbrev pub ack_remind_max : ℕ
ack_remind_max = 4

abbrev pub ack_remind_first_sec : ℕ
ack_remind_first_sec = 90

abbrev pub ack_remind_cap_sec : ℕ
ack_remind_cap_sec = 600

-- `id.replace(/^ack-/, "")`
unfoldable pub drop_ack_prefix : Text → Text
unfolding starts_with
drop_ack_prefix id = if starts_with (codes "ack-") id then drop 4 id else id

unfoldable pub short_ack_id : Text → Text
unfolding drop_ack_prefix
short_ack_id id = take 6 (drop_ack_prefix id)

-- At most `ack_ask_max` units, the last of which is then an ellipsis.
unfoldable pub clip_ask : Text → Text
clip_ask t = if ltb ack_ask_max (length t) then take (ack_ask_max - 1) t ++ codes "…" else t

unfoldable pub trim_ask : Text → Text
unfolding clip_ask trim collapse_spaces
trim_ask ask = clip_ask (trim (collapse_spaces ask))

unfoldable pub is_ack_open : AckRow → Bool
is_ack_open row = not (is_some row.acked_at)

unfoldable pub is_ack_stale : AckRow → Bool
unfolding is_ack_open
is_ack_stale row = is_ack_open row && leb ack_remind_max row.reminders

unfoldable pub open_acks : List AckRow → List AckRow
unfolding is_ack_open
open_acks rows = filter is_ack_open rows

-- `s.trim().toLowerCase()`, by which seats are compared
unfoldable pub seat_key : Text → Text
unfolding trim to_lower
seat_key s = to_lower (trim s)

abbrev pub older : AckRow → AckRow → Bool
older a b = leb a.at b.at

unfoldable pub open_acks_for_seat : List AckRow → Text → List AckRow
unfolding open_acks sort seat_key
open_acks_for_seat rows seat =
    sort older (filter (λ r. text_eq (seat_key r.seat) (seat_key seat)) (open_acks rows))

unfoldable pub ack_remind_delay_sec : ℕ → ℕ
ack_remind_delay_sec reminders = min (ack_remind_first_sec * 2 ^ reminders) ack_remind_cap_sec

unfoldable pub remindable_acks : List AckRow → List AckRow
remindable_acks rows = List.[]

-- `ackNote` is written only by a note with some text in it.
unfoldable pub close_ack_row : AckRow → AckCloseBy → Option Text → ℕ → AckRow
unfolding clip_ask trim collapse_spaces
close_ack_row row by none now = record row { acked_at = some now; ack_by = some by }
close_ack_row row by (some note) now =
    let closed = record row { acked_at = some now; ack_by = some by } in
    let n = trim (collapse_spaces note) in
    if is_truthy n then record closed { ack_note = some (clip_ask n) } else closed

delay_step : (n : ℕ) → ack_remind_first_sec * 2 ^ suc n ≡ 2 * (ack_remind_first_sec * 2 ^ n)
delay_step n = rw (pow-suc 2 n) (omega arith)

delay_grows : (n : ℕ) → ack_remind_first_sec ≤ ack_remind_first_sec * 2 ^ n
delay_grows zero = omega arith
delay_grows (suc n) = omega (arith, delay_grows n, delay_step n)

-- The first reminder comes after 90 seconds, each later delay is twice the one before until the
-- cap of 600 seconds, and no delay is shorter than the first or longer than the cap.
pub ack_remind_delay_sec_backoff :
    (n : ℕ)
    → (ack_remind_delay_sec 0 ≡ 90)
      × (ack_remind_delay_sec (suc n) ≡ min (2 * ack_remind_delay_sec n) 600)
      × (90 ≤ ack_remind_delay_sec n)
      × (ack_remind_delay_sec n ≤ 600)
unfolding ack_remind_delay_sec
ack_remind_delay_sec_backoff n =
    (refl, omega (arith, delay_step n), omega (arith, delay_grows n), omega arith)

clip_bound :
    (n : ℕ) (t end : Text)
    → length end ≡ 1
    → length (if ltb (suc n) (length t) then take n t ++ end else t) ≤ suc n
clip_bound n t end one = elim (Bool-cases (ltb (suc n) (length t))) [
  | inl long ↦ rw long (omega (arith, length-append (take n t) end, length-take n t))
  | inr short ↦ rw short (ground arith)
]

length-clip_ask-le : (t : Text) → length (clip_ask t) ≤ ack_ask_max
unfolding clip_ask
length-clip_ask-le t = clip_bound 199 t (codes "…") refl

-- A stored ask is never longer than `ack_ask_max`.
pub length-trim_ask-le : (ask : Text) → length (trim_ask ask) ≤ ack_ask_max
unfolding trim_ask
length-trim_ask-le ask = length-clip_ask-le (trim (collapse_spaces ask))
