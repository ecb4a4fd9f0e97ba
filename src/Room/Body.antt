-- ===== src/Room/Body.antt =====
-- packages/core/src/chatroom/room.ts: the kind of a message and the text that is stored for it.
pub mod Kind
use seat_mesh.Prelude.{
  ℕ, ◌≡◌, refl, Bool, true, false, not, ◌&&◌, ◌||◌, List, [], ◌∷◌, ◌++◌, if◌then◌else◌, ◌==◌,
}
use seat_mesh.Prelude.Text.{Text, codes, trim, to_upper, starts_with, text_eq}
use seat_mesh.Regex.{
  Re, seq, alt, at_start, at_end, boundary, unit, test, test_ci, lit, one_of, maybe, digit,
}
use seat_mesh.Room.{RoomMessageKind, claim, done, blocked, fyi, status, broadcast, msg}

status_re : Re
unfolding lit
status_re = seq at_start (seq (lit (codes "STATUS")) boundary)

unfoldable pub infer_kind_upper : Text → RoomMessageKind
unfolding status_re
infer_kind_upper u =
    if starts_with (codes "BROADCAST:") u
    then broadcast
    else if starts_with (codes "CLAIMED:") u || starts_with (codes "CLAIM:") u
    then claim
    else if starts_with (codes "DONE:") u
    then done
    else if starts_with (codes "BLOCKED:") u
    then blocked
    else if starts_with (codes "FYI:") u
    then fyi
    else if starts_with (codes "STATUS:") u || test status_re u
    then status
    else msg

unfoldable pub infer_kind : Text → RoomMessageKind
unfolding infer_kind_upper
infer_kind body = infer_kind_upper (to_upper (trim body))

-- `/^TAG:/i`
abbrev pub has_tag : Text → Text → Bool
has_tag tag t = starts_with tag (to_upper t)

unfoldable pub normalize_trimmed : Text → RoomMessageKind → Text
normalize_trimmed t claim =
    if has_tag (codes "CLAIM:") t || has_tag (codes "CLAIMED:") t then t else codes "CLAIMED: " ++ t
normalize_trimmed t done = if has_tag (codes "DONE:") t then t else codes "DONE: " ++ t
normalize_trimmed t blocked = if has_tag (codes "BLOCKED:") t then t else codes "BLOCKED: " ++ t
normalize_trimmed t broadcast =
    if has_tag (codes "BROADCAST:") t then t else codes "BROADCAST: " ++ t
normalize_trimmed t _ = t

unfoldable pub normalize_body : Text → RoomMessageKind → Text
unfolding normalize_trimmed
normalize_body body kind = normalize_trimmed (trim body) kind

-- `/\[@\d{4}-\d{2}-\d{2}T/`
stamped_re : Re
unfolding lit
stamped_re = seq (lit (codes "[@")) (
    seq (seq digit (seq digit (seq digit digit))) (
      seq (unit (λ c. c == b'-')) (
        seq (seq digit digit)
          (seq (unit (λ c. c == b'-')) (seq (seq digit digit) (unit (λ c. c == b'T')))))))

abbrev pub is_actionable : RoomMessageKind → Bool
is_actionable claim = true
is_actionable done = true
is_actionable blocked = true
is_actionable _ = false

-- `stamp` is the time in ISO form without its milliseconds.
unfoldable pub stamp_actionable_body : Text → Text → RoomMessageKind → Text
unfolding stamped_re
stamp_actionable_body stamp body kind =
    if not (is_actionable kind)
    then body
    else if test stamped_re body
    then body
    else body ++ codes " [@" ++ stamp ++ codes "]"

asking_re : Re
unfolding one_of
asking_re = seq at_start (
    one_of (
      codes "would you"
      ∷ codes "can you"
      ∷ codes "should i"
      ∷ codes "do you want"
      ∷ codes "let me know"
      ∷ codes "please confirm"
      ∷ []))

question_re : Re
question_re = seq (unit (λ c. c == b'?')) at_end

unfoldable pub looks_like_expects_reply : Text → Bool
unfolding asking_re question_re
looks_like_expects_reply body = test question_re (trim body) || test_ci asking_re (trim body)

body_tests :
    (infer_kind (codes " done: all green") ≡ done)
    × (infer_kind (codes "status update") ≡ status)
    × (normalize_body (codes " all green ") done ≡ codes "DONE: all green")
    × (normalize_body (codes "Claim: the parser") claim ≡ codes "Claim: the parser")
    × (stamp_actionable_body (codes "2026-01-02T03:04:05Z") (codes "DONE: x") done
        ≡ codes "DONE: x [@2026-01-02T03:04:05Z]")
    × (looks_like_expects_reply (codes "Can you look?") ≡ true)
unfolding infer_kind normalize_body stamp_actionable_body looks_like_expects_reply trim to_upper
    starts_with test test_ci
body_tests = (refl, refl, refl, refl, refl, refl)
