-- ===== src/Message/AckClass.antt =====
-- packages/core/src/messages/ack-class.ts: mail that owes no answer. Patterns under the flag `i`
-- are written in lower case.
use seat_mesh.Prelude.{
  ℕ, zero, suc, ◌≡◌, refl, Bool, true, false, not, ◌&&◌, ◌||◌, [], ◌∷◌, if◌then◌else◌, ◌==◌,
}
use seat_mesh.Prelude.Text.{Text, codes, text_eq, trim, trim_start}
use seat_mesh.Regex.{
  Re, seq, alt, star, at_start, at_end, boundary, unit, test, test_ci, lit, one_of, maybe, digit,
  space,
}

-- What follows `^\[[^\]]+\]\s*`, or the text itself where that does not match: the units up to the
-- first closing bracket, of which there is at least one.
after_bracket : Bool → Text → Text → Text
after_bracket seen whole [] = whole
after_bracket seen whole (c ∷ s) =
    let on = after_bracket true whole s in
    if c == b']' then (if seen then trim_start s else whole) else on

unfoldable pub drop_stamp : Text → Text
unfolding after_bracket trim_start
drop_stamp [] = []
drop_stamp (c ∷ s) = if c == b'[' then after_bracket false (c ∷ s) s else c ∷ s

strip_rounds : ℕ → Text → Text
unfolding drop_stamp trim text_eq
strip_rounds zero body = body
strip_rounds (suc n) body =
    let next = trim (drop_stamp body) in
    let on = strip_rounds n next in if text_eq next body then body else on

unfoldable pub strip_peer_stamps : Text → Text
unfolding strip_rounds
strip_peer_stamps msg = strip_rounds 8 (trim msg)

ask_phrases : Re
unfolding one_of
ask_phrases = seq boundary (
    seq
      (alt
        (one_of (
          codes "please"
          ∷ codes "pls"
          ∷ codes "need you"
          ∷ codes "need manager"
          ∷ codes "need secretary"
          ∷ codes "should i"
          ∷ codes "can you"
          ∷ codes "could you"
          ∷ codes "tell me to"
          ∷ codes "tell me what"
          ∷ codes "awaiting your"
          ∷ codes "awaiting manager"
          ∷ []))
        (one_of (
          codes "waiting on you"
          ∷ codes "waiting on manager"
          ∷ codes "waiting on secretary"
          ∷ codes "what should i"
          ∷ codes "what do i"
          ∷ [])))
      boundary)

unfoldable pub looks_like_ask : Text → Bool
unfolding ask_phrases test test_ci lit
looks_like_ask body =
    test (seq (lit (codes "?")) (seq (star space) at_end)) body || test_ci ask_phrases body

-- `^(ACK|FYI|…)`
lead_tokens : Re
unfolding one_of lit
lead_tokens = seq at_start (
    alt
      (one_of (
        codes "ack"
        ∷ codes "fyi"
        ∷ codes "stand-by"
        ∷ codes "standby"
        ∷ codes "busy"
        ∷ codes "mcp-synced"
        ∷ codes "mcpsynced"
        ∷ codes "checkback?"
        ∷ []))
      (seq
        (alt
          (one_of (
            codes "open" ∷ codes "inbox" ∷ codes "verify" ∷ codes "continue" ∷ codes "report" ∷ []))
          (seq (lit (codes "mini"))
            (seq (maybe (lit (codes "-"))) (one_of (codes "done" ∷ codes "task" ∷ [])))))
        boundary))

progress_tokens : Re
unfolding one_of
progress_tokens = seq at_start (
    seq
      (one_of (
        codes "prog"
        ∷ codes "proved"
        ∷ codes "done"
        ∷ codes "claimed"
        ∷ codes "status"
        ∷ codes "update"
        ∷ codes "wip"
        ∷ codes "progress"
        ∷ codes "blocked"
        ∷ []))
      boundary)

closing_tokens : Re
unfolding one_of
closing_tokens = seq at_start (
    alt (one_of (codes "noted" ∷ codes "thanks" ∷ codes "thank you" ∷ codes "ack received" ∷ [])) (
      seq
        (one_of (codes "closing" ∷ codes "got it" ∷ codes "ok" ∷ codes "pass" ∷ codes "fail" ∷ []))
        boundary))

pass_word : Re
unfolding lit
pass_word = seq boundary (seq (lit (codes "PASS")) boundary)

prove_words : Re
unfolding one_of lit
prove_words = seq boundary (
    alt
      (seq (lit (codes "pass"))
        (seq (star space) (unit (λ c. c == 0x2014 || c == b':' || c == b'-'))))
      (alt (one_of (codes "chrome" ∷ codes "logs" ∷ codes "prove" ∷ []))
        (seq (one_of (codes "item" ∷ codes "part" ∷ [])) (seq (star space) digit))))

progress_words : Re
unfolding one_of
progress_words = seq boundary (
    seq
      (one_of (
        codes "prog"
        ∷ codes "proved"
        ∷ codes "done"
        ∷ codes "claimed"
        ∷ codes "wip"
        ∷ codes "in progress"
        ∷ codes "finished"
        ∷ codes "completed"
        ∷ codes "pushed"
        ∷ codes "merged"
        ∷ codes "blocked on"
        ∷ []))
      boundary)

-- The tests of `isAckClassPeer` after the stamps are gone, in order.
unfoldable pub is_ack_class_body : Text → Bool
unfolding looks_like_ask lead_tokens progress_tokens closing_tokens pass_word prove_words
    progress_words test test_ci
is_ack_class_body [] = false
is_ack_class_body (c ∷ s) =
    let body = c ∷ s in
    if test_ci lead_tokens body
    then true
    else if test_ci progress_tokens body
    then not (looks_like_ask body)
    else if test_ci closing_tokens body
    then true
    else if test pass_word body && test_ci prove_words body
    then true
    else not (looks_like_ask body) && test_ci progress_words body

unfoldable pub is_ack_class_peer : Text → Bool
unfolding strip_peer_stamps is_ack_class_body
is_ack_class_peer msg = is_ack_class_body (strip_peer_stamps msg)

ack_class_tests :
    (is_ack_class_peer (codes "[from:a to:b] [sent:x1] ACK: got it") ≡ true)
    × (is_ack_class_peer (codes "DONE item 3, should I merge") ≡ false)
    × (is_ack_class_peer (codes "DONE item 3") ≡ true)
    × (is_ack_class_peer (codes "please review the branch") ≡ false)
    × (is_ack_class_peer (codes "the fix is merged") ≡ true)
    × (is_ack_class_peer (codes "  ") ≡ false)
unfolding is_ack_class_peer
ack_class_tests = (refl, refl, refl, refl, refl, refl)
