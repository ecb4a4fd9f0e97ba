-- ===== src/Message/InjectText.antt =====
-- packages/core/src/messages/mesh-inject-text.ts (`isSmInjectText`) and `isSuperviseStatusBroadcast`
-- of packages/core/src/messages/mesh-copy.ts.
use seat_mesh.Prelude.{
  ℕ, zero, suc, ◌≡◌, refl, Bool, true, false, ◌&&◌, ◌||◌, [], ◌∷◌, if◌then◌else◌, ◌==◌, leb,
}
use seat_mesh.Prelude.Text.{Text, codes, trim, trim_start}
use seat_mesh.Regex.{
  Re, seq, alt, star, at_start, boundary, unit, test, test_ci, lit, one_of, plus, space, none_of,
}

-- `t.replace(/^[^\n|]{1,40}\|\s*/, "")`: at most 40 units before the bar, and at least one.
after_bar : ℕ → Bool → Text → Text → Text
after_bar room seen whole [] = whole
after_bar zero seen whole (c ∷ s) = if c == b'|' && seen then trim_start s else whole
after_bar (suc room) seen whole (c ∷ s) =
    let on = after_bar room true whole s in
    if c == b'|' then (if seen then trim_start s else whole) else if c == 10 then whole else on

unfoldable pub drop_seat_prefix : Text → Text
unfolding after_bar trim_start
drop_seat_prefix t = after_bar 40 false t t

-- `\[sent:[a-z0-9]+\]` under the flag `i`
sent_stamp : Re
unfolding lit
sent_stamp = seq (lit (codes "[sent:")) (
    seq (plus (unit (λ c. (leb b'a' c && leb c b'z') || (leb b'0' c && leb c b'9'))))
      (lit (codes "]")))

from_stamp : Re
unfolding lit
from_stamp = seq at_start (
    seq (lit (codes "[from:")) (
      seq (plus (none_of b']'))
        (seq (lit (codes " to:")) (seq (plus (none_of b']')) (lit (codes "]"))))))

mesh_openings : Re
unfolding one_of lit
mesh_openings = seq at_start (
    alt
      (one_of (
        codes "[agent-manager"
        ∷ codes "[mesh-inbox"
        ∷ codes "[mesh-peer]"
        ∷ codes "[mesh-secretary]"
        ∷ codes "[agent-worker-slot-"
        ∷ codes "[agent-mini-"
        ∷ codes "FRESH SUMMON"
        ∷ codes "SUPERVISE"
        ∷ codes "SECRETARY-DIGEST"
        ∷ []))
      (seq (one_of (codes "[remote" ∷ codes "ASSIGN" ∷ codes "Check:" ∷ [])) space))

digest_tag : Re
unfolding lit
digest_tag =
    seq (lit (codes "[mesh-inbox]")) (seq (plus space) (seq (lit (codes "DIGEST")) boundary))

unfoldable pub is_sm_inject_text : Text → Bool
unfolding trim drop_seat_prefix sent_stamp from_stamp mesh_openings digest_tag test test_ci
is_sm_inject_text text =
    let t = trim text in
    let stripped = drop_seat_prefix t in
    let either = λ (r : Re). test r t || test r stripped in
    either from_stamp || either mesh_openings || test_ci sent_stamp t || either digest_tag

status_marks : Re
unfolding lit
status_marks = alt (seq at_start (seq (lit (codes "status")) boundary)) (
    alt (seq (lit (codes "supervise-status")) boundary) (
      alt
        (seq (lit (codes "[mesh-inbox-room]")) (
          seq (star (none_of 10))
            (seq (lit (codes "|")) (seq (star space) (seq (lit (codes "status")) boundary)))))
        (seq (unit (λ c. c == 10)) (seq (lit (codes "status")) boundary))))

-- Called with no `kind` by the peer drain.
unfoldable pub is_supervise_status_broadcast : Text → Bool
unfolding trim status_marks test_ci
is_supervise_status_broadcast body = test_ci status_marks (trim body)

inject_text_tests :
    (is_sm_inject_text (codes "mini-3 | [mesh-inbox] DIGEST 2 mail") ≡ true)
    × (is_sm_inject_text (codes "[from:manager to:slot-2] go") ≡ true)
    × (is_sm_inject_text (codes "please fix the build") ≡ false)
    × (is_sm_inject_text (codes "text [Sent:A1b2]") ≡ true)
    × (is_supervise_status_broadcast (codes "[mesh-inbox-room] x | STATUS ok") ≡ true)
    × (is_supervise_status_broadcast (codes "statuses") ≡ false)
unfolding is_sm_inject_text is_supervise_status_broadcast
inject_text_tests = (refl, refl, refl, refl, refl, refl)
