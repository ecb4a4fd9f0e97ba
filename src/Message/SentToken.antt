-- ===== src/Message/SentToken.antt =====
-- `peerSentToken` of packages/daemon/src/store/jsonl-store.ts: the token of the first footer
-- `[sent:…]` under the flag `i`, in the case in which it stands.
use seat_mesh.Prelude.{
  ℕ, ◌+◌, ◌≡◌, refl, Bool, ◌&&◌, ◌||◌, Option, none, some, [], ◌∷◌, reverse, if◌then◌else◌, ◌==◌,
  leb,
}
use seat_mesh.Prelude.Text.{Text, codes}

is_token_unit : ℕ → Bool
is_token_unit c =
    (leb b'a' c && leb c b'z') || (leb b'A' c && leb c b'Z') || (leb b'0' c && leb c b'9')

-- `[a-z0-9]+\]`, with the units read so far in reverse. No token unit is a bracket.
token_tail : Text → Text → Option Text
unfolding is_token_unit
token_tail [] [] = none
token_tail (t ∷ acc) [] = none
token_tail [] (c ∷ s) = let on = token_tail (c ∷ []) s in if is_token_unit c then on else none
token_tail (t ∷ acc) (c ∷ s) =
    let on = token_tail (c ∷ t ∷ acc) s in
    if is_token_unit c then on else if c == b']' then some (reverse (t ∷ acc)) else none

-- The text after `[sent:`, where it stands here.
after_open : Text → Text → Option Text
after_open [] s = some s
after_open (p ∷ ps) [] = none
after_open (p ∷ ps) (c ∷ s) =
    let on = after_open ps s in
    if c == p || c + 32 == p && leb b'A' c && leb c b'Z' then on else none

unfoldable pub token_here : Text → Option Text
unfolding after_open token_tail
token_here s = elim (after_open (codes "[sent:") s) [ none ↦ none | some rest ↦ token_tail [] rest ]

unfoldable pub peer_sent_token : Text → Option Text
unfolding token_here
peer_sent_token [] = none
peer_sent_token (c ∷ s) = elim (token_here (c ∷ s)) [ none ↦ peer_sent_token s | some t ↦ some t ]

sent_token_tests :
    (peer_sent_token (codes "hi [Sent:a1B2] there [sent:zz]") ≡ some (codes "a1B2"))
    × (peer_sent_token (codes "hi [sent:] [sent:q") ≡ none)
unfolding peer_sent_token
sent_token_tests = (refl, refl)
