-- ===== src/Ack/Asks.antt =====
-- packages/daemon/src/ack/ack-open.ts: the rows that queued and delivered mail opens, with
-- resolveAgentId of packages/core/src/chatroom/agent-id.ts. What tmux knows of a pane is an
-- argument.
pub mod Once
use seat_mesh.Prelude.{
  ℕ, zero, suc, ◌+◌, ◌≡◌, refl, Bool, true, false, not, ◌&&◌, ◌||◌, Option, none, some, List, [],
  ◌∷◌, ◌++◌, if◌then◌else◌, ◌==◌, leb, or_else, length,
}
use seat_mesh.Prelude.Text.{
  Text, codes, text_eq, trim, to_lower, starts_with, includes, collapse_spaces, is_truthy,
}
use seat_mesh.Prelude.Decimal.{decimal, number_of}
use seat_mesh.Regex.{Re, seq, boundary, star, space, test_ci, lit, one_of, all_digits}
use seat_mesh.Message.AckClass.{is_ack_class_peer}
use seat_mesh.Message.SentToken.{token_here}
use seat_mesh.Store.Rows.{
  AckRow, AckOpenInput, AckSource, operator, inbox, peer, room, PeerRow, PeerKind, to_slot, to_mini,
  prompt, remind, ToMasterRow,
}
use seat_mesh.Ack.Algo.{trim_ask}
use seat_mesh.Ack.Ledger.Open.{open_ack}
use seat_mesh.Ack.Watch.{AckWatch, note_daemon_inject}

pub record MeshPaneMeta : Type 0 where
  pub role : Text
  pub slot : Text
  pub mini : Text

abbrev is_letter : ℕ → Bool
is_letter c = leb b'a' c && leb c b'z'

-- The letters at the front, and the rest.
abbrev span_letters : Text → Text × Text
span_letters [] = ([], [])
span_letters (c ∷ s) =
    let (a, b) = span_letters s in if is_letter c then (c ∷ a, b) else ([], c ∷ s)

-- The first of the aliases of a column with a hyphen in it.
unfoldable pub hyphen_column_id : Text → Text
unfolding trim to_lower includes all_digits
hyphen_column_id role =
    let t = to_lower (trim role) in
    let (a, b) = span_letters t in
    if includes (codes "-") t
    then t
    else if is_truthy a && all_digits b
    then a ++ codes "-" ++ b
    else role

-- `String(Number(slot))` of an option that is empty, digits, or a word.
unfoldable pub slot_text : Text → Text
unfolding all_digits number_of decimal
slot_text [] = codes "0"
slot_text (c ∷ s) = if all_digits (c ∷ s) then decimal (number_of (c ∷ s)) else codes "NaN"

unfoldable pub resolve_agent_id : MeshPaneMeta → Text
unfolding hyphen_column_id slot_text to_lower text_eq
resolve_agent_id meta =
    let role = to_lower meta.role in
    if text_eq role (codes "manager-mini") || text_eq role (codes "mini")
    then (if is_truthy meta.mini then codes "mini-" ++ meta.mini else codes "mini")
    else if text_eq role (codes "manager") || text_eq role (codes "master")
    then codes "manager"
    else if is_truthy role && not (text_eq role (codes "worker"))
    then hyphen_column_id role
    else codes "worker-" ++ slot_text meta.slot

-- The label where the pane has no role.
abbrev pub label_or_unknown : Text → Text
label_or_unknown label = if is_truthy (trim label) then trim label else codes "unknown"

unfoldable pub seat_for_pane : Option MeshPaneMeta → Text → Text
unfolding resolve_agent_id trim
seat_for_pane none label = label_or_unknown label
seat_for_pane (some meta) label =
    if is_truthy meta.role then resolve_agent_id meta else label_or_unknown label

-- `msg.replace(/\[sent:[a-z0-9]+\]/gi, "")`; `skip` units belong to the match before.
drop_sent : ℕ → Text → Text
unfolding token_here
drop_sent skip [] = []
drop_sent (suc skip) (c ∷ s) = drop_sent skip s
drop_sent zero (c ∷ s) =
    let on = drop_sent zero s in
    elim (token_here (c ∷ s)) [ none ↦ c ∷ on | some token ↦ drop_sent (length token + 6) s ]

-- `msg.replace(/\nLINE[^\n]*/g, "")`, for the lines whose start passes a test
drop_lines : (Text → Bool) → Bool → Text → Text
drop_lines starts inside [] = []
drop_lines starts inside (c ∷ s) =
    let within = drop_lines starts true s in
    let outside = drop_lines starts false s in
    if c == 10 && starts s then within else if inside && not (c == 10) then within else c ∷ outside

unfoldable pub ask_snippet_from_msg : Text → Text
unfolding drop_sent drop_lines starts_with to_lower trim_ask collapse_spaces
ask_snippet_from_msg msg =
    let t₁ = drop_sent 0 msg in
    let t₂ = drop_lines (starts_with (codes "SHELL (required")) false t₁ in
    let t₃ = drop_lines (starts_with (codes "Reply: peer")) false t₂ in
    let t₄ = drop_lines (λ s. starts_with (codes "reply: seatmesh") (to_lower s)) false t₃ in
    trim_ask (collapse_spaces t₄)

intent_re : Re
unfolding lit one_of
intent_re = seq boundary (
    seq (lit (codes "intent=")) (
      seq
        (one_of (
          codes "supervise-tick"
          ∷ codes "status"
          ∷ codes "continue"
          ∷ codes "checkback-verify"
          ∷ codes "ack-remind"
          ∷ codes "limit-retry"
          ∷ []))
        boundary))

mesh_ack_re : Re
unfolding lit
mesh_ack_re =
    seq (lit (codes "[mesh-inbox]"))
      (seq space (seq (star space) (seq (lit (codes "ack")) boundary)))

unfoldable pub is_substance_ask : Text → Bool
unfolding trim is_ack_class_peer intent_re mesh_ack_re test_ci
is_substance_ask msg =
    let t = trim msg in
    if not (is_truthy t)
    then false
    else if is_ack_class_peer t
    then false
    else if test_ci intent_re t
    then false
    else not (test_ci mesh_ack_re t)

-- The pane that the mail went to, or is meant for.
abbrev pub pane_of : PeerRow → Text
pane_of row = elim row.deliver_pane [
  | none ↦ row.target_pane
  | some pane ↦ if starts_with (codes "%") pane then pane else row.target_pane
]

abbrev trimmed_or : Option Text → Option Text → Option Text
trimmed_or none d = d
trimmed_or (some s) d = if is_truthy (trim s) then some (trim s) else d

unfoldable pub sender_of : PeerRow → Option Text
sender_of row = trimmed_or row.from_agent (elim row.kind [
  | room ↦ some row.from_slot
  | _ ↦ if is_truthy row.from_slot then some (codes "slot-" ++ row.from_slot) else none
])

abbrev source_of : PeerKind → AckSource
source_of room = room
source_of prompt = inbox
source_of remind = inbox
source_of _ = peer

abbrev no_seat : Text → Bool
no_seat seat = text_eq seat (codes "unknown") || text_eq seat (codes "plain")

-- What `openAckForPeerRow` passes to `openAck`, where it comes to that.
unfoldable pub peer_ask : (Text → Option MeshPaneMeta) → PeerRow → Option AckOpenInput
peer_ask meta row =
    let pane = pane_of row in
    let seat = seat_for_pane (meta pane) row.target_label in
    if not (is_substance_ask row.msg)
    then none
    else if not (starts_with (codes "%") pane)
    then none
    else if no_seat seat
    then none
    else some (record {
      seat = seat;
      pane_id = pane;
      source = source_of row.kind;
      ask = ask_snippet_from_msg row.msg;
      from = sender_of row;
      id = none;
      at = some row.at;
    })

unfoldable pub open_ack_for_peer_row :
    (Text → Option MeshPaneMeta) → List AckRow → PeerRow → Text → ℕ → List AckRow
open_ack_for_peer_row meta acks row fresh now = elim (peer_ask meta row) [
  | none ↦ acks
  | some input ↦ (open_ack acks input fresh now).0
]

abbrev truthy_or : Text → Option Text → Option Text
truthy_or from slot =
    if is_truthy from
    then some from
    else elim slot [ none ↦ none | some s ↦ if is_truthy s then some s else none ]

-- The secretary's lane, or else the manager's; the inject is noted for the pane's watch.
unfoldable pub open_ack_for_inbox_row :
    List AckRow → AckWatch → ToMasterRow → Bool → Text → Text → ℕ → List AckRow × AckWatch
open_ack_for_inbox_row acks w row to_secretary pane fresh now =
    if is_ack_class_peer row.msg
    then (acks, w)
    else if not (is_substance_ask row.msg)
    then (acks, w)
    else let input : AckOpenInput = record {
      seat = if to_secretary then codes "secretary" else codes "manager";
      pane_id = pane;
      source = inbox;
      ask = ask_snippet_from_msg row.msg;
      from = truthy_or row.from row.slot;
      id = none;
      at = some (or_else row.sent_at row.at);
    } in
      ((open_ack acks input fresh now).0, note_daemon_inject w pane now)

asks_tests :
    (ask_snippet_from_msg (codes "review it [sent:ab12] now\nReply: peer manager\nplease")
      ≡ codes "review it now please")
    × (is_substance_ask (codes "please review the branch") ≡ true)
    × (is_substance_ask (codes "[mesh] intent=status now") ≡ false)
    × (resolve_agent_id (record { role = codes "worker"; slot = codes "3"; mini = [] })
        ≡ codes "worker-3")
    × (resolve_agent_id (record { role = codes "lead2"; slot = []; mini = [] }) ≡ codes "lead-2")
unfolding ask_snippet_from_msg is_substance_ask resolve_agent_id trim collapse_spaces to_lower
asks_tests = (refl, refl, refl, refl, refl)
