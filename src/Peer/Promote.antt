-- ===== src/Peer/Promote.antt =====
-- `promotePeerBacklog` of packages/daemon/src/peer/peer-backlog.ts: parked rows go back to the
-- queue of an idle pane. What the tmux package and the provider registry see of a pane is an
-- argument, `PaneLook`; the test of the delivery hold is its answer alone, since the entry that it
-- may drop is over.
pub mod Account
pub mod Unparked
pub mod Panes
pub mod Settled
use seat_mesh.Prelude.{
  ℕ, suc, ◌+◌, Bool, true, false, not, ◌&&◌, ◌||◌, Option, none, some, List, [], ◌∷◌, ◌++◌,
  if◌then◌else◌, or_else, filter, any, modify_first, take, drop,
}
use seat_mesh.Prelude.Text.{Text, codes, text_eq}
use seat_mesh.Prelude.Dict.{Dict, lookup, put}
use seat_mesh.Prelude.Sort.{sort}
use seat_mesh.Regex.{Re, alt, seq, boundary, lit, test, test_ci}
use seat_mesh.Composer.{ComposerState, Phase, empty, typing, busy, afk, limit, plain_shell}
use seat_mesh.Message.AckClass.{is_ack_class_peer}
use seat_mesh.Message.SentToken.{peer_sent_token}
use seat_mesh.Store.Rows.{PeerRow, idle, skipped, opt_is, is_peer_delivered}
use seat_mesh.Store.Peers.{read_peer}
use seat_mesh.Peer.Skip.{is_thin_room_unseen_ping}
use seat_mesh.Peer.Bulk.{peer_bulk_max}
use seat_mesh.Peer.Backlog.{
  BacklogRow, PeerStore, parked_first, write_backlog, reconcile_backlog_orphans, replace_or_push,
  finalize_already_injected, is_injected,
}

-- A capture of the pane with the provider that was detected, and the pane's status banner.
pub record PaneLook : Type 0 where
  pub provider_id : Text
  pub state : ComposerState
  pub capture_tail : Text
  pub mark : Text

follow_up_text : Re
unfolding lit
follow_up_text = alt (lit (codes "Add a follow-up")) (lit (codes "ctrl+c to stop"))

follow_up_in : PaneLook → Bool
unfolding follow_up_text test text_eq
follow_up_in l =
    if not (text_eq l.provider_id (codes "cursor-agent"))
      && not (text_eq l.provider_id (codes "agent"))
    then false
    else opt_is l.state.busy_label (codes "follow-up") || test follow_up_text l.capture_tail

-- `none`: no capture, or no provider was detected.
unfoldable pub cursor_follow_up_open : Option PaneLook → Bool
unfolding follow_up_in
cursor_follow_up_open none = false
cursor_follow_up_open (some l) = follow_up_in l

word_in : Text → Text → Bool
unfolding lit test_ci
word_in w s = test_ci (seq boundary (seq (lit w) boundary)) s

-- The tests after the banner's.
idle_phase : Phase → PaneLook → Bool
unfolding follow_up_in
idle_phase typing l = false
idle_phase busy l = false
idle_phase empty l = true
idle_phase afk l = true
idle_phase phase l = follow_up_in l

looks_idle : Bool → Bool → PaneLook → Bool
unfolding word_in idle_phase
looks_idle skip_gate held l =
    if skip_gate
    then true
    else if held
    then false
    else if word_in (codes "typing") l.mark
    then false
    else if word_in (codes "busy") l.mark && not (follow_up_in l)
    then false
    else idle_phase l.state.phase l

unfoldable pub pane_idle_for_promote : Bool → Bool → Option PaneLook → Bool
unfolding looks_idle
pane_idle_for_promote skip_gate held none = false
pane_idle_for_promote skip_gate held (some l) = elim l.state.phase [
  | plain_shell ↦ false
  | limit ↦ false
  | _ ↦ looks_idle skip_gate held l
]

-- The variables of the loop.
pub record Promotion : Type 0 where
  pub peer : List PeerRow
  pub tokens : List Text
  pub kept : List BacklogRow
  pub promoted : ℕ
  pub dropped : ℕ
  pub peer_dirty : Bool

abbrev pub has_token : List Text → Option Text → Bool
has_token tokens none = false
has_token tokens (some t) = any (λ u. text_eq u t) tokens

abbrev pub add_token : Option Text → List Text → List Text
add_token none tokens = tokens
add_token (some t) tokens = t ∷ tokens

abbrev thin_skipped : ℕ → PeerRow → PeerRow
thin_skipped now r = record r {
  sent = true;
  sent_at = some (or_else r.sent_at now);
  deliver_pane = some skipped;
  deliver_mode = some idle;
}

-- One row: pasted before, dropped as a thin ping, or still waiting.
unfoldable pub strip_row : ℕ → Promotion → BacklogRow → Promotion × Bool
strip_row now p e =
    let tok = peer_sent_token e.row.msg in
    let here = λ (r : PeerRow). text_eq r.id e.row.id in
    if is_injected e.row || has_token p.tokens tok
    then (
      record p {
        peer = finalize_already_injected p.peer e.row now;
        dropped = suc p.dropped;
        peer_dirty = true;
        tokens = add_token tok p.tokens;
      },
      false,
    )
    else if is_thin_room_unseen_ping e.row
    then (
      record p {
        peer = modify_first here (thin_skipped now) p.peer;
        dropped = suc p.dropped;
        peer_dirty = p.peer_dirty || any here p.peer;
      },
      false,
    )
    else (p, true)

unfoldable pub strip_rows : ℕ → Promotion → List BacklogRow → Promotion × List BacklogRow
strip_rows now p [] = (p, [])
strip_rows now p (e ∷ es) =
    let (p', waits) = strip_row now p e in
    let (p'', still) = strip_rows now p' es in (p'', if waits then e ∷ still else still)

abbrev pub revived : PeerRow → PeerRow
revived row = record row { sent = false; sent_at = none; deliver_pane = none; deliver_mode = none }

unfoldable pub revive : Promotion → List BacklogRow → Promotion
revive p [] = p
revive p (e ∷ es) =
    revive
      (record p {
        peer = replace_or_push (revived e.row) p.peer;
        promoted = suc p.promoted;
        peer_dirty = true;
      })
      es

abbrev pub keep : Promotion → List BacklogRow → Promotion
keep p es = record p { kept = p.kept ++ es }

-- With a follow-up open only mail that owes no answer is taken.
unfoldable pub eligible_of : Bool → List BacklogRow → List BacklogRow
eligible_of follow still = if follow then filter (λ e. is_ack_class_peer e.row.msg) still else still

unfoldable pub rest_parked_of : Bool → List BacklogRow → List BacklogRow
rest_parked_of follow still =
    if follow then filter (λ e. not (is_ack_class_peer e.row.msg)) still else []

-- The rest of the loop's body, with the rows that still wait.
unfoldable pub promote_still : Bool → Bool → Promotion → List BacklogRow → Promotion
promote_still follow is_idle p [] = p
promote_still follow is_idle p (e ∷ es) =
    let still = e ∷ es in
    let eligible = eligible_of follow still in
    if not is_idle then keep p still else elim eligible [
      | [] ↦ keep p still
      | x ∷ xs ↦
          keep (revive p (take peer_bulk_max (x ∷ xs)))
            (drop peer_bulk_max (x ∷ xs) ++ rest_parked_of follow still)
    ]

module _ (look : Text → Option PaneLook) (held : Text → Bool) (skip_gate : Bool) (now : ℕ) where
  unfoldable pub promote_pane : Promotion → Text → List BacklogRow → Promotion
  promote_pane p pane rows =
      let (p', still) = strip_rows now p (sort parked_first rows) in
      promote_still (cursor_follow_up_open (look pane))
        (pane_idle_for_promote skip_gate (held pane) (look pane)) p' still

  unfoldable pub promote_panes : Promotion → Dict (List BacklogRow) → Promotion
  promote_panes p [] = p
  promote_panes p ((pane, rows) ∷ panes) = promote_panes (promote_pane p pane rows) panes

  unfoldable pub by_pane : List BacklogRow → Dict (List BacklogRow) → Dict (List BacklogRow)
  unfolding lookup put
  by_pane [] d = d
  by_pane (e ∷ es) d =
      by_pane es (put e.row.target_pane (or_else (lookup e.row.target_pane d) [] ++ e ∷ []) d)

  delivered_tokens : List PeerRow → List Text
  unfolding is_peer_delivered peer_sent_token
  delivered_tokens [] = []
  delivered_tokens (r ∷ rows) =
      let rest = delivered_tokens rows in
      if is_peer_delivered r then add_token (peer_sent_token r.msg) rest else rest

  unfoldable pub start : List PeerRow → Promotion
  unfolding delivered_tokens
  start peer = record {
    peer = peer;
    tokens = delivered_tokens peer;
    kept = [];
    promoted = 0;
    dropped = 0;
    peer_dirty = false;
  }

  -- The store afterwards and how many rows were promoted or dropped.
  unfoldable pub promote_peer_backlog : PeerStore → PeerStore × ℕ
  unfolding reconcile_backlog_orphans start by_pane promote_panes write_backlog read_peer
  promote_peer_backlog s =
      let s' = (reconcile_backlog_orphans s now).0 in
      let p = promote_panes (start (read_peer s'.peer_file)) (by_pane s'.backlog_file []) in
      elim s'.backlog_file [
        | [] ↦ (s', 0)
        | e ∷ es ↦ (
          record {
            peer_file = if p.peer_dirty then p.peer else s'.peer_file;
            backlog_file = write_backlog p.kept;
          },
          p.promoted + p.dropped,
        )
      ]
