-- ===== src/Room/ReadState.antt =====
-- packages/core/src/chatroom/read-state.ts: how far each agent has read a room, and the cooldown of
-- its thin pings. The file read-state.json is the state, a dictionary by agent; the room's log is
-- an argument.
pub mod Cursor
use seat_mesh.Prelude.{
  ℕ, ◌+◌, ◌-◌, Bool, true, false, not, ◌&&◌, ◌||◌, Option, none, some, List, [], ◌∷◌, reverse,
  if◌then◌else◌, ltb, leb, ◌==◌, filter, length, is_some, or_else,
}
use seat_mesh.Prelude.Text.{Text, codes, text_eq, trim, is_truthy}
use seat_mesh.Prelude.Dict.{Dict, lookup, put}
use seat_mesh.Room.{RoomMessage}

pub record AgentReadCursor : Type 0 where
  pub last_read_id : Option Text
  pub last_read_ts : Option ℕ
  pub last_thin_notify_unseen : Option ℕ
  pub last_thin_notify_at : Option ℕ

abbrev pub RoomReadState : Type 0
RoomReadState = Dict AgentReadCursor

abbrev pub no_cursor : AgentReadCursor
no_cursor = record {
  last_read_id = none;
  last_read_ts = none;
  last_thin_notify_unseen = none;
  last_thin_notify_at = none;
}

abbrev later_than : ℕ → Option ℕ → Bool
later_than ts none = false
later_than ts (some t) = ltb t ts

abbrev same_time : ℕ → Option ℕ → Bool
same_time ts none = false
same_time ts (some t) = ts == t

abbrev other_id : Text → Option Text → Bool
other_id id none = false
other_id id (some k) = is_truthy k && not (text_eq id k)

abbrev has_id : Option Text → Bool
has_id none = false
has_id (some k) = is_truthy k

-- The test of `countUnseenMessages`. An instant is never the empty string, so that a cursor without
-- a time equals no message's.
unfoldable pub is_unseen : Text → AgentReadCursor → RoomMessage → Bool
is_unseen agent c m =
    if text_eq m.from agent
    then false
    else if later_than m.ts c.last_read_ts
    then true
    else if other_id m.id c.last_read_id && same_time m.ts c.last_read_ts
    then true
    else not (is_some c.last_read_ts) && not (has_id c.last_read_id)

unfoldable pub count_unseen_messages : List RoomMessage → Text → Option AgentReadCursor → ℕ
unfolding is_unseen
count_unseen_messages messages agent cursor =
    length (filter (is_unseen agent (or_else cursor no_cursor)) messages)

-- Latest sender that is not `self`, from the end of the log.
find_from : Text → List RoomMessage → Option Text
unfolding trim
find_from self [] = none
find_from self (m ∷ ms) =
    let from = trim m.from in
    let rest = find_from self ms in
    if is_truthy from && not (text_eq from self) then some from else rest

unfoldable pub last_inbound_room_from : List RoomMessage → Text → Option Text
unfolding find_from trim
last_inbound_room_from messages exclude_from = find_from (trim exclude_from) (reverse messages)

-- `messages.at(-1)`
abbrev pub last_of {ℓ} : {A : Type ℓ} → List A → Option A
last_of [] = none
last_of (x ∷ xs) = some (or_else (last_of xs) x)

abbrev pub cursor_at : Option RoomMessage → ℕ → AgentReadCursor
cursor_at none now = record no_cursor { last_read_ts = some now }
cursor_at (some m) now = record no_cursor { last_read_id = some m.id; last_read_ts = some m.ts }

-- The state afterwards, and how many messages were unseen.
unfoldable pub mark_room_read : RoomReadState → List RoomMessage → Text → ℕ → RoomReadState × ℕ
unfolding count_unseen_messages lookup put
mark_room_read state messages agent now = (
  put agent (cursor_at (last_of messages) now) state,
  count_unseen_messages messages agent (lookup agent state),
)

unfoldable pub should_skip_thin_room_notify : ℕ → RoomReadState → Text → ℕ → ℕ → Bool
unfolding lookup
should_skip_thin_room_notify min_ms state agent unseen now =
    if unseen == 0
    then true
    else elim (or_else (lookup agent state) no_cursor).last_thin_notify_at [
      | none ↦ false
      | some at ↦ if ltb now at then false else ltb (now - at) min_ms
    ]

unfoldable pub record_thin_room_notify : RoomReadState → Text → ℕ → ℕ → RoomReadState
unfolding lookup put
record_thin_room_notify state agent unseen now =
    put agent
      (record (or_else (lookup agent state) no_cursor) {
        last_thin_notify_unseen = some unseen;
        last_thin_notify_at = some now;
      })
      state
