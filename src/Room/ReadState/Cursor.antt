-- ===== src/Room/ReadState/Cursor.antt =====
-- Reading a room to its end, and the cooldown of the pings.
use seat_mesh.Prelude.{
  ℕ, ◌+◌, ◌≤◌, ◌<◌, ◌≡◌, refl, ◌∙◌, Bool, true, false, not, ◌&&◌, some, List, [], ◌∷◌, All, arith,
  count, length-filter, ltb, ◌==◌, or_else,
}
use seat_mesh.Prelude.Text.{Text, text_eq, is_truthy}
use seat_mesh.Prelude.Dict.{lookup, lookup-put_self}
use seat_mesh.Room.{RoomMessage}
use seat_mesh.Room.ReadState.{
  RoomReadState, no_cursor, is_unseen, count_unseen_messages, last_of, cursor_at, mark_room_read,
  should_skip_thin_room_notify, record_thin_room_notify,
}

-- A message of another agent, with the time of a given one and another id.
unfoldable pub is_twin : Text → RoomMessage → RoomMessage → Bool
is_twin agent l m = not (text_eq m.from agent) && m.ts == l.ts && not (text_eq m.id l.id)

unseen_after_last :
    (agent : Text) (l m : RoomMessage) (now : ℕ)
    → is_truthy l.id ≡ true
    → m.ts ≤ l.ts
    → is_unseen agent (cursor_at (some l) now) m ≡ is_twin agent l m
unfolding is_unseen is_twin
unseen_after_last agent l m now t h = ground arith

count_after_last :
    (agent : Text) (l : RoomMessage) (now : ℕ) (ms : List RoomMessage)
    → is_truthy l.id ≡ true
    → All (λ m. m.ts ≤ l.ts) ms
    → count (is_unseen agent (cursor_at (some l) now)) ms ≡ count (is_twin agent l) ms
count_after_last agent l now [] t h = refl
count_after_last agent l now (m ∷ ms) t (h, hs) =
    rw (unseen_after_last agent l m now t h, count_after_last agent l now ms t hs) refl

-- After an agent read a room to its last message, which has an id and the latest time of the log,
-- the messages that still count as unseen are those of other agents that carry the same time as
-- the last one under another id; a message appended later with a later time is unseen as well.
pub unseen_after_mark :
    (state : RoomReadState) (ms : List RoomMessage) (l : RoomMessage) (agent : Text) (now : ℕ)
    → last_of ms ≡ some l
    → is_truthy l.id ≡ true
    → All (λ m. m.ts ≤ l.ts) ms
    → (new : RoomMessage) → text_eq new.from agent ≡ false
    → l.ts < new.ts
    → let (state', _) = mark_room_read state ms agent now in
      (count_unseen_messages ms agent (lookup agent state') ≡ count (is_twin agent l) ms)
      × (is_unseen agent (or_else (lookup agent state') no_cursor) new ≡ true)
unfolding mark_room_read count_unseen_messages is_unseen
unseen_after_mark state ms l agent now e t h new other late =
    let found = lookup-put_self agent (cursor_at (last_of ms) now) state in
    rw (found, e) (length-filter _ ms ∙ count_after_last agent l now ms t h, ground arith)

no_ping :
    (min_ms : ℕ) (state : RoomReadState) (agent : Text) (now : ℕ)
    → should_skip_thin_room_notify min_ms state agent 0 now ≡ true
unfolding should_skip_thin_room_notify
no_ping min_ms state agent now = refl

ping :
    (min_ms : ℕ) (state : RoomReadState) (agent : Text) (unseen unseen' at now : ℕ)
    → at ≤ now
    → should_skip_thin_room_notify min_ms
        (record_thin_room_notify state agent unseen at)
        agent
        (1 + unseen')
        now
      ≡ ltb now (at + min_ms)
unfolding should_skip_thin_room_notify record_thin_room_notify
ping min_ms state agent unseen unseen' at now h =
    rw
      (lookup-put_self agent
        (record (or_else (lookup agent state) no_cursor) {
          last_thin_notify_unseen = some unseen;
          last_thin_notify_at = some at;
        })
        state)
      (ground arith)

ping_after_read :
    (min_ms : ℕ) (state : RoomReadState) (agent : Text) (unseen now : ℕ) (ms : List RoomMessage)
    → should_skip_thin_room_notify min_ms
        (mark_room_read state ms agent now).0
        agent
        (1 + unseen)
        now
      ≡ false
unfolding should_skip_thin_room_notify mark_room_read
ping_after_read min_ms state agent unseen now ms =
    rw (lookup-put_self agent (cursor_at (last_of ms) now) state) (ground arith)

-- After a thin ping was recorded, a further one is skipped as long as the interval lasts, and at
-- any time when nothing is unseen; from the end of the interval on, one with something unseen is
-- not skipped. Reading the room ends the cooldown at once.
pub thin_ping_cools_down :
    (min_ms : ℕ) (state : RoomReadState) (agent : Text) (unseen unseen' at now : ℕ)
    (ms : List RoomMessage)
    → at ≤ now
    → let state' = record_thin_room_notify state agent unseen at in
      (should_skip_thin_room_notify min_ms state' agent 0 now ≡ true)
      × (should_skip_thin_room_notify min_ms state' agent (1 + unseen') now ≡ ltb now (at + min_ms))
      × (should_skip_thin_room_notify min_ms
            (mark_room_read state' ms agent now).0
            agent
            (1 + unseen')
            now
          ≡ false)
thin_ping_cools_down min_ms state agent unseen unseen' at now ms h = (
  no_ping min_ms _ agent now,
  ping min_ms state agent unseen unseen' at now h,
  ping_after_read min_ms _ agent unseen' now ms,
)
