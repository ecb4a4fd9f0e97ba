-- ===== src/Room/Files/Append.antt =====
-- Speaking in a room.
use seat_mesh.Prelude.{
  ℕ, ◌≡◌, refl, ◌∙◌, sym, false, none, some, Option, List, [], ◌∷◌, ◌++◌, arith, if◌then◌else◌,
  is_some, or_else, ◌⊎◌, inl, inr, Bool-cases, Option-cases,
}
use seat_mesh.Prelude.Text.{Text, text_eq, text_eq_iff}
use seat_mesh.Prelude.Dict.{lookup, put}
use seat_mesh.Room.{RoomProfile, RoomMessage}
use seat_mesh.Room.Files.{
  RoomDir, Rooms, RoomError, room_at, global_input, ensure_global_room, ensured, ensured_from,
  load_room_profile, create_room, rooms_of, append_message, append_to, say_in_room, is_valid, Say,
  message_of, new_message, is_reserved,
}
use seat_mesh.Room.Body.{infer_kind}
use seat_mesh.Room.Files.Lifecycle.{
  room_at-put, Created, was_reserved, was_there, was_created, create_room_outcome,
}

-- The messages that a room shows.
abbrev pub messages : Rooms → Text → List RoomMessage
messages rooms slug = or_else (room_at rooms slug).log []

global_is_free : (g : Text) → is_reserved g (global_input g) ≡ false
unfolding is_reserved
global_is_free g = ground arith

Created-messages :
    (g : Text) (rooms : Rooms) (now : ℕ) (rooms' : Rooms) (p : RoomProfile)
    (c : RoomError ⊎ (Rooms × RoomProfile))
    → Created g rooms (global_input g) now c
    → c ≡ inr (rooms', p)
    → (other : Text) → messages rooms' other ≡ messages rooms other
Created-messages g rooms now rooms' p c (was_reserved r) e other = absurd (ground arith)
Created-messages g rooms now rooms' p c (was_there r l) e other = absurd (ground arith)
Created-messages g rooms now rooms' p c (was_created r₁ f n at) e other =
    let same : r₁ ≡ rooms' = ground arith in
    rw (sym same, at other)
      (elim (Bool-cases (text_eq g other)) [
        | inl t ↦ rw (t, sym ((text_eq_iff g other).0 t), n) refl
        | inr u ↦ rw u refl
      ])

from_keeps :
    (g : Text) (rooms : Rooms) (now : ℕ) (rooms' : Rooms) (p : RoomProfile)
    (loaded : RoomError ⊎ Option RoomProfile)
    → ensured_from rooms (create_room g rooms (global_input g) now) loaded ≡ inr (rooms', p)
    → (other : Text) → messages rooms' other ≡ messages rooms other
unfolding ensured_from
from_keeps g rooms now rooms' p (inl x) e other = absurd (ground arith)
from_keeps g rooms now rooms' p (inr none) e other =
    Created-messages g rooms now rooms' p _ (create_room_outcome g rooms (global_input g) now) e
      other
from_keeps g rooms now rooms' p (inr (some q)) e other =
    let same : rooms ≡ rooms' = ground arith in rw same refl

ensure_keeps :
    (g : Text) (rooms : Rooms) (now : ℕ) (rooms' : Rooms) (p : RoomProfile)
    → ensure_global_room g rooms now ≡ inr (rooms', p)
    → (other : Text) → messages rooms' other ≡ messages rooms other
unfolding ensure_global_room
ensure_keeps g rooms now rooms' p e other =
    from_keeps g rooms now rooms' p
      (if is_some (room_at rooms g).log then load_room_profile (room_at rooms g) else inr none) e
      other

ensured_keeps :
    (g : Text) (rooms : Rooms) (slug : Text) (now : ℕ) (rooms' : Rooms)
    → ensured g rooms slug now ≡ inr rooms'
    → (other : Text) → messages rooms' other ≡ messages rooms other
unfolding ensured
ensured_keeps g rooms slug now rooms' e other = elim (Bool-cases (text_eq slug g)) [
  | inl t ↦ go (ensure_global_room g rooms now) refl (rw t at e)
  | inr f ↦
      let e' : ◌≡◌ {A = RoomError ⊎ Rooms} (inr rooms) (inr rooms') = rw f at e in
      let same : rooms ≡ rooms' = ground arith in rw same refl
]
  where
    go :
        (c : RoomError ⊎ (Rooms × RoomProfile))
        → ensure_global_room g rooms now ≡ c
        → rooms_of c ≡ inr rooms'
        → messages rooms' other ≡ messages rooms other
    go (inl x) c h = absurd (ground arith)
    go (inr (r₁, p)) c h =
        let same : r₁ ≡ rooms' = ground arith in
        ensure_keeps g rooms now rooms' p (rw same at c) other

appended :
    (rooms : Rooms) (slug : Text) (dir : RoomDir) (message : RoomMessage)
    → room_at rooms slug ≡ dir
    → let dir' : RoomDir = record dir { log = some (or_else dir.log [] ++ message ∷ []) } in
      (other : Text)
      → messages (put slug dir' rooms) other
        ≡ (if text_eq slug other then messages rooms slug ++ message ∷ [] else messages rooms other)
appended rooms slug dir message here other =
    let dir' : RoomDir = record dir { log = some (or_else dir.log [] ++ message ∷ []) } in
    rw (room_at-put rooms slug other dir', here)
      (elim (Bool-cases (text_eq slug other)) [ inl t ↦ rw t refl | inr f ↦ rw f refl ])

append_message_appends :
    (rooms : Rooms) (slug : Text) (message : RoomMessage) (rooms' : Rooms)
    → append_message rooms slug message ≡ inr rooms'
    → (other : Text)
    → messages rooms' other
      ≡ (if text_eq slug other then messages rooms slug ++ message ∷ [] else messages rooms other)
unfolding append_message room_at
append_message_appends rooms slug message rooms' e other = elim (Option-cases (lookup slug rooms)) [
  | inl n ↦ absurd (ground arith)
  | inr (dir, s) ↦ elim (Bool-cases (is_valid message)) [
    | inr f ↦ absurd (ground arith)
    | inl t ↦
        let dir' : RoomDir = record dir { log = some (or_else dir.log [] ++ message ∷ []) } in
        let e' : ◌≡◌ {A = RoomError ⊎ Rooms} (inr (put slug dir' rooms)) (inr rooms') =
          rw (s, append_message, t) at e in
        let same : put slug dir' rooms ≡ rooms' = ground arith in
        rw (sym same) (appended rooms slug dir message (rw (s, room_at) refl) other)
  ]
]

append_to_appends :
    (rooms : Rooms) (c : RoomError ⊎ Rooms) (slug : Text) (message : RoomMessage) (rooms' : Rooms)
    → ((r : Rooms) → c ≡ inr r → (other : Text) → messages r other ≡ messages rooms other)
    → append_to c slug message ≡ inr rooms'
    → (other : Text)
    → messages rooms' other
      ≡ (if text_eq slug other then messages rooms slug ++ message ∷ [] else messages rooms other)
unfolding append_to
append_to_appends rooms (inl x) slug message rooms' k e other = absurd (ground arith)
append_to_appends rooms (inr r) slug message rooms' k e other =
    append_message_appends r slug message rooms' e other ∙ rw (k r refl slug, k r refl other) refl

-- Where speaking in a room succeeds, the message, of the kind that was given or that its body shows,
-- stands after those that the room showed before, and every other room shows the messages that it
-- showed.
pub say_in_room_appends :
    (global_slug : Text) (rooms : Rooms) (id stamp : Text) (now : ℕ) (say : Say) (rooms' : Rooms)
    → say_in_room global_slug rooms id stamp now say ≡ inr rooms'
    → (other : Text)
    → (messages rooms' other ≡ (
        if text_eq say.slug other
        then messages rooms say.slug ++ message_of id stamp now say ∷ []
        else messages rooms other))
      × ((message_of id stamp now say).kind ≡ or_else say.kind (infer_kind say.body))
unfolding say_in_room message_of new_message
say_in_room_appends global_slug rooms id stamp now say rooms' e other = (
  append_to_appends rooms (ensured global_slug rooms say.slug now) say.slug
      (message_of id stamp now say) rooms' (λ r h. ensured_keeps global_slug rooms say.slug now r h)
      e other,
  refl,
)
