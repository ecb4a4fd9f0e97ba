-- ===== src/Room/Files.antt =====
-- packages/core/src/chatroom/room.ts: the directories of the rooms, each with its profile file and
-- its log. The state is the dictionary of the directories; a throw is an error value. The global
-- slug of the configuration is an argument, like a message's id and the time's ISO form.
pub mod Lifecycle
pub mod Append
use seat_mesh.Prelude.{
  ℕ, Bool, true, false, not, ◌&&◌, ◌||◌, Option, none, some, List, [], ◌∷◌, ◌++◌, if◌then◌else◌,
  is_some, or_else, or_option, ◌⊎◌, inl, inr,
}
use seat_mesh.Prelude.Text.{Text, codes, text_eq, is_truthy}
use seat_mesh.Prelude.Dict.{Dict, lookup, put}
use seat_mesh.Room.{RoomKind, global, contract, RoomProfile, RoomMessage, RoomMessageKind}
use seat_mesh.Room.Body.{infer_kind, normalize_body, stamp_actionable_body}

pub record RoomDir : Type 0 where
  pub profile : Option RoomProfile
  pub log : Option (List RoomMessage)

abbrev pub Rooms : Type 0
Rooms = Dict RoomDir

pub data RoomError : Type 0 where
  reserved already_exists not_found invalid bad_profile : RoomError

pub record CreateRoomInput : Type 0 where
  pub slug : Text
  pub created_by : Text
  pub kind : Option RoomKind
  pub scope : Option Text
  pub members : Option (List Text)
  pub lead : Option Text
  pub leads : Option (List Text)
  pub supervisor : Option Text

-- The directory of a slug, empty where there is none.
unfoldable pub room_at : Rooms → Text → RoomDir
room_at rooms slug = or_else (lookup slug rooms) (record { profile = none; log = none })

-- `RoomProfileSchema.parse` of a profile that was read: its slug and creator are not empty.
abbrev pub is_valid_profile : RoomProfile → Bool
is_valid_profile p = is_truthy p.slug && is_truthy p.created_by

unfoldable pub load_room_profile : RoomDir → RoomError ⊎ Option RoomProfile
load_room_profile dir = elim dir.profile [
  | none ↦ inr none
  | some p ↦ if is_valid_profile p then inr (some p) else inl bad_profile
]

abbrev is_global : RoomKind → Bool
is_global global = true
is_global contract = false

abbrev pub kind_of : CreateRoomInput → RoomKind
kind_of input = or_else input.kind contract

-- The slug of the global room belongs to it.
unfoldable pub is_reserved : Text → CreateRoomInput → Bool
is_reserved global_slug input = text_eq input.slug global_slug && not (is_global (kind_of input))

unfoldable pub new_profile : CreateRoomInput → ℕ → RoomProfile
new_profile input now = record {
  slug = input.slug;
  kind = kind_of input;
  created_at = now;
  created_by = input.created_by;
  scope = input.scope;
  members = or_else input.members [];
  lead = input.lead;
  leads = input.leads;
  lead_workers = none;
  supervisor = input.supervisor;
}

unfoldable pub create_room : Text → Rooms → CreateRoomInput → ℕ → RoomError ⊎ (Rooms × RoomProfile)
create_room global_slug rooms input now =
    if is_reserved global_slug input
    then inl reserved
    else if is_some (room_at rooms input.slug).log
    then inl already_exists
    else let profile = new_profile input now in
      inr (put input.slug (record { profile = some profile; log = some [] }) rooms, profile)

-- Where a profile exists, what the input leaves open comes from it.
unfoldable pub merged_profile : CreateRoomInput → Option RoomProfile → ℕ → RoomProfile
unfolding new_profile
merged_profile input none now = new_profile input now
merged_profile input (some old) now = record {
  slug = input.slug;
  kind = kind_of input;
  created_at = old.created_at;
  created_by = old.created_by;
  scope = or_option input.scope old.scope;
  members = or_else input.members old.members;
  lead = or_option input.lead old.lead;
  leads = or_option input.leads old.leads;
  lead_workers = none;
  supervisor = or_option input.supervisor old.supervisor;
}

-- The rest of `upsertContractRoom`, once the profile was loaded.
unfoldable pub refresh :
    Rooms → CreateRoomInput → ℕ → RoomError ⊎ Option RoomProfile → RoomError ⊎ (Rooms × RoomProfile)
refresh rooms input now (inl e) = inl e
refresh rooms input now (inr existing) =
    let profile = merged_profile input existing now in
    let dir' : RoomDir = record {
      profile = some profile;
      log = some (or_else (room_at rooms input.slug).log []);
    } in
    inr (put input.slug dir' rooms, profile)

unfoldable pub upsert_contract_room :
    Text → Rooms → CreateRoomInput → ℕ → RoomError ⊎ (Rooms × RoomProfile)
upsert_contract_room global_slug rooms input now =
    if is_reserved global_slug input
    then inl reserved
    else refresh rooms input now (load_room_profile (room_at rooms input.slug))

abbrev pub global_input : Text → CreateRoomInput
global_input global_slug = record {
  slug = global_slug;
  created_by = codes "system";
  kind = some global;
  scope = some (codes "All tmux agents (implicit membership)");
  members = none;
  lead = none;
  leads = none;
  supervisor = some (codes "secretary");
}

-- `fresh` is the room that is created where no profile was loaded.
unfoldable pub ensured_from :
    Rooms
    → RoomError ⊎ (Rooms × RoomProfile)
    → RoomError ⊎ Option RoomProfile
    → RoomError ⊎ (Rooms × RoomProfile)
ensured_from rooms fresh (inl e) = inl e
ensured_from rooms fresh (inr none) = fresh
ensured_from rooms fresh (inr (some existing)) = inr (rooms, existing)

unfoldable pub ensure_global_room : Text → Rooms → ℕ → RoomError ⊎ (Rooms × RoomProfile)
ensure_global_room global_slug rooms now =
    let dir = room_at rooms global_slug in
    ensured_from rooms (create_room global_slug rooms (global_input global_slug) now)
      (if is_some dir.log then load_room_profile dir else inr none)

abbrev pub rooms_of : RoomError ⊎ (Rooms × RoomProfile) → RoomError ⊎ Rooms
rooms_of (inl e) = inl e
rooms_of (inr (rooms, profile)) = inr rooms

-- The rooms after the global room was ensured, where the slug is its own.
unfoldable pub ensured : Text → Rooms → Text → ℕ → RoomError ⊎ Rooms
ensured global_slug rooms slug now =
    if text_eq slug global_slug
    then rooms_of (ensure_global_room global_slug rooms now)
    else inr rooms

unfoldable pub new_message :
    Text → Text → ℕ → Text → Text → Option RoomMessageKind → Option Bool → RoomMessage
new_message id stamp now from body kind expect_reply =
    let k = or_else kind (infer_kind body) in
    record {
      id = id;
      ts = now;
      from = from;
      kind = k;
      body = stamp_actionable_body stamp (normalize_body body k) k;
      pane = none;
      expect_reply = or_else expect_reply false;
    }

-- `RoomMessageSchema.parse`: a sender and a body that are not empty.
abbrev pub is_valid : RoomMessage → Bool
is_valid m = is_truthy m.from && is_truthy m.body

unfoldable pub append_message : Rooms → Text → RoomMessage → RoomError ⊎ Rooms
append_message rooms slug message = elim (lookup slug rooms) [
  | none ↦ inl not_found
  | some dir ↦
      if is_valid message
      then inr (put slug (record dir { log = some (or_else dir.log [] ++ message ∷ []) }) rooms)
      else inl invalid
]

unfoldable pub append_to : RoomError ⊎ Rooms → Text → RoomMessage → RoomError ⊎ Rooms
append_to (inl e) slug message = inl e
append_to (inr rooms) slug message = append_message rooms slug message

-- What the caller of `sayInRoomSync` gives.
pub record Say : Type 0 where
  pub slug : Text
  pub from : Text
  pub body : Text
  pub kind : Option RoomMessageKind
  pub expect_reply : Option Bool

unfoldable pub message_of : Text → Text → ℕ → Say → RoomMessage
message_of id stamp now say = new_message id stamp now say.from say.body say.kind say.expect_reply

-- `sayInRoomSync`
unfoldable pub say_in_room : Text → Rooms → Text → Text → ℕ → Say → RoomError ⊎ Rooms
say_in_room global_slug rooms id stamp now say =
    append_to (ensured global_slug rooms say.slug now) say.slug (message_of id stamp now say)
