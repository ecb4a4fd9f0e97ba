-- ===== src/Room/Files/Lifecycle.antt =====
-- Creating rooms, and speaking in them.
use seat_mesh.Prelude.{
  ℕ, ◌≡◌, refl, ◌∙◌, true, false, Option, none, some, [], arith, if◌then◌else◌, is_some, or_else,
  or_option, ◌⊎◌, inl, inr, Bool-cases, Option-cases,
}
use seat_mesh.Prelude.Text.{Text, text_eq, text_eq_refl}
use seat_mesh.Prelude.Dict.{put, lookup-put}
use seat_mesh.Room.{RoomProfile}
use seat_mesh.Room.Files.{
  RoomDir, Rooms, RoomError, reserved, already_exists, CreateRoomInput, room_at, is_reserved,
  new_profile, create_room, merged_profile, upsert_contract_room, refresh, load_room_profile,
  is_valid_profile, bad_profile,
}

pub room_at-put :
    (rooms : Rooms) (slug other : Text) (dir : RoomDir)
    → room_at (put slug dir rooms) other ≡ (if text_eq slug other then dir else room_at rooms other)
unfolding room_at
room_at-put rooms slug other dir = ground (arith, lookup-put slug other dir rooms)

-- What a call of `createRoom` came to.
pub data Created (global_slug : Text) (rooms : Rooms) (input : CreateRoomInput) (now : ℕ)
    : RoomError ⊎ (Rooms × RoomProfile) → Type 0 where
  was_reserved :
      is_reserved global_slug input ≡ true → Created global_slug rooms input now (inl reserved)
  was_there :
      is_reserved global_slug input ≡ false
      → is_some (room_at rooms input.slug).log ≡ true
      → Created global_slug rooms input now (inl already_exists)
  was_created :
      (rooms' : Rooms)
      → is_reserved global_slug input ≡ false
      → (room_at rooms input.slug).log ≡ none
      → ((other : Text)
          → room_at rooms' other ≡ (
              if text_eq input.slug other
              then record { profile = some (new_profile input now); log = some [] }
              else room_at rooms other))
      → Created global_slug rooms input now (inr (rooms', new_profile input now))

-- `createRoom` refuses a contract room with the slug of the global room, and a slug whose log is
-- there; in every other case it returns the new profile, the room of the slug has that profile
-- and an empty log, and the other rooms are as before.
pub create_room_outcome :
    (global_slug : Text) (rooms : Rooms) (input : CreateRoomInput) (now : ℕ)
    → Created global_slug rooms input now (create_room global_slug rooms input now)
unfolding create_room
create_room_outcome global_slug rooms input now =
    elim (Bool-cases (is_reserved global_slug input)) [
      | inl t ↦ rw t (was_reserved t)
      | inr f ↦ elim (Option-cases (room_at rooms input.slug).log) [
        | inl n ↦ rw (f, n) (was_created _ f n (λ other. room_at-put rooms input.slug other _))
        | inr (l, s) ↦ rw (f, s) (was_there f (rw s refl))
      ]
    ]

abbrev pub created_of : Option RoomProfile → ℕ → Text → ℕ × Text
created_of none now by = (now, by)
created_of (some old) now by = (old.created_at, old.created_by)

merged-created :
    (input : CreateRoomInput) (old : Option RoomProfile) (now : ℕ)
    → ((merged_profile input old now).created_at, (merged_profile input old now).created_by)
      ≡ created_of old now input.created_by
unfolding merged_profile
merged-created input none now = refl
merged-created input (some old) now = refl

or_option-twice : {A : Type 0} (a b : Option A) → or_option a (or_option a b) ≡ or_option a b
or_option-twice none b = refl
or_option-twice (some x) b = refl

or_else-twice : {A : Type 0} (a : Option A) (b : A) → or_else a (or_else a b) ≡ or_else a b
or_else-twice none b = refl
or_else-twice (some x) b = refl

or_option_self : {A : Type 0} (a : Option A) → or_option a a ≡ a
or_option_self none = refl
or_option_self (some x) = refl

merged-again :
    (input : CreateRoomInput) (old : Option RoomProfile) (now now' : ℕ)
    → merged_profile input (some (merged_profile input old now)) now' ≡ merged_profile input old now
unfolding merged_profile new_profile
merged-again input none now now' =
    rw
      (
        or_option_self input.scope,
        or_else-twice input.members [],
        or_option_self input.lead,
        or_option_self input.leads,
        or_option_self input.supervisor,
      )
      refl
merged-again input (some old) now now' =
    rw
      (
        or_option-twice input.scope old.scope,
        or_else-twice input.members old.members,
        or_option-twice input.lead old.lead,
        or_option-twice input.leads old.leads,
        or_option-twice input.supervisor old.supervisor,
      )
      refl

refreshed_dir : Rooms → CreateRoomInput → RoomProfile → RoomDir
refreshed_dir rooms input p = record {
  profile = some p;
  log = some (or_else (room_at rooms input.slug).log []);
}

upsert-loaded :
    (global_slug : Text) (rooms : Rooms) (input : CreateRoomInput) (now : ℕ)
    → is_reserved global_slug input ≡ false
    → upsert_contract_room global_slug rooms input now
      ≡ refresh rooms input now (load_room_profile (room_at rooms input.slug))
unfolding upsert_contract_room
upsert-loaded global_slug rooms input now f = rw f refl

again-loaded :
    (rooms : Rooms) (input : CreateRoomInput) (now : ℕ) (dir : RoomDir) (p : RoomProfile)
    → dir.profile ≡ some p
    → merged_profile input (some p) now ≡ p
    → refresh rooms input now (load_room_profile dir) ≡ (
        if is_valid_profile p
        then inr (put input.slug (refreshed_dir rooms input p) rooms, p)
        else inl bad_profile)
unfolding refresh load_room_profile refreshed_dir
again-loaded rooms input now dir p e m = elim (Bool-cases (is_valid_profile p)) [
  | inl t ↦ rw (e, t) (rw m refl)
  | inr f ↦ rw (e, f) refl
]

-- Refreshing a room that may be refreshed, and whose profile can be loaded or is not there, returns a
-- profile; the room has it, and the messages it had. Its creation is that of the profile that was
-- there, if one was. Refreshing it again with the same input, at any time, returns the same profile,
-- unless that has an empty slug or creator, in which case it fails.
pub upsert_contract_room_refreshes :
    (global_slug : Text) (rooms : Rooms) (input : CreateRoomInput) (now now' : ℕ)
    (old : Option RoomProfile)
    → is_reserved global_slug input ≡ false
    → load_room_profile (room_at rooms input.slug) ≡ inr old
    → (rooms' : Rooms) × (p : RoomProfile) × (rooms'' : Rooms) × (upsert_contract_room global_slug
          rooms input now
        ≡ inr (rooms', p))
      × (room_at rooms' input.slug
          ≡ record { profile = some p; log = some (or_else (room_at rooms input.slug).log []) })
      × ((p.created_at, p.created_by) ≡ created_of old now input.created_by)
      × (upsert_contract_room global_slug rooms' input now'
          ≡ (if is_valid_profile p then inr (rooms'', p) else inl bad_profile))
unfolding refresh refreshed_dir
upsert_contract_room_refreshes global_slug rooms input now now' old f loaded = (
  rooms',
  p,
  put input.slug (refreshed_dir rooms' input p) rooms',
  upsert-loaded global_slug rooms input now f ∙ rw loaded refl,
  stored,
  merged-created input old now,
  upsert-loaded global_slug rooms' input now' f
      ∙ again-loaded rooms' input now' (room_at rooms' input.slug) p (rw stored refl)
          (merged-again input old now now'),
)
  where
    p : RoomProfile
    p = merged_profile input old now

    rooms' : Rooms
    rooms' = put input.slug (refreshed_dir rooms input p) rooms

    stored : room_at rooms' input.slug ≡ refreshed_dir rooms input p
    stored =
        room_at-put rooms input.slug input.slug (refreshed_dir rooms input p)
        ∙ rw (text_eq_refl input.slug) refl
