-- ===== src/Examples/Room.antt =====
-- Chat rooms.
use seat_mesh.Prelude.{
  ℕ, ◌≡◌, refl, true, false, none, some, List, [], ◌∷◌, ◌++◌, inl, inr, arith, count, or_else,
  if◌then◌else◌,
}
use seat_mesh.Prelude.Text.{Text, codes, text_eq, starts_with, trim, to_upper}
use seat_mesh.Prelude.Dict.{lookup, put}
use seat_mesh.Regex.{test}
use seat_mesh.Room.{RoomMessage, RoomMessageKind, done, msg, RoomProfile, contract}
use seat_mesh.Room.ReadState.{is_unseen, count_unseen_messages, mark_room_read, no_cursor}
use seat_mesh.Room.ReadState.Cursor.{is_twin, unseen_after_mark}
use seat_mesh.Room.Routing.{
  rich, thin, skip, FanoutRoutingInput, fanout, resolve_fanout_delivery, route, sender_row_lead,
  to_manager, row_lead_of, row_lead_for_mini_id, normalize_room_agent_id, is_substance_room_message,
  is_ack_or_noise, profile_leads,
}
use seat_mesh.Room.Routing.Coordinators.{
  coordinators_hear_substance, row_posts_stay_in_row, worth_hearing, sent_to,
}
use seat_mesh.Room.Body.{infer_kind, normalize_body, stamp_actionable_body}
use seat_mesh.Room.Files.{
  Rooms, CreateRoomInput, create_room, upsert_contract_room, is_valid_profile, bad_profile,
  load_room_profile, say_in_room, append_to, append_message, ensured, room_at, is_reserved,
  new_message, message_of, Say,
}
use seat_mesh.Room.Files.Lifecycle.{
  Created, create_room_outcome, upsert_contract_room_refreshes, created_of,
}
use seat_mesh.Room.Files.Append.{messages, say_in_room_appends}

abbrev line : Text → ℕ → Text → RoomMessage
line id ts from = record {
  id = id;
  ts = ts;
  from = from;
  kind = msg;
  body = codes "hello";
  pane = none;
  expect_reply = false;
}

abbrev log : List RoomMessage
log =
    line (codes "m1") 100 (codes "mini-3")
    ∷ line (codes "m2") 200 (codes "mini-4")
    ∷ line (codes "m3") 200 (codes "manager")
    ∷ []

abbrev last : RoomMessage
last = line (codes "m3") 200 (codes "manager")

unseen_after_mark_example :
    let (state', _) = mark_room_read [] log (codes "mini-1") 500 in
    (count_unseen_messages log (codes "mini-1") (lookup (codes "mini-1") state')
      ≡ count (is_twin (codes "mini-1") last) log)
    × (is_unseen
          (codes "mini-1")
          (or_else (lookup (codes "mini-1") state') no_cursor)
          (line (codes "m4") 300 (codes "mini-3"))
        ≡ true)
unfolding text_eq
unseen_after_mark_example =
    unseen_after_mark [] log last (codes "mini-1") 500 refl refl
      (omega arith, (omega arith, (omega arith, tt))) (line (codes "m4") 300 (codes "mini-3")) refl
      (omega arith)

-- One message of another agent shares the time of the last one.
twin_test : count (is_twin (codes "mini-1") last) log ≡ 1
unfolding is_twin text_eq
twin_test = refl

abbrev profile : RoomProfile
profile = record {
  slug = codes "s13";
  kind = contract;
  created_at = 10;
  created_by = codes "manager";
  scope = none;
  members = codes "mini-1" ∷ codes "mini-3" ∷ [];
  lead = none;
  leads = some (codes "mini-1" ∷ codes "mini-2" ∷ []);
  lead_workers = none;
  supervisor = none;
}

abbrev post : RoomMessageKind → Text → Text → Text → FanoutRoutingInput
post kind body from target = record {
  target_id = target;
  from = from;
  kind = kind;
  body = body;
  profile = profile;
  mini_grid = none;
  mini_max = none;
  mini_leads = none;
}

abbrev done_by_lead : FanoutRoutingInput
done_by_lead = post done (codes "tests pass") (codes "mini-1") (codes "manager")

coordinators_hear_substance_example :
    (rich ≡ rich)
    × (text_eq (fanout done_by_lead).target (fanout done_by_lead).from ≡ false)
    × (worth_hearing (fanout done_by_lead) ≡ true)
unfolding resolve_fanout_delivery fanout route sender_row_lead to_manager row_lead_of
    row_lead_for_mini_id normalize_room_agent_id is_substance_room_message is_ack_or_noise
    profile_leads text_eq starts_with
coordinators_hear_substance_example = coordinators_hear_substance done_by_lead rich refl refl refl

abbrev done_by_mini : FanoutRoutingInput
done_by_mini = post done (codes "tests pass") (codes "mini-3") (codes "-")

row_posts_stay_in_row_example :
    (resolve_fanout_delivery (sent_to done_by_mini (codes "manager")) ≡ some skip)
    × (resolve_fanout_delivery (sent_to done_by_mini (codes "mini-1"))
        ≡ some (if (fanout done_by_mini).noise then thin else rich))
unfolding fanout row_lead_of row_lead_for_mini_id normalize_room_agent_id profile_leads text_eq
    starts_with
row_posts_stay_in_row_example =
    row_posts_stay_in_row done_by_mini (codes "mini-1") (codes "manager") (codes "mini-1") refl refl
      refl refl refl refl refl

abbrev input : CreateRoomInput
input = record {
  slug = codes "s13";
  created_by = codes "manager";
  kind = none;
  scope = some (codes "tickets");
  members = some (codes "mini-1" ∷ []);
  lead = none;
  leads = none;
  supervisor = none;
}

create_room_outcome_example :
    Created (codes "global") [] input 10 (create_room (codes "global") [] input 10)
create_room_outcome_example = create_room_outcome (codes "global") [] input 10

abbrev rooms : Rooms
rooms = (codes "s13", record { profile = some profile; log = some log }) ∷ []

upsert_contract_room_refreshes_example :
    (rooms' : Rooms) × (p : RoomProfile) × (rooms'' : Rooms) × (upsert_contract_room
        (codes "global")
        rooms
        input
        10
      ≡ inr (rooms', p))
    × (room_at rooms' (codes "s13")
        ≡ record { profile = some p; log = some (or_else (room_at rooms (codes "s13")).log []) })
    × ((p.created_at, p.created_by)
        ≡ created_of (room_at rooms (codes "s13")).profile 10 (codes "manager"))
    × (upsert_contract_room (codes "global") rooms' input 20
        ≡ (if is_valid_profile p then inr (rooms'', p) else inl bad_profile))
unfolding is_reserved text_eq load_room_profile room_at lookup
upsert_contract_room_refreshes_example =
    upsert_contract_room_refreshes (codes "global") rooms input 10 20
      (room_at rooms (codes "s13")).profile refl refl

abbrev saying : Say
saying = record {
  slug = codes "s13";
  from = codes "mini-3";
  body = codes "all green";
  kind = some done;
  expect_reply = none;
}

abbrev said : RoomMessage
said = record {
  id = codes "m4";
  ts = 300;
  from = codes "mini-3";
  kind = done;
  body = codes "DONE: all green [@2026-01-02T03:04:05Z]";
  pane = none;
  expect_reply = false;
}

abbrev rooms_after : Rooms
rooms_after = (codes "s13", record { profile = some profile; log = some (log ++ said ∷ []) }) ∷ []

abbrev stamp : Text
stamp = codes "2026-01-02T03:04:05Z"

said_test : say_in_room (codes "global") rooms (codes "m4") stamp 300 saying ≡ inr rooms_after
unfolding say_in_room message_of new_message append_to append_message ensured lookup put text_eq
    normalize_body stamp_actionable_body trim to_upper starts_with test
said_test = refl

say_in_room_appends_example :
    (messages rooms_after (codes "s13") ≡ (
      if text_eq (codes "s13") (codes "s13")
      then messages rooms (codes "s13") ++ message_of (codes "m4") stamp 300 saying ∷ []
      else messages rooms (codes "s13")))
    × ((message_of (codes "m4") stamp 300 saying).kind
        ≡ or_else saying.kind (infer_kind saying.body))
say_in_room_appends_example =
    say_in_room_appends (codes "global") rooms (codes "m4") stamp 300 saying rooms_after said_test
      (codes "s13")
