-- ===== src/Room/Routing.antt =====
-- packages/core/src/chatroom/fanout-routing.ts: how a room message reaches a target. An invalid grid
-- throws, which is `none`.
pub mod Coordinators
use seat_mesh.Prelude.{
  ℕ, ◌+◌, ◌/◌, suc, ◌≡◌, refl, Bool, true, false, not, ◌&&◌, ◌||◌, Option, none, some, List, [],
  ◌∷◌, ◌++◌, map, if◌then◌else◌, ltb, leb, ◌==◌, length, drop, get_elem?, or_else, ◌>>=◌,
}
use seat_mesh.Prelude.Text.{Text, codes, text_eq, trim, is_truthy, starts_with}
use seat_mesh.Prelude.Decimal.{decimal}
use seat_mesh.Regex.{
  Re, seq, alt, at_start, at_end, line_start, boundary, unit, test_ci, lit, one_of, plus, maybe,
  digit, space, all_digits,
}
use seat_mesh.Room.{RoomMessageKind, claim, done, blocked, fyi, status, broadcast, msg, RoomProfile}
use seat_mesh.Room.Layout.{parse_grid_spec, compute_minis_want_order, has_text}

pub data FanoutDelivery : Type 0 where
  rich thin skip : FanoutDelivery

pub record FanoutRoutingInput : Type 0 where
  pub target_id : Text
  pub from : Text
  pub kind : RoomMessageKind
  pub body : Text
  pub profile : RoomProfile
  pub mini_grid : Option Text
  pub mini_max : Option ℕ
  pub mini_leads : Option (List ℕ)

-- `/^[1-9]$/`
abbrev is_slot_digit : Text → Bool
is_slot_digit [] = false
is_slot_digit (c ∷ []) = leb b'1' c && leb c b'9'
is_slot_digit (c ∷ d ∷ s) = false

unfoldable pub normalize_room_agent_id : Text → Text
unfolding trim starts_with
normalize_room_agent_id id =
    let t = trim id in
    if is_slot_digit t
    then codes "worker-" ++ t
    else if starts_with (codes "slot-") t
    then codes "worker-" ++ drop 5 t
    else t

substance_re : Re
unfolding one_of
substance_re = seq line_start (
    seq (one_of (map codes ("claimed" ∷ "done" ∷ "blocked" ∷ "broadcast" ∷ "status" ∷ [])))
      (alt (unit (λ c. c == b':')) space))

-- `SUBSTANCE_KINDS`
abbrev is_substance_kind : RoomMessageKind → Bool
is_substance_kind fyi = false
is_substance_kind msg = false
is_substance_kind _ = true

unfoldable pub is_substance_room_message : RoomMessageKind → Text → Bool
unfolding substance_re test_ci trim
is_substance_room_message kind body = is_substance_kind kind || test_ci substance_re (trim body)

test_re : Re
unfolding lit
test_re = seq at_start (seq (lit (codes "test")) boundary)

mini_ack_re : Re
unfolding lit
mini_ack_re = seq at_start (seq (lit (codes "mini-")) (seq (plus digit) (lit (codes " ack:"))))

standing_by_re : Re
unfolding lit
standing_by_re =
    seq boundary (seq (lit (codes "standing by")) (seq (maybe (unit (λ c. c == b'.'))) at_end))

ack_re : Re
unfolding lit
ack_re = seq at_start (lit (codes "ack:"))

abbrev pub is_msg : RoomMessageKind → Bool
is_msg msg = true
is_msg _ = false

abbrev pub is_broadcast : RoomMessageKind → Bool
is_broadcast broadcast = true
is_broadcast _ = false

unfoldable pub is_ack_or_noise : Text → RoomMessageKind → Bool
unfolding test_re mini_ack_re standing_by_re ack_re is_substance_room_message test_ci trim
is_ack_or_noise body kind =
    let t = trim body in
    test_ci test_re t
    || test_ci mini_ack_re t
    || test_ci standing_by_re t
    || (is_msg kind && not (is_substance_room_message kind body) && test_ci ack_re t)

abbrev pub is_mini : Text → Bool
is_mini id = starts_with (codes "mini-") id

-- The digits of `/^mini-(\d+)$/`
unfoldable pub mini_number : Text → Option Text
unfolding starts_with all_digits
mini_number id =
    if starts_with (codes "mini-") id && all_digits (drop 5 id) then some (drop 5 id) else none

-- `order.indexOf(n)`
abbrev index_of : Text → List Text → Option ℕ
index_of n [] = none
index_of n (x ∷ xs) =
    if text_eq x n then some 0 else elim (index_of n xs) [ none ↦ none | some i ↦ some (suc i) ]

-- `leads[Math.floor(idx / cols)]`, as an id
lead_of_row : List ℕ → ℕ → ℕ → Option Text
unfolding decimal
lead_of_row leads cols idx = elim (get_elem? leads (idx / cols)) [
  | none ↦ none
  | some lead ↦ some (codes "mini-" ++ decimal lead)
]

unfoldable pub row_lead_for_mini_id : Text → Text → ℕ → List ℕ → Option (Option Text)
unfolding normalize_room_agent_id mini_number parse_grid_spec compute_minis_want_order lead_of_row
row_lead_for_mini_id mini_id grid max leads = elim (mini_number (normalize_room_agent_id mini_id)) [
  | none ↦ some none
  | some n ↦ do
    size ← parse_grid_spec grid
    order ← compute_minis_want_order size.0 size.1 max leads
    some (elim (index_of n order) [ none ↦ none | some idx ↦ lead_of_row leads size.0 idx ])
]

-- `profile.leads` when there are any, else the legacy single lead.
unfoldable pub profile_leads : RoomProfile → List Text
unfolding normalize_room_agent_id
profile_leads p = elim (or_else p.leads []) [
  | l ∷ ls ↦ map normalize_room_agent_id (l ∷ ls)
  | [] ↦ elim p.lead [
    | none ↦ []
    | some l ↦ if is_truthy l then normalize_room_agent_id l ∷ [] else []
  ]
]

-- What `resolveFanoutDelivery` works out of its input first.
pub record Fanout : Type 0 where
  pub target : Text
  pub from : Text
  pub kind : RoomMessageKind
  pub substance : Bool
  pub noise : Bool
  pub leads : List Text
  pub lead_workers : List Text
  pub from_is_lead : Bool
  pub supervisor : Text
  pub members : List Text

abbrev truthy_or : Option Text → Text → Text
truthy_or none d = d
truthy_or (some s) d = if is_truthy s then normalize_room_agent_id s else d

unfoldable pub fanout : FanoutRoutingInput → Fanout
fanout input =
    let from = normalize_room_agent_id input.from in
    let leads = profile_leads input.profile in
    let workers = map normalize_room_agent_id (or_else input.profile.lead_workers []) in
    record {
      target = normalize_room_agent_id input.target_id;
      from = from;
      kind = input.kind;
      substance = is_substance_room_message input.kind input.body;
      noise = is_ack_or_noise input.body input.kind;
      leads = leads;
      lead_workers = workers;
      from_is_lead = has_text leads from || has_text workers from;
      supervisor = truthy_or input.profile.supervisor (codes "secretary");
      members = map normalize_room_agent_id input.profile.members;
    }

unfoldable pub row_lead_of : FanoutRoutingInput → Text → Option (Option Text)
row_lead_of input from =
    row_lead_for_mini_id from (or_else input.mini_grid (codes "4x2")) (or_else input.mini_max 8)
      (or_else input.mini_leads (1 ∷ 2 ∷ []))

unfoldable pub to_manager : Fanout → FanoutDelivery
to_manager f =
    if is_broadcast f.kind
    then rich
    else if f.noise
    then skip
    else if not f.substance
    then skip
    else if is_mini f.from && not f.from_is_lead
    then skip
    else if f.from_is_lead
        || text_eq f.from f.supervisor
        || text_eq f.from (codes "manager")
        || text_eq f.from (codes "secretary")
    then rich
    else skip

unfoldable pub to_supervisor : Fanout → FanoutDelivery
to_supervisor f = if f.noise then skip else if f.substance then rich else skip

abbrev pub is_text : Option Text → Text → Bool
is_text none t = false
is_text (some s) t = is_truthy s && text_eq s t

abbrev pub is_other_text : Option Text → Text → Bool
is_other_text none t = false
is_other_text (some s) t = is_truthy s && not (text_eq s t)

-- The target is a member or nothing.
unfoldable pub to_member : Fanout → FanoutDelivery
to_member f =
    if has_text f.members f.target
    then (if f.noise && is_mini f.target then skip else thin)
    else skip

-- The rest of the rules: row lead, lead workers, another row's lead, members.
unfoldable pub to_row : Fanout → Option Text → Option (Option Text) → Option FanoutDelivery
to_row f row_lead from_row_lead =
    if is_text row_lead f.target && is_mini f.from && is_other_text row_lead f.from
    then some (if f.noise then thin else rich)
    else if has_text f.lead_workers f.target && f.substance
    then some rich
    else if has_text f.leads f.target && is_mini f.from
    then elim from_row_lead [
      | none ↦ none
      | some lead ↦ some (if is_other_text lead f.target then skip else to_member f)
    ]
    else some (to_member f)

-- The rules by target, once the row lead of the sender is known.
unfoldable pub route : Fanout → Option (Option Text) → Option Text → Option FanoutDelivery
route f from_row_lead row_lead =
    if text_eq f.target (codes "manager")
    then some (to_manager f)
    else if text_eq f.target f.supervisor || text_eq f.target (codes "secretary")
    then some (to_supervisor f)
    else to_row f row_lead from_row_lead

-- A row lead is looked up for the minis that are no leads.
unfoldable pub sender_row_lead : FanoutRoutingInput → Fanout → Option (Option Text)
sender_row_lead input f =
    if is_mini f.from && not f.from_is_lead then row_lead_of input f.from else some none

unfoldable pub resolve_fanout_delivery : FanoutRoutingInput → Option FanoutDelivery
resolve_fanout_delivery input =
    let f = fanout input in
    if text_eq f.target f.from
    then some skip
    else sender_row_lead input f >>= route f (row_lead_of input f.from)
