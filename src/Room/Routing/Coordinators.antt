-- ===== src/Room/Routing/Coordinators.antt =====
-- What the coordinators hear of a room, and where the posts of a row's minis go.
use seat_mesh.Prelude.{
  ◌≡◌, refl, ◌∙◌, Bool, true, false, not, ◌&&◌, ◌||◌, Option, some, arith, if◌then◌else◌,
  Bool-cases, Option-cases, inl, inr,
}
use seat_mesh.Prelude.Text.{Text, codes, text_eq, text_eq_refl, is_truthy}
use seat_mesh.Room.Routing.{
  FanoutDelivery, rich, thin, skip, FanoutRoutingInput, Fanout, fanout, resolve_fanout_delivery,
  to_manager, to_supervisor, to_row, row_lead_of, is_broadcast, normalize_room_agent_id, is_mini,
  route, sender_row_lead,
}

abbrev pub is_skip : FanoutDelivery → Bool
is_skip skip = true
is_skip _ = false

-- The manager, the supervisor of the room, or the secretary.
abbrev pub is_coordinator : Fanout → Bool
is_coordinator f =
    text_eq f.target (codes "manager")
    || text_eq f.target f.supervisor
    || text_eq f.target (codes "secretary")

-- A broadcast to the manager, or a message with substance that is no noise.
abbrev pub worth_hearing : Fanout → Bool
worth_hearing f =
    (is_broadcast f.kind && text_eq f.target (codes "manager")) || (f.substance && not f.noise)

manager_hears :
    (f : Fanout)
    → text_eq f.target (codes "manager") ≡ true
    → is_skip (to_manager f) ≡ false
    → (to_manager f ≡ rich) × (worth_hearing f ≡ true)
unfolding to_manager
manager_hears f t h = ground arith

supervisor_hears :
    (f : Fanout)
    → is_skip (to_supervisor f) ≡ false
    → (to_supervisor f ≡ rich) × (worth_hearing f ≡ true)
unfolding to_supervisor
supervisor_hears f h = ground arith

route_hears :
    (f : Fanout) (a : Option (Option Text)) (b : Option Text) (d : FanoutDelivery)
    → is_coordinator f ≡ true
    → route f a b ≡ some d
    → is_skip d ≡ false
    → (d ≡ rich) × (worth_hearing f ≡ true)
unfolding route
route_hears f a b d c e h = ground (arith, manager_hears f, supervisor_hears f)

-- Where a message reaches a coordinator of a room at all, it goes out rich, not to its own sender,
-- and it either is a broadcast to the manager, or has substance and is neither an
-- acknowledgement nor noise.
pub coordinators_hear_substance :
    (input : FanoutRoutingInput) (d : FanoutDelivery)
    → resolve_fanout_delivery input ≡ some d
    → is_skip d ≡ false
    → is_coordinator (fanout input) ≡ true
    → (d ≡ rich)
      × (text_eq (fanout input).target (fanout input).from ≡ false)
      × (worth_hearing (fanout input) ≡ true)
unfolding resolve_fanout_delivery
coordinators_hear_substance input d e h c =
    elim (Bool-cases (text_eq (fanout input).target (fanout input).from)) [
      | inl own ↦ absurd (ground arith)
      | inr other ↦ elim (Option-cases (sender_row_lead input (fanout input))) [
        | inl n ↦ absurd (ground arith)
        | inr (lead, k) ↦
            let r : route (fanout input) (row_lead_of input (fanout input).from) lead ≡ some d =
              rw (other, k) at e in
            let (is_rich, worth) = route_hears _ _ lead d c r h in (is_rich, other, worth)
      ]
    ]

-- A row mini, one that is no lead of the room, and no broadcast.
abbrev pub is_row_post : Fanout → Bool
is_row_post f = is_mini f.from && not f.from_is_lead && not (is_broadcast f.kind)

route_to_manager :
    (f : Fanout) (a : Option (Option Text)) (b : Option Text)
    → is_row_post f ≡ true
    → text_eq f.target (codes "manager") ≡ true
    → route f a b ≡ some skip
unfolding route to_manager
route_to_manager f a b r t = ground arith

route_to_row_lead :
    (f : Fanout) (a : Option (Option Text)) (lead : Text)
    → is_row_post f ≡ true
    → is_truthy lead ≡ true
    → text_eq lead f.from ≡ false
    → text_eq lead f.target ≡ true
    → is_coordinator f ≡ false
    → route f a (some lead) ≡ some (if f.noise then thin else rich)
unfolding route to_row
route_to_row_lead f a lead r t o e c = ground arith

resolve_of_route :
    (post : FanoutRoutingInput) (lead : Option Text)
    → text_eq (fanout post).target (fanout post).from ≡ false
    → is_row_post (fanout post) ≡ true
    → row_lead_of post (fanout post).from ≡ some lead
    → resolve_fanout_delivery post ≡ route (fanout post) (row_lead_of post (fanout post).from) lead
unfolding resolve_fanout_delivery sender_row_lead
resolve_of_route post lead o r l =
    let k : sender_row_lead post (fanout post) ≡ some lead = ground arith in rw (o, k) refl

resolve_own :
    (post : FanoutRoutingInput)
    → text_eq (fanout post).target (fanout post).from ≡ true
    → resolve_fanout_delivery post ≡ some skip
unfolding resolve_fanout_delivery
resolve_own post o = rw o refl

-- The same message, to another target.
abbrev pub sent_to : FanoutRoutingInput → Text → FanoutRoutingInput
sent_to post id = record post { target_id = id }

-- What a row mini posts without broadcasting it never reaches the manager, and it always reaches
-- the lead of the mini's row, where that one is another agent and no coordinator: thin where it
-- is noise, and rich otherwise.
pub row_posts_stay_in_row :
    (post : FanoutRoutingInput) (lead boss mate : Text)
    → is_row_post (fanout post) ≡ true
    → row_lead_of post (fanout post).from ≡ some (some lead)
    → is_truthy lead ≡ true
    → text_eq lead (fanout post).from ≡ false
    → text_eq (normalize_room_agent_id boss) (codes "manager") ≡ true
    → normalize_room_agent_id mate ≡ lead
    → is_coordinator (fanout (sent_to post mate)) ≡ false
    → (resolve_fanout_delivery (sent_to post boss) ≡ some skip)
      × (resolve_fanout_delivery (sent_to post mate)
          ≡ some (if (fanout post).noise then thin else rich))
unfolding fanout row_lead_of
row_posts_stay_in_row post lead boss mate r l t o b e c = (
  elim (Bool-cases (text_eq (fanout to_boss).target (fanout to_boss).from)) [
    | inl own ↦ resolve_own to_boss own
    | inr other ↦
        resolve_of_route to_boss (some lead) other r l
        ∙ route_to_manager (fanout to_boss) _ (some lead) r b
  ],
  resolve_of_route to_mate (some lead) (rw e o) r l
      ∙ route_to_row_lead (fanout to_mate) _ lead r t o (rw e (text_eq_refl lead)) c,
)
  where
    to_boss : FanoutRoutingInput
    to_boss = sent_to post boss

    to_mate : FanoutRoutingInput
    to_mate = sent_to post mate
