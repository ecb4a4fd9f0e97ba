-- ===== src/Room.antt =====
-- packages/core/src/chatroom: chat rooms, their messages and who hears of them. The types are those
-- of types.ts; a time is its instant.
pub mod ReadState
pub mod Layout
pub mod Routing
pub mod Body
pub mod Files
use seat_mesh.Prelude.{ℕ, Bool, Option, List}
use seat_mesh.Prelude.Text.{Text}

pub data RoomMessageKind : Type 0 where
  claim done blocked fyi status broadcast msg : RoomMessageKind

pub record RoomMessage : Type 0 where
  pub id : Text
  pub ts : ℕ
  pub from : Text
  pub kind : RoomMessageKind
  pub body : Text
  pub pane : Option Text
  pub expect_reply : Bool

pub data RoomKind : Type 0 where
  global contract : RoomKind

pub record RoomProfile : Type 0 where
  pub slug : Text
  pub kind : RoomKind
  pub created_at : ℕ
  pub created_by : Text
  pub scope : Option Text
  pub members : List Text
  pub lead : Option Text
  pub leads : Option (List Text)
  pub lead_workers : Option (List Text)
  pub supervisor : Option Text
