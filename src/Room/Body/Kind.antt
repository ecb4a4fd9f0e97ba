-- ===== src/Room/Body/Kind.antt =====
-- The kind that a stored body shows.
use seat_mesh.Prelude.{Bool, true, false, []}
use seat_mesh.Prelude.Text.{Text, codes}
use seat_mesh.Room.{RoomMessageKind, claim, done, blocked, broadcast}

-- A kind that is stored with a tag in front.
abbrev pub is_tagged : RoomMessageKind → Bool
is_tagged claim = true
is_tagged done = true
is_tagged blocked = true
is_tagged broadcast = true
is_tagged _ = false

unfoldable pub same_kind : RoomMessageKind → RoomMessageKind → Bool
same_kind claim claim = true
same_kind done done = true
same_kind blocked blocked = true
same_kind broadcast broadcast = true
same_kind _ _ = false

-- The tag that stands for a kind, with the space after it.
abbrev pub kind_tag : RoomMessageKind → Text
kind_tag claim = codes "CLAIMED: "
kind_tag done = codes "DONE: "
kind_tag blocked = codes "BLOCKED: "
kind_tag broadcast = codes "BROADCAST: "
kind_tag _ = []
