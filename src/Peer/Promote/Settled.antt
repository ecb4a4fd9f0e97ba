-- ===== src/Peer/Promote/Settled.antt =====
-- Where the parked rows are after a promotion.
use seat_mesh.Prelude.{List, Memᴰ, ◌⊎◌}
use seat_mesh.Prelude.Text.{Text}
use seat_mesh.Prelude.Dict.{Dict}
use seat_mesh.Peer.Backlog.{BacklogRow}
use seat_mesh.Peer.Promote.{Promotion}
use seat_mesh.Peer.Promote.Unparked.{Keeps, IsSettled}

-- Each row is settled or goes on to wait, and what was settled stays so.
abbrev Leaves : Promotion → List BacklogRow → Promotion → List BacklogRow → Type 0
Leaves p es q still = Keeps p q × ((e : BacklogRow) → Memᴰ e es → Memᴰ e still ⊎ IsSettled q e)

-- Every row of `es` is settled, and what was settled before stays so.
abbrev Settles : Promotion → List BacklogRow → Promotion → Type 0
Settles p es q = Keeps p q × ((e : BacklogRow) → Memᴰ e es → IsSettled q e)
