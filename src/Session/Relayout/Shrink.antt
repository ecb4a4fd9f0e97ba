-- ===== src/Session/Relayout/Shrink.antt =====
-- packages/tmux/src/session: the panes that a relayout kills (relayoutMeshSession of session.ts,
-- layoutWorkersGrid, layoutMinisGrid and the first loop of ensurePaneCount of window-panes.ts). The
-- kills succeed, and tmux lists the panes that are left in the order that they had.
use seat_mesh.Prelude.{
  ℕ, suc, ◌*◌, Bool, Option, none, some, List, [], ◌∷◌, ◌++◌, if◌then◌else◌, ltb, ◌==◌, length,
  or_else,
}
use seat_mesh.Prelude.Text.{Text}
use seat_mesh.Room.Layout.{parse_grid_spec}
use seat_mesh.Session.Relayout.{GuardedPane, RelayoutTarget, safe, assert_relayout_safe}

unfoldable pub latest_first : List GuardedPane → List GuardedPane
latest_first [] = []
latest_first (p ∷ ps) = latest_first ps ++ p ∷ []

-- `while (panes.length > count)`: the last pane is killed.
unfoldable pub kill_down : ℕ → List GuardedPane → List GuardedPane
kill_down count [] = []
kill_down count (last ∷ rest) =
    let more = kill_down count rest in if ltb count (suc (length rest)) then last ∷ more else []

-- What laying out a grid kills in a window; `none` where it throws before.
unfoldable pub layout_grid : Text → ℕ → List GuardedPane → Option (List GuardedPane)
layout_grid grid slots window = elim (parse_grid_spec grid) [
  | none ↦ none
  | some size ↦
      if slots == size.0 * size.1
      then some (kill_down (size.0 * size.1) (latest_first window))
      else none
]

unfoldable pub lay_out : RelayoutTarget → List GuardedPane → List GuardedPane → List GuardedPane
lay_out t workers minis = elim (layout_grid t.worker_grid t.worker_slots workers) [
  | none ↦ []
  | some killed ↦ killed ++ or_else (layout_grid t.mini_grid t.mini_max minis) []
]

-- The panes that are killed; `workers` and `minis` are those of the two windows.
unfoldable pub relayout_mesh_session :
    RelayoutTarget → List GuardedPane → List GuardedPane → Bool → List GuardedPane
relayout_mesh_session t workers minis force = elim (assert_relayout_safe t workers minis force) [
  | safe warned ↦ lay_out t workers minis
  | _ ↦ []
]
