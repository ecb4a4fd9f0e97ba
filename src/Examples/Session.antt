-- ===== src/Examples/Session.antt =====
-- The labels of panes.
use seat_mesh.Prelude.{ℕ, ◌≡◌, refl, true, none, some, Option, List, [], ◌∷◌, All, false}
use seat_mesh.Prelude.Text.{Text, codes, text_eq}
use seat_mesh.Room.Layout.{parse_grid_spec}
use seat_mesh.Session.Labels.{
  Pane, has, worker_slot, worker_slots, assign_worker_identities, restamp_workers, label_new,
  stamp_worker_slot, next_free_slot, free_from,
}
use seat_mesh.Session.Labels.Free.{AreDistinct}
use seat_mesh.Session.Labels.Slots.{assign_worker_identities-distinct}
use seat_mesh.Session.Relayout.{
  GuardedPane, RelayoutTarget, assert_relayout_safe, doomed_panes, activity_reasons, status_reasons,
  seen_reasons, focus_reasons, mini_reasons, answer_risks, relayout_risks, risks, border, mini_open,
  spawned, done, MiniStatus,
}
use seat_mesh.Session.Relayout.Shrink.{
  relayout_mesh_session, lay_out, layout_grid, kill_down, latest_first,
}

abbrev pane : Text → Text → Option ℕ → Pane
pane id role slot = record {
  pane_id = id;
  role = role;
  slot = slot;
  ports = [];
  name = [];
  title = [];
  mini = [];
}

abbrev window : List Pane
window =
    pane (codes "%1") [] none
    ∷ pane (codes "%2") (codes "worker") (some 1)
    ∷ pane (codes "%3") [] none
    ∷ []

assign_worker_identities-distinct_example :
    let window' = assign_worker_identities (codes "41{n}0") 3 window in
    AreDistinct (worker_slots 3 window')
    × All (λ w. has (worker_slots 3 window') w ≡ true) (worker_slots 3 window)
unfolding worker_slots worker_slot text_eq
assign_worker_identities-distinct_example =
    assign_worker_identities-distinct (codes "41{n}0") 3 window (refl, tt)

label_test : worker_slots 3 (assign_worker_identities (codes "41{n}0") 3 window) ≡ 2 ∷ 1 ∷ 3 ∷ []
unfolding worker_slots worker_slot text_eq assign_worker_identities restamp_workers label_new
    stamp_worker_slot next_free_slot free_from
label_test = refl

abbrev guarded : Text → Text → Option (MiniStatus × Text) → GuardedPane
guarded mini status row = record {
  pane_id = codes "%9";
  role = [];
  slot = [];
  mini = mini;
  status = status;
  seen = some (record { current_command = codes "bash"; process_cmdlines = []; capture_tail = [] });
  focus_mark = none;
  mini_row = row;
}

abbrev small : RelayoutTarget
small = record {
  worker_count = 1;
  worker_grid = codes "1x1";
  worker_slots = 1;
  mini_grid = codes "1x1";
  mini_max = 1;
}

abbrev quiet_minis : List GuardedPane
quiet_minis =
    guarded (codes "1") (codes "BUSY") none
    ∷ guarded (codes "2") (codes "idle") (some (done, codes "s13"))
    ∷ []

-- The idle mini is killed. A busy one is killed as a worker beyond the grid that the guard does not
-- look at, since the profile counts it in.
relayout_tests :
    (relayout_mesh_session small [] quiet_minis false
      ≡ guarded (codes "2") (codes "idle") (some (done, codes "s13")) ∷ [])
    × (relayout_mesh_session
          (record small { worker_count = 2 })
          (guarded (codes "1") [] none ∷ guarded (codes "2") (codes "BUSY") none ∷ [])
          []
          false
        ≡ guarded (codes "2") (codes "BUSY") none ∷ [])
unfolding relayout_mesh_session lay_out layout_grid kill_down latest_first assert_relayout_safe
    parse_grid_spec text_eq answer_risks relayout_risks risks doomed_panes activity_reasons
    status_reasons seen_reasons focus_reasons mini_reasons
relayout_tests = (refl, refl)

busy_mini_test :
    activity_reasons (guarded (codes "2") (codes "BUSY") (some (spawned, codes "-")))
    ≡ border (codes "BUSY") ∷ mini_open (codes "open task") ∷ []
unfolding activity_reasons status_reasons seen_reasons focus_reasons mini_reasons
busy_mini_test = refl
