-- ===== src/Examples/Supervisor.antt =====
-- The supervisor.
use seat_mesh.Prelude.{◌≡◌, refl, true, false, none, some, [], ◌⊎◌}
use seat_mesh.Supervisor.{Supervisor, initial, Health, port_poll, health_poll, child_exit, shutdown}
use seat_mesh.Supervisor.Run.{polls_port, polls_health, exits, signalled, Reach, here, next, start}
use seat_mesh.Supervisor.Slot.{slot}
use seat_mesh.Supervisor.Refine.{Serve, supervisor_refines_slot}
use seat_mesh.Supervisor.Shutdown.{IsClosing, shutdown_is_final}

abbrev healthy : Health
healthy = record { engine_ok = true; ok = true; pid = none }

-- The port is quiet, the server comes up, and dies.
abbrev waiting : Supervisor
waiting = start false 5

abbrev spawned : Supervisor
spawned = port_poll [] initial false false 7 (some 5) 1000 waiting

abbrev up : Supervisor
up = health_poll [] initial (some healthy) false spawned

abbrev crashed : Supervisor
crashed = child_exit 7 up

abbrev closing : Supervisor
closing = shutdown 9000 up

Reach-spawned : Reach waiting spawned
unfolding start port_poll
Reach-spawned =
    next here refl (polls_port waiting [] [] initial false false 7 (some 5) 1000 refl refl)

Reach-up : Reach waiting up
unfolding start port_poll health_poll
Reach-up = next Reach-spawned refl (polls_health spawned [] [] initial (some healthy) false refl)

Reach-closing : Reach waiting closing
unfolding start port_poll health_poll
Reach-closing = next Reach-up refl (signalled up 9000)

supervisor_refines_slot_example : (up.live ≡ slot up.child) × Serve up.live crashed.live
unfolding start port_poll health_poll
supervisor_refines_slot_example = supervisor_refines_slot false 5 Reach-up (exits up 7 refl)

-- A server dies while the call that started it waits for its health.
abbrev failed : Supervisor
failed = health_poll [] initial none true (child_exit 7 spawned)

shutdown_is_final_example :
    IsClosing (child_exit 7 closing)
    × ((child_exit 7 closing).restarts ≡ closing.restarts)
    × (((child_exit 7 closing).live ≡ closing.live) ⊎ ((child_exit 7 closing).live ≡ []))
unfolding start port_poll health_poll shutdown
shutdown_is_final_example =
    shutdown_is_final false 5 Reach-closing (refl, refl) (next here refl (exits closing 7 refl))
