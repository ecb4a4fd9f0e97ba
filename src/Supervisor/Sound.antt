-- ===== src/Supervisor/Sound.antt =====
-- The invariant along a run.
use seat_mesh.Prelude.{ℕ, refl, Bool, true, false, arith}
use seat_mesh.Supervisor.{Supervisor, spawn_child, port_wait, health_wait}
use seat_mesh.Supervisor.Run.{
  Step, polls_port, polls_health, exits, restart_due, signalled, checks_bundle, checks_child, timed,
  stop_file_set, Reach, here, next, start, boot,
}
use seat_mesh.Supervisor.Slot.{
  IsSound, only_call, child_exit-IsSound, shutdown-IsSound, port_poll-IsSound, health_poll-IsSound,
  IsSound-move, restart_fires-IsSound, hmr_tick-IsSound, keep_alive-IsSound, run_timers-IsSound,
}

pub Step-IsSound : {s t : Supervisor} → Step s t → IsSound s → IsSound t
Step-IsSound (polls_port s ahead behind r serving late pid mtime now e _) h =
    let (one, rest) = only_call s.spawning s.calls ahead behind (port_wait r) h.flagged e in
    rw rest (port_poll-IsSound r serving late pid mtime now s one h)
Step-IsSound (polls_health s ahead behind r reply late e) h =
    let (one, rest) = only_call s.spawning s.calls ahead behind (health_wait r) h.flagged e in
    rw rest (health_poll-IsSound r reply late s h)
Step-IsSound (exits s pid e) h = child_exit-IsSound pid s e h
Step-IsSound (restart_due s e) h = restart_fires-IsSound s h
Step-IsSound (signalled s now) h = shutdown-IsSound now s h
Step-IsSound (checks_bundle s stat now e) h = hmr_tick-IsSound stat now s h
Step-IsSound (checks_child s now e) h = keep_alive-IsSound now s h
Step-IsSound (timed s now) h = run_timers-IsSound now s h
Step-IsSound (stop_file_set s there) h =
    IsSound-move s (record s { stop_file = there }) (refl, refl, refl, refl, refl) h

pub start-IsSound : (stop_file : Bool) (mtime : ℕ) → IsSound (start stop_file mtime)
unfolding start boot spawn_child
start-IsSound true mtime = record {
  slotted = refl;
  flagged = refl;
  vacant = λ e. absurd (ground arith);
  installed = λ e. refl;
}
start-IsSound false mtime = record {
  slotted = refl;
  flagged = refl;
  vacant = λ e. refl;
  installed = λ e. absurd (ground arith);
}

pub Reach-IsSound : {s t : Supervisor} → IsSound s → Reach s t → IsSound t
Reach-IsSound h here = h
Reach-IsSound h (next r _ st) = Step-IsSound st (Reach-IsSound h r)
