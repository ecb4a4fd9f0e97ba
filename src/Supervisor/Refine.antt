-- ===== src/Supervisor/Refine.antt =====
-- The supervisor implements a slot: what the system sees of it is a server that starts where none
-- is live, and one that ends.
use seat_mesh.Prelude.{ℕ, ◌≡◌, Bool, true, Option, none, some, List, [], ◌∷◌, ◌++◌, arith}
use seat_mesh.Supervisor.{
  Supervisor, Call, port_wait, Reason, orphan_recover, Health, spawn_child, start_server,
  finish_call, fail_call, port_poll, health_poll, health_verdict, note_child, child_exit,
  restart_fires, shutdown, hmr_tick, keep_alive, run_timers, stop_child, process_alive,
}
use seat_mesh.Supervisor.Run.{
  Step, polls_port, polls_health, exits, restart_due, signalled, checks_bundle, checks_child, timed,
  stop_file_set, Reach, start,
}
use seat_mesh.Supervisor.Slot.{IsSound, slot, only_call}
use seat_mesh.Supervisor.Sound.{Reach-IsSound, start-IsSound}

-- The abstract machine.
pub data Serve : List ℕ → List ℕ → Type 0 where
  stays : (l : List ℕ) → Serve l l
  starts : (p : ℕ) → Serve [] (p ∷ [])
  ends : (p : ℕ) → Serve (p ∷ []) []

stays_at : (l m : List ℕ) → m ≡ l → Serve l m
stays_at l m e = rw e (stays l)

spawn_child-live : (r : Reason) (s : Supervisor) → (spawn_child r s).live ≡ s.live
unfolding spawn_child
spawn_child-live r s = ground arith

shutdown-live : (now : ℕ) (s : Supervisor) → (shutdown now s).live ≡ s.live
unfolding shutdown stop_child
shutdown-live now s = ground arith

finish_call-live : (o : List Call) (r : Reason) (s : Supervisor) → (finish_call o r s).live ≡ s.live
unfolding finish_call
finish_call-live o r s = ground arith

note_child-live :
    (o : List Call) (r : Reason) (child : Option ℕ) (s : Supervisor)
    → (note_child o r child s).live ≡ s.live
unfolding note_child fail_call finish_call
note_child-live o r child s = ground arith

health_poll-live :
    (o : List Call) (r : Reason) (reply : Option Health) (late : Bool) (s : Supervisor)
    → (health_poll o r reply late s).live ≡ s.live
unfolding health_poll health_verdict finish_call
health_poll-live o r reply late s = ground (arith, note_child-live o r s.child s)

restart_fires-live : (s : Supervisor) → (restart_fires s).live ≡ s.live
unfolding restart_fires spawn_child
restart_fires-live s = ground arith

hmr_tick-live : (stat : Option ℕ) (now : ℕ) (s : Supervisor) → (hmr_tick stat now s).live ≡ s.live
unfolding hmr_tick stop_child
hmr_tick-live stat now s = ground (arith, shutdown-live now s)

keep_alive-live : (now : ℕ) (s : Supervisor) → (keep_alive now s).live ≡ s.live
unfolding keep_alive
keep_alive-live now s = ground (arith, shutdown-live now s, spawn_child-live orphan_recover s)

run_timers-live : (now : ℕ) (s : Supervisor) → (run_timers now s).live ≡ s.live
unfolding run_timers stop_child
run_timers-live now s = ground arith

start_server-Serve :
    (o : List Call) (r : Reason) (pid : ℕ) (mtime : Option ℕ) (now : ℕ) (s : Supervisor)
    → s.calls ≡ port_wait r ∷ []
    → IsSound s
    → Serve s.live (start_server o r pid mtime now s).live
unfolding start_server fail_call
start_server-Serve o r pid none now s e h =
    let empty : s.live ≡ [] = ground (arith, h.slotted, h.vacant, e) in rw empty (starts pid)
start_server-Serve o r pid (some mtime) now s e h =
    let empty : s.live ≡ [] = ground (arith, h.slotted, h.vacant, e) in rw empty (starts pid)

port_poll-Serve :
    (o : List Call) (r : Reason) (serving late : Bool) (pid : ℕ) (mtime : Option ℕ) (now : ℕ)
    (s : Supervisor)
    → s.calls ≡ port_wait r ∷ []
    → IsSound s
    → Serve s.live (port_poll o r serving late pid mtime now s).live
unfolding port_poll
port_poll-Serve o r serving late pid mtime now s e h = ground (
  arith,
  start_server-Serve o r pid mtime now s e h,
  stays_at s.live _ (finish_call-live o r s),
  stays s.live,
)

child_exit-Serve :
    (pid : ℕ) (s : Supervisor)
    → process_alive s pid ≡ true
    → IsSound s
    → Serve s.live (child_exit pid s).live
unfolding child_exit process_alive
child_exit-Serve pid s e h =
    let alone : s.live ≡ pid ∷ [] = ground (arith, h.slotted, e) in
    let gone : (child_exit pid s).live ≡ [] = ground (arith, alone) in rw (gone, alone) (ends pid)

Step-Serve : {s t : Supervisor} → IsSound s → Step s t → Serve s.live t.live
Step-Serve h (polls_port s ahead behind r serving late pid mtime now e _) =
    let (one, _) = only_call s.spawning s.calls ahead behind (port_wait r) h.flagged e in
    port_poll-Serve (ahead ++ behind) r serving late pid mtime now s one h
Step-Serve h (polls_health s ahead behind r reply late e) =
    stays_at _ _ (health_poll-live (ahead ++ behind) r reply late s)
Step-Serve h (exits s pid e) = child_exit-Serve pid s e h
Step-Serve h (restart_due s e) = stays_at _ _ (restart_fires-live s)
Step-Serve h (signalled s now) = stays_at _ _ (shutdown-live now s)
Step-Serve h (checks_bundle s stat now e) = stays_at _ _ (hmr_tick-live stat now s)
Step-Serve h (checks_child s now e) = stays_at _ _ (keep_alive-live now s)
Step-Serve h (timed s now) = stays_at _ _ (run_timers-live now s)
Step-Serve h (stop_file_set s there) = stays s.live

-- In each state that the supervisor reaches from its start, the live servers are at most the one
-- that its variable `child` names, and each step from there is a step of the abstract slot: the
-- live server stays as it is, one starts where none was live, or the one that was live ends.
pub supervisor_refines_slot :
    (stop_file : Bool) (mtime : ℕ) {s t : Supervisor}
    → Reach (start stop_file mtime) s
    → Step s t
    → (s.live ≡ slot s.child) × Serve s.live t.live
supervisor_refines_slot stop_file mtime r st =
    let h = Reach-IsSound (start-IsSound stop_file mtime) r in (h.slotted, Step-Serve h st)
