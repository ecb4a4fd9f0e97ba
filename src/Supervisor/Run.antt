-- ===== src/Supervisor/Run.antt =====
-- The start of the supervisor, and what can happen next (packages/daemon/src/mesh-inbox-supervisor.ts).
use seat_mesh.Prelude.{ℕ, ◌≡◌, Bool, true, false, Option, none, List, [], ◌∷◌, ◌++◌, ltb}
use seat_mesh.Supervisor.{
  Reason, Supervisor, Health, write_meta, process_alive, spawn_child, port_poll, health_poll,
  child_exit, restart_fires, shutdown, hmr_tick, keep_alive, run_timers, Call, port_wait,
  health_wait, initial,
}

-- `main` until its first call of `spawnChild`.
unfoldable pub boot : Bool → ℕ → Supervisor
unfolding write_meta
boot stop_file mtime = write_meta none (record {
  shutting_down = false;
  spawning = false;
  child = none;
  child_started_at = 0;
  restarts = 0;
  last_bundle_mtime = mtime;
  log_open = false;
  meta = record { pid = none; child_started_at = none; restarts = 0 };
  calls = [];
  watching = false;
  restart_timers = 0;
  exit_at = none;
  kill_at = none;
  signals = [];
  exited = none;
  stop_file = stop_file;
  live = [];
})

-- `main` up to the first wait.
unfoldable pub start : Bool → ℕ → Supervisor
unfolding boot spawn_child
start stop_file mtime = spawn_child initial (boot stop_file mtime)

-- What can happen next. A handler runs to its end; any call of `spawnChild` under way may go on; a
-- pid that is given out is not in use.
pub data Step : Supervisor → Supervisor → Type 0 where
  polls_port :
      (s : Supervisor) (ahead behind : List Call) (reason : Reason) (serving late : Bool) (pid : ℕ)
      (mtime : Option ℕ) (now : ℕ)
      → s.calls ≡ ahead ++ port_wait reason ∷ behind
      → process_alive s pid ≡ false
      → Step s (port_poll (ahead ++ behind) reason serving late pid mtime now s)
  polls_health :
      (s : Supervisor) (ahead behind : List Call) (reason : Reason) (reply : Option Health)
      (late : Bool)
      → s.calls ≡ ahead ++ health_wait reason ∷ behind
      → Step s (health_poll (ahead ++ behind) reason reply late s)
  exits : (s : Supervisor) (pid : ℕ) → process_alive s pid ≡ true → Step s (child_exit pid s)
  restart_due : (s : Supervisor) → ltb 0 s.restart_timers ≡ true → Step s (restart_fires s)
  signalled : (s : Supervisor) (now : ℕ) → Step s (shutdown now s)
  checks_bundle :
      (s : Supervisor) (stat : Option ℕ) (now : ℕ)
      → s.watching ≡ true
      → Step s (hmr_tick stat now s)
  checks_child : (s : Supervisor) (now : ℕ) → s.watching ≡ true → Step s (keep_alive now s)
  timed : (s : Supervisor) (now : ℕ) → Step s (run_timers now s)
  stop_file_set : (s : Supervisor) (there : Bool) → Step s (record s { stop_file = there })

-- Runs: a step is taken while the process has not exited.
pub data Reach (s : Supervisor) : Supervisor → Type 0 where
  here : Reach s s
  next : {t u : Supervisor} → Reach s t → t.exited ≡ none → Step t u → Reach s u
