-- ===== src/Supervisor.antt =====
-- packages/daemon/src/mesh-inbox-supervisor.ts: the process that keeps the inbox server alive. The
-- variables of `main` are the state; each handler, and each stretch of `spawnChild` between two
-- waits, is a function on it. What the system answers (a health reply, a modification time, the
-- pid of a new process) is an argument. `live` is the system's side: the server processes that
-- were spawned and whose exit was not yet reported.
pub mod Run
pub mod Slot
pub mod Sound
pub mod Refine
pub mod Recovery
pub mod Shutdown
use seat_mesh.Prelude.{
  ℕ, zero, suc, ◌+◌, ◌-◌, Bool, true, false, not, ◌&&◌, ◌||◌, Option, none, some, List, [], ◌∷◌,
  if◌then◌else◌, is_some, ltb, leb, ◌==◌, any, filter, ◌≡◌,
}

pub data Reason : Type 0 where
  initial crash_restart orphan_recover : Reason

-- Where a `spawnChild` that passed its guards stands.
pub data Call : Type 0 where
  port_wait health_wait : Reason → Call

pub data Signal : Type 0 where
  sigterm sigkill : Signal

-- The fields of the meta file that change.
pub record SupervisorMeta : Type 0 where
  pub pid : Option ℕ
  pub child_started_at : Option ℕ
  pub restarts : ℕ

pub record Supervisor : Type 0 where
  pub shutting_down : Bool
  pub spawning : Bool
  pub child : Option ℕ
  pub child_started_at : ℕ
  pub restarts : ℕ
  pub last_bundle_mtime : ℕ
  pub log_open : Bool
  pub meta : SupervisorMeta
  pub calls : List Call  -- the calls of `spawnChild` under way
  pub watching : Bool  -- the two intervals are installed
  pub restart_timers : ℕ
  pub exit_at : Option ℕ
  pub kill_at : Option ℕ
  pub signals : List (ℕ × Signal)
  pub exited : Option ℕ
  pub stop_file : Bool
  pub live : List ℕ

-- A reply of `/health`.
pub record Health : Type 0 where
  pub engine_ok : Bool
  pub ok : Bool
  pub pid : Option ℕ

-- `pid` under `||` and `?`: zero is falsy.
abbrev pub pid_truthy : Option ℕ → Bool
pid_truthy none = false
pid_truthy (some p) = not (p == 0)

unfoldable pub write_meta : Option ℕ → Supervisor → Supervisor
write_meta pid s = record s {
  meta = record {
    pid = pid;
    child_started_at = if pid_truthy pid then some s.child_started_at else none;
    restarts = s.restarts;
  };
}

-- `processAlive`: `kill(pid, 0)` succeeds until the exit is reported.
unfoldable pub process_alive : Supervisor → ℕ → Bool
process_alive s pid = any (λ q. q == pid) s.live

unfoldable pub stop_child : Signal → Supervisor → Supervisor
stop_child signal s = elim s.child [
  | none ↦ s
  | some p ↦ record s { signals = (p, signal) ∷ s.signals }
]

-- A call of `spawnChild` ends, with the `others` still under way; the end of `main`'s own call
-- installs the intervals.
unfoldable pub finish_call : List Call → Reason → Supervisor → Supervisor
finish_call others initial s = record s { spawning = false; calls = others; watching = true }
finish_call others _ s = record s { spawning = false; calls = others }

-- A throw inside `spawnChild`, after its `finally`. The first call's is caught by `main`, which exits
-- with 1; a later call's (`void spawnChild`) is an unhandled rejection, which ends Node with 1.
unfoldable pub fail_call : List Call → Supervisor → Supervisor
fail_call others s = record s { spawning = false; calls = others; exited = some 1 }

-- What a call that returns at a guard leaves behind.
abbrev pub skip_call : Reason → Supervisor → Supervisor
skip_call initial s = record s { watching = true }
skip_call _ s = s

abbrev pub child_alive : Supervisor → Bool
child_alive s = elim s.child [ none ↦ false | some p ↦ process_alive s p ]

-- `spawnChild` up to its first wait.
unfoldable pub spawn_child : Reason → Supervisor → Supervisor
unfolding process_alive
spawn_child reason s =
    if s.shutting_down || s.spawning
    then skip_call reason s
    else if s.stop_file
    then skip_call reason (record s { shutting_down = true })
    else if child_alive s
    then skip_call reason s
    else record s { spawning = true; log_open = true; calls = port_wait reason ∷ s.calls }

-- `spawnChild` from the quiet port to its second wait; `none` where `statSync` throws, after the
-- process was spawned.
unfoldable pub start_server : List Call → Reason → ℕ → Option ℕ → ℕ → Supervisor → Supervisor
unfolding fail_call
start_server others reason pid none now s =
    fail_call others (record s { child = some pid; child_started_at = now; live = pid ∷ s.live })
start_server others reason pid (some mtime) now s = record s {
  child = some pid;
  child_started_at = now;
  last_bundle_mtime = mtime;
  calls = health_wait reason ∷ others;
  live = pid ∷ s.live;
}

-- One round of `waitPortQuiet`; `late` is past the deadline, where the last reply decides.
unfoldable pub port_poll :
    List Call → Reason → Bool → Bool → ℕ → Option ℕ → ℕ → Supervisor → Supervisor
unfolding start_server finish_call
port_poll others reason serving late pid mtime now s =
    if late
    then (if serving
        then finish_call others reason s
        else start_server others reason pid mtime now s)
    else if s.shutting_down || not serving
    then start_server others reason pid mtime now s
    else s

-- `writeMeta(child.pid)` and the return, which throws where `child` is null.
unfoldable pub note_child : List Call → Reason → Option ℕ → Supervisor → Supervisor
unfolding write_meta finish_call fail_call
note_child others reason none s = fail_call others s
note_child others reason (some p) s = finish_call others reason (write_meta (some p) s)

-- `spawnChild` from its second wait on; a pid in the reply goes before the child's.
unfoldable pub health_verdict : List Call → Reason → Option Health → Supervisor → Supervisor
unfolding note_child
health_verdict others reason none s = note_child others reason s.child s
health_verdict others reason (some h) s =
    if pid_truthy h.pid
    then finish_call others reason (write_meta h.pid s)
    else note_child others reason s.child s

-- One round of `waitForHealth`.
unfoldable pub health_poll : List Call → Reason → Option Health → Bool → Supervisor → Supervisor
unfolding health_verdict
health_poll others reason reply late s =
    if late then health_verdict others reason none s else elim reply [
      | none ↦ s
      | some h ↦ if h.engine_ok && h.ok then health_verdict others reason (some h) s else s
    ]

-- The `exit` handler of the process `pid`.
unfoldable pub child_exit : ℕ → Supervisor → Supervisor
unfolding write_meta
child_exit pid s =
    let gone = record s { live = filter (λ q. not (q == pid)) s.live; child = none } in
    let noted = write_meta none gone in
    if s.shutting_down
    then noted
    else record noted { restarts = suc s.restarts; restart_timers = suc s.restart_timers }

unfoldable pub restart_fires : Supervisor → Supervisor
unfolding spawn_child
restart_fires s = spawn_child crash_restart (record s { restart_timers = s.restart_timers - 1 })

unfoldable pub shutdown : ℕ → Supervisor → Supervisor
unfolding stop_child
shutdown now s =
    if s.shutting_down then s else record (stop_child sigterm (record s { shutting_down = true })) {
      stop_file = false;
      kill_at = some (now + 3000);
      exit_at = some (now + 500);
    }

-- The interval that restarts the server when its bundle changed; `none` where `statSync` throws.
unfoldable pub hmr_tick : Option ℕ → ℕ → Supervisor → Supervisor
unfolding shutdown stop_child
hmr_tick stat now s =
    if s.shutting_down || not (is_some s.child)
    then s
    else if s.stop_file
    then shutdown now s
    else elim stat [
      | none ↦ s
      | some mtime ↦
          if ltb (s.last_bundle_mtime + 1) mtime
          then stop_child sigterm (record s { last_bundle_mtime = mtime })
          else s
    ]

-- The interval that finds a lost child.
unfoldable pub keep_alive : ℕ → Supervisor → Supervisor
unfolding shutdown spawn_child
keep_alive now s =
    if s.shutting_down
    then s
    else if s.stop_file
    then shutdown now s
    else if not (is_some s.child)
    then spawn_child orphan_recover s
    else if child_alive s
    then s
    else record s { child = none }

abbrev pub due : ℕ → Option ℕ → Bool
due now none = false
due now (some t) = leb t now

-- The two timers of `shutdown`, in the order in which they come due.
unfoldable pub run_timers : ℕ → Supervisor → Supervisor
unfolding stop_child
run_timers now s =
    if due now s.exit_at
    then record s { exited = some 0 }
    else if due now s.kill_at
    then record (stop_child sigkill s) { kill_at = none }
    else s
