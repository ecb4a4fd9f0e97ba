-- ===== src/Supervisor/Slot.antt =====
-- The supervisor against a slot that holds at most one server process.
use seat_mesh.Prelude.{
  ℕ, ◌-◌, ◌≡◌, refl, Bool, true, false, ◌&&◌, Option, none, some, List, [], ◌∷◌, ◌++◌, any, arith,
  Bool-cases, inl, inr,
}
use seat_mesh.Supervisor.{
  Supervisor, Call, port_wait, health_wait, Reason, initial, crash_restart, orphan_recover, Health,
  spawn_child, start_server, finish_call, fail_call, port_poll, health_poll, health_verdict,
  child_exit, restart_fires, shutdown, hmr_tick, keep_alive, run_timers, write_meta, stop_child,
  process_alive, note_child, pid_truthy,
}

-- The processes that a child variable stands for.
abbrev pub slot : Option ℕ → List ℕ
slot none = []
slot (some p) = p ∷ []

abbrev pub in_port_wait : Call → Bool
in_port_wait (port_wait r) = true
in_port_wait _ = false

abbrev pub is_first : Reason → Bool
is_first initial = true
is_first _ = false

abbrev pub in_first_call : Call → Bool
in_first_call (port_wait r) = is_first r
in_first_call (health_wait r) = is_first r

-- `spawning` is set while one call is under way, and there is never a second.
abbrev pub guards : Bool → List Call → Bool
guards false [] = true
guards true (c ∷ []) = true
guards _ _ = false

pub record IsSound (s : Supervisor) : Type 0 where
  pub slotted : s.live ≡ slot s.child  -- the child is the one live server
  pub flagged : guards s.spawning s.calls ≡ true
  pub vacant : any in_port_wait s.calls ≡ true → s.child ≡ none
  pub installed : s.watching ≡ true → any in_first_call s.calls ≡ false

-- The call that goes on is the only one.
pub only_call :
    (spawning : Bool) (calls ahead behind : List Call) (c : Call)
    → guards spawning calls ≡ true
    → calls ≡ ahead ++ c ∷ behind
    → (calls ≡ c ∷ []) × (ahead ++ behind ≡ [])
only_call spawning calls [] [] c g e = (e, refl)
only_call spawning calls [] (b ∷ bs) c g e = absurd (let g' = rw e at g in ground arith)
only_call spawning calls (a ∷ []) behind c g e = absurd (let g' = rw e at g in ground arith)
only_call spawning calls (a ∷ a' ∷ as_) behind c g e = absurd (let g' = rw e at g in ground arith)

pub spawn_child-IsSound :
    (r : Reason) (s : Supervisor) → is_first r ≡ false → IsSound s → IsSound (spawn_child r s)
unfolding spawn_child process_alive
spawn_child-IsSound r s e h = record {
  slotted = ground (arith, h.slotted);
  flagged = ground (arith, h.flagged);
  vacant = ground (arith, h.slotted, h.vacant);
  installed = ground (arith, h.installed, e);
}

pub start_server-IsSound :
    (r : Reason) (pid : ℕ) (mtime : Option ℕ) (now : ℕ) (s : Supervisor)
    → s.calls ≡ port_wait r ∷ []
    → IsSound s
    → IsSound (start_server [] r pid mtime now s)
unfolding start_server fail_call
start_server-IsSound r pid none now s e h = record {
  slotted = ground (arith, h.slotted, h.vacant);
  flagged = ground arith;
  vacant = ground arith;
  installed = ground arith;
}
start_server-IsSound r pid (some mtime) now s e h = record {
  slotted = ground (arith, h.slotted, h.vacant);
  flagged = ground (arith, h.flagged);
  vacant = ground arith;
  installed = ground (arith, h.installed);
}

pub finish_call-IsSound : (r : Reason) (s : Supervisor) → IsSound s → IsSound (finish_call [] r s)
unfolding finish_call
finish_call-IsSound r s h = record {
  slotted = ground (arith, h.slotted);
  flagged = ground arith;
  vacant = ground arith;
  installed = ground arith;
}

pub fail_call-IsSound : (s : Supervisor) → IsSound s → IsSound (fail_call [] s)
unfolding fail_call
fail_call-IsSound s h = record {
  slotted = ground (arith, h.slotted);
  flagged = ground arith;
  vacant = ground arith;
  installed = ground arith;
}

pub child_exit-IsSound :
    (pid : ℕ) (s : Supervisor) → process_alive s pid ≡ true → IsSound s → IsSound (child_exit pid s)
unfolding child_exit write_meta process_alive
child_exit-IsSound pid s e h = record {
  slotted = ground (arith, h.slotted, e);
  flagged = ground (arith, h.flagged);
  vacant = ground arith;
  installed = ground (arith, h.installed);
}

pub shutdown-IsSound : (now : ℕ) (s : Supervisor) → IsSound s → IsSound (shutdown now s)
unfolding shutdown stop_child
shutdown-IsSound now s h = record {
  slotted = ground (arith, h.slotted);
  flagged = ground (arith, h.flagged);
  vacant = ground (arith, h.vacant);
  installed = ground (arith, h.installed);
}

pub port_poll-IsSound :
    (r : Reason) (serving late : Bool) (pid : ℕ) (mtime : Option ℕ) (now : ℕ) (s : Supervisor)
    → s.calls ≡ port_wait r ∷ []
    → IsSound s
    → IsSound (port_poll [] r serving late pid mtime now s)
unfolding port_poll
port_poll-IsSound r serving late pid mtime now s e h =
    ground (arith, start_server-IsSound r pid mtime now s e h, finish_call-IsSound r s h)

pub write_meta-IsSound : (pid : Option ℕ) (s : Supervisor) → IsSound s → IsSound (write_meta pid s)
unfolding write_meta
write_meta-IsSound pid s h = record {
  slotted = h.slotted;
  flagged = h.flagged;
  vacant = h.vacant;
  installed = h.installed;
}

pub note_child-IsSound :
    (r : Reason) (child : Option ℕ) (s : Supervisor) → IsSound s → IsSound (note_child [] r child s)
unfolding note_child
note_child-IsSound r none s h = fail_call-IsSound s h
note_child-IsSound r (some p) s h = finish_call-IsSound r _ (write_meta-IsSound (some p) s h)

pub health_verdict-IsSound :
    (r : Reason) (reply : Option Health) (s : Supervisor)
    → IsSound s
    → IsSound (health_verdict [] r reply s)
unfolding health_verdict
health_verdict-IsSound r none s h = note_child-IsSound r s.child s h
health_verdict-IsSound r (some reply) s h = elim (Bool-cases (pid_truthy reply.pid)) [
  | inl t ↦
      let k : IsSound (finish_call [] r (write_meta reply.pid s)) =
        finish_call-IsSound r _ (write_meta-IsSound reply.pid s h) in
      rw t (rw t at k)
  | inr f ↦ rw f (note_child-IsSound r s.child s h)
]

pub health_poll-IsSound :
    (r : Reason) (reply : Option Health) (late : Bool) (s : Supervisor)
    → IsSound s
    → IsSound (health_poll [] r reply late s)
unfolding health_poll
health_poll-IsSound r reply true s h = health_verdict-IsSound r none s h
health_poll-IsSound r none false s h = h
health_poll-IsSound r (some reply) false s h = elim (Bool-cases (reply.engine_ok && reply.ok)) [
  | inl t ↦ rw t (health_verdict-IsSound r (some reply) s h)
  | inr f ↦ rw f h
]

-- A change of fields that the invariant does not read keeps it.
pub IsSound-move :
    (s t : Supervisor)
    → (t.live ≡ s.live)
      × (t.child ≡ s.child)
      × (t.spawning ≡ s.spawning)
      × (t.calls ≡ s.calls)
      × (t.watching ≡ s.watching)
    → IsSound s
    → IsSound t
IsSound-move s t (a, b, c, d, e) h = record {
  slotted = rw (a, b) h.slotted;
  flagged = rw (c, d) h.flagged;
  vacant = rw (d, b) h.vacant;
  installed = rw (e, d) h.installed;
}

pub restart_fires-IsSound : (s : Supervisor) → IsSound s → IsSound (restart_fires s)
unfolding restart_fires
restart_fires-IsSound s h =
    let t : Supervisor = record s { restart_timers = s.restart_timers - 1 } in
    spawn_child-IsSound crash_restart t refl (IsSound-move s t (refl, refl, refl, refl, refl) h)

pub hmr_tick-IsSound :
    (stat : Option ℕ) (now : ℕ) (s : Supervisor) → IsSound s → IsSound (hmr_tick stat now s)
unfolding hmr_tick stop_child
hmr_tick-IsSound stat now s h = record {
  slotted = ground (arith, h.slotted, sh.slotted);
  flagged = ground (arith, h.flagged, sh.flagged);
  vacant = ground (arith, h.vacant, sh.vacant);
  installed = ground (arith, h.installed, sh.installed);
}
  where
    sh : IsSound (shutdown now s)
    sh = shutdown-IsSound now s h

pub keep_alive-IsSound : (now : ℕ) (s : Supervisor) → IsSound s → IsSound (keep_alive now s)
unfolding keep_alive process_alive
keep_alive-IsSound now s h = record {
  slotted = ground (arith, h.slotted, sh.slotted, sp.slotted);
  flagged = ground (arith, h.flagged, sh.flagged, sp.flagged);
  vacant = ground (arith, h.vacant, sh.vacant, sp.vacant, h.slotted);
  installed = ground (arith, h.installed, sh.installed, sp.installed);
}
  where
    sh : IsSound (shutdown now s)
    sh = shutdown-IsSound now s h

    sp : IsSound (spawn_child orphan_recover s)
    sp = spawn_child-IsSound orphan_recover s refl h

pub run_timers-IsSound : (now : ℕ) (s : Supervisor) → IsSound s → IsSound (run_timers now s)
unfolding run_timers stop_child
run_timers-IsSound now s h = record {
  slotted = ground (arith, h.slotted);
  flagged = ground (arith, h.flagged);
  vacant = ground (arith, h.vacant);
  installed = ground (arith, h.installed);
}
