-- ===== src/Supervisor/Shutdown.antt =====
-- What is left to happen once the supervisor is shutting down.
use seat_mesh.Prelude.{
  ℕ, ◌≡◌, refl, ◌∙◌, Bool, true, Option, List, [], ◌∷◌, ◌++◌, sym, arith, inl, inr, ◌⊎◌,
}
use seat_mesh.Supervisor.{
  Supervisor, Call, port_wait, health_wait, spawn_child, child_exit, restart_fires, shutdown,
  hmr_tick, keep_alive, run_timers, write_meta, stop_child, process_alive,
}
use seat_mesh.Supervisor.Run.{
  Step, polls_port, polls_health, exits, restart_due, signalled, checks_bundle, checks_child, timed,
  stop_file_set, Reach, here, next, start,
}
use seat_mesh.Supervisor.Slot.{IsSound}
use seat_mesh.Supervisor.Sound.{Reach-IsSound, start-IsSound}

-- Shutting down, with no call of `spawnChild` under way.
abbrev pub IsClosing : Supervisor → Type 0
IsClosing s = (s.shutting_down ≡ true) × (s.calls ≡ [])

-- Nothing was restarted, and the live servers are those from before, or none.
abbrev Winds : Supervisor → Supervisor → Type 0
Winds s t = IsClosing t × (t.restarts ≡ s.restarts) × ((t.live ≡ s.live) ⊎ (t.live ≡ []))

child_exit-Winds :
    (pid : ℕ) (s : Supervisor)
    → IsSound s
    → process_alive s pid ≡ true
    → IsClosing s
    → Winds s (child_exit pid s)
unfolding child_exit write_meta process_alive
child_exit-Winds pid s h e (d, c) =
    ((ground arith, ground arith), ground arith, inr (ground (arith, h.slotted, e)))

restart_fires-Winds : (s : Supervisor) → IsClosing s → Winds s (restart_fires s)
unfolding restart_fires spawn_child
restart_fires-Winds s (d, c) = ((ground arith, ground arith), ground arith, inl (ground arith))

shutdown-same : (now : ℕ) (s : Supervisor) → s.shutting_down ≡ true → shutdown now s ≡ s
unfolding shutdown
shutdown-same now s d = ground arith

hmr_tick-same :
    (stat : Option ℕ) (now : ℕ) (s : Supervisor) → s.shutting_down ≡ true → hmr_tick stat now s ≡ s
unfolding hmr_tick
hmr_tick-same stat now s d = ground arith

keep_alive-same : (now : ℕ) (s : Supervisor) → s.shutting_down ≡ true → keep_alive now s ≡ s
unfolding keep_alive
keep_alive-same now s d = ground arith

run_timers-Winds : (now : ℕ) (s : Supervisor) → IsClosing s → Winds s (run_timers now s)
unfolding run_timers stop_child
run_timers-Winds now s (d, c) = ((ground arith, ground arith), ground arith, inl (ground arith))

Winds-same : (s t : Supervisor) → IsClosing s → t ≡ s → Winds s t
Winds-same s t c e = rw e (c, refl, inl refl)

no_call : (ahead behind : List Call) (c : Call) → [] ≡ ahead ++ c ∷ behind → ⊥
no_call [] behind c e = ground arith
no_call (a ∷ ahead) behind c e = ground arith

Step-Winds : {s t : Supervisor} → IsSound s → Step s t → IsClosing s → Winds s t
Step-Winds h (polls_port s ahead behind r serving late pid mtime now e _) (d, c) =
    absurd (no_call ahead behind (port_wait r) (sym c ∙ e))
Step-Winds h (polls_health s ahead behind r reply late e) (d, c) =
    absurd (no_call ahead behind (health_wait r) (sym c ∙ e))
Step-Winds h (exits s pid e) c = child_exit-Winds pid s h e c
Step-Winds h (restart_due s e) c = restart_fires-Winds s c
Step-Winds h (signalled s now) c = Winds-same s _ c (shutdown-same now s c.0)
Step-Winds h (checks_bundle s stat now e) c = Winds-same s _ c (hmr_tick-same stat now s c.0)
Step-Winds h (checks_child s now e) c = Winds-same s _ c (keep_alive-same now s c.0)
Step-Winds h (timed s now) c = run_timers-Winds now s c
Step-Winds h (stop_file_set s there) (d, c) = ((d, c), refl, inl refl)

Winds-next : (s t u : Supervisor) → Winds s t → Winds t u → Winds s u
Winds-next s t u (c, r, l) (c', r', l') = (
  c',
  r' ∙ r,
  elim l' [
    | inl same ↦ elim l [ inl e ↦ inl (same ∙ e) | inr e ↦ inr (same ∙ e) ]
    | inr gone ↦ inr gone
  ],
)

Reach-Winds : {s t : Supervisor} → IsSound s → Reach s t → IsClosing s → Winds s t
Reach-Winds h here c = (c, refl, inl refl)
Reach-Winds {s} h (next {t} {u} r _ st) c =
    let w = Reach-Winds h r c in Winds-next s t u w (Step-Winds (Reach-IsSound h r) st w.0)

-- Once the supervisor is shutting down and no call of `spawnChild` is under way, that stays so in
-- each state that it reaches; it counts no further restart, and the servers that are live are the
-- ones that were live, or none.
pub shutdown_is_final :
    (stop_file : Bool) (mtime : ℕ) {s t : Supervisor}
    → Reach (start stop_file mtime) s
    → IsClosing s
    → Reach s t
    → IsClosing t × (t.restarts ≡ s.restarts) × ((t.live ≡ s.live) ⊎ (t.live ≡ []))
shutdown_is_final stop_file mtime r c q =
    Reach-Winds (Reach-IsSound (start-IsSound stop_file mtime) r) q c
