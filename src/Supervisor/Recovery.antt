-- ===== src/Supervisor/Recovery.antt =====
-- What the supervisor does after a crash of the server: the recovery of a lost child, and the calls
-- of `spawnChild` that throw.
use seat_mesh.Prelude.{ℕ, ◌≡◌, Bool, true, false, none, some, [], ◌∷◌}
use seat_mesh.Supervisor.{Supervisor, Call, port_wait, health_wait}
use seat_mesh.Supervisor.Run.{Reach}

-- A server is live, and the supervisor knows it as its child.
abbrev pub Serves : Supervisor → Type 0
Serves t = (q : ℕ) × (t.live ≡ q ∷ []) × (t.child ≡ some q)

-- The premises under which the intervals look after a child that is gone.
record IsLost (s : Supervisor) : Type 0 where
  childless : s.child ≡ none
  dead : s.live ≡ []
  running : s.exited ≡ none
  wanted : s.shutting_down ≡ false
  kept : s.stop_file ≡ false
  installed : s.watching ≡ true

abbrev Revives : Supervisor → Type 0
Revives s = (t : Supervisor) × Reach s t × Serves t

abbrev pub in_health_wait : Call → Bool
in_health_wait (port_wait r) = false
in_health_wait (health_wait r) = true
