-- ===== src/Ack/Prompt/Mesh.antt =====
-- Ticks at which the composer shows nothing or the mesh's own text.
use seat_mesh.Prelude.{ℕ, ◌≡◌, refl, true, Option, none, some, List, [], ◌∷◌, ◌⊎◌, inl, inr, All}
use seat_mesh.Prelude.Text.{Text, trim}
use seat_mesh.Message.InjectText.{is_sm_inject_text}
use seat_mesh.Ack.Prompt.{
  PromptObservation, PromptWatchState, PromptWatchEvent, quiet, empty_prompt_watch, draft_before,
  classify_draft, classify_prompt_tick,
}

-- The events of the ticks of one pane.
pub prompt_run : Option PromptWatchState → List (PromptObservation × ℕ) → List PromptWatchEvent
prompt_run prev [] = []
prompt_run prev ((obs, now) ∷ rest) =
    let (next, event) = classify_prompt_tick prev obs now in event ∷ prompt_run (some next) rest

-- The composer shows nothing, or text that the mesh pasted.
abbrev pub IsMesh : PromptObservation × ℕ → Type 0
IsMesh t = (trim t.0.draft ≡ []) ⊎ (is_sm_inject_text (trim t.0.draft) ≡ true)

trim_nothing : trim [] ≡ []
unfolding trim
trim_nothing = refl

mesh_draft :
    (prev : Option PromptWatchState) (draft tail : Text) (now : ℕ)
    → draft_before prev ≡ []
    → (draft ≡ []) ⊎ (is_sm_inject_text draft ≡ true)
    → classify_draft prev draft tail now ≡ (empty_prompt_watch, quiet)
unfolding classify_draft
mesh_draft prev [] tail now nothing mesh = rw (nothing, trim_nothing, classify_draft) refl
mesh_draft prev (c ∷ s) tail now nothing (inl e) = absurd cc
mesh_draft prev (c ∷ s) tail now nothing (inr e) = rw (e, classify_draft) refl

mesh_run :
    (prev : Option PromptWatchState) (ticks : List (PromptObservation × ℕ))
    → draft_before prev ≡ []
    → All IsMesh ticks
    → All (λ e. e ≡ quiet) (prompt_run prev ticks)
unfolding prompt_run classify_prompt_tick
mesh_run prev [] nothing h = tt
mesh_run prev ((obs, now) ∷ ticks) nothing (mesh, h) =
    rw (mesh_draft prev (trim obs.draft) obs.capture_tail now nothing mesh)
      (refl, mesh_run (some empty_prompt_watch) ticks refl h)

-- A pane in whose composer only text of the mesh, or none, is ever seen has no prompt submitted,
-- abandoned or begun, whatever its captures show.
pub mesh_text_is_no_prompt :
    (ticks : List (PromptObservation × ℕ))
    → All IsMesh ticks
    → All (λ e. e ≡ quiet) (prompt_run none ticks)
mesh_text_is_no_prompt ticks h = mesh_run none ticks refl h
