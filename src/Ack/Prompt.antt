-- ===== src/Ack/Prompt.antt =====
-- packages/core/src/ack/ack-algo.ts: operator prompt detection.
pub mod Mesh
use seat_mesh.Prelude.{
  ℕ, Bool, ◌&&◌, ◌||◌, Option, none, some, List, [], ◌∷◌, if◌then◌else◌, ◌==◌, ltb, leb, length,
  take,
}
use seat_mesh.Prelude.Text.{
  Text, trim, to_lower, collapse_spaces, includes, split_lines, is_space, is_truthy,
}
use seat_mesh.Message.InjectText.{is_sm_inject_text}

pub record PromptObservation : Type 0 where
  pub draft : Text
  pub capture_tail : Text

pub record PromptWatchState : Type 0 where
  pub pending_draft : Text
  pub pending_at : ℕ

pub data PromptWatchEvent : Type 0 where
  quiet : PromptWatchEvent
  typing : PromptWatchEvent
  submitted : Text → PromptWatchEvent
  abandoned : PromptWatchEvent

abbrev pub empty_prompt_watch : PromptWatchState
empty_prompt_watch = record { pending_draft = []; pending_at = 0 }

unfoldable pub normalize_prompt_text : Text → Text
unfolding trim to_lower collapse_spaces
normalize_prompt_text s = to_lower (trim (collapse_spaces s))

-- The class of `PROMPT_GUTTER_RE`.
is_gutter : ℕ → Bool
unfolding is_space
is_gutter c =
    is_space c
    || c == b'>'
    || c == 0x276f
    || c == 0x23fa
    || c == 0xb7
    || c == 0x2022
    || c == 0x2502
    || c == 0x2503
    || c == b'|'
    || c == b'*'
    || c == b'+'
    || c == b'-'

drop_gutter : Text → Text
unfolding is_gutter
drop_gutter [] = []
drop_gutter (c ∷ s) = if is_gutter c then drop_gutter s else c ∷ s

abbrev pub echo_min_prefix : ℕ
echo_min_prefix = 4

abbrev pub echo_prefix_len : ℕ
echo_prefix_len = 40

-- The loop over the lines of the capture.
find_echo : Text → Text → List Text → Text
unfolding drop_gutter trim normalize_prompt_text includes
find_echo prefix draft [] = []
find_echo prefix draft (line ∷ lines) =
    let body = trim (drop_gutter line) in
    let on = find_echo prefix draft lines in
    if is_truthy body && includes prefix (normalize_prompt_text body)
    then (if leb (length (trim draft)) (length body) then body else trim draft)
    else on

unfoldable pub extract_submitted_prompt : Text → Text → Text
unfolding normalize_prompt_text find_echo split_lines
extract_submitted_prompt capture_tail draft =
    let want = normalize_prompt_text draft in
    if ltb (length want) echo_min_prefix
    then []
    else find_echo (take echo_prefix_len want) draft (split_lines capture_tail)

-- `prev?.pendingAt || nowMs`
abbrev since : Option PromptWatchState → ℕ → ℕ
since none now = now
since (some prev) now = if prev.pending_at == 0 then now else prev.pending_at

abbrev pub draft_before : Option PromptWatchState → Text
draft_before none = []
draft_before (some prev) = prev.pending_draft

-- The composer is empty: what became of the pending draft?
settle_draft : Text → Text → PromptWatchEvent
unfolding extract_submitted_prompt
settle_draft [] tail = quiet
settle_draft (c ∷ s) tail = elim (extract_submitted_prompt tail (c ∷ s)) [
  | [] ↦ abandoned
  | d ∷ t ↦ submitted (d ∷ t)
]

classify_draft : Option PromptWatchState → Text → Text → ℕ → PromptWatchState × PromptWatchEvent
unfolding settle_draft
classify_draft prev [] tail now = (empty_prompt_watch, settle_draft (trim (draft_before prev)) tail)
classify_draft prev (c ∷ s) tail now =
    if is_sm_inject_text (c ∷ s)
    then (empty_prompt_watch, quiet)
    else (record { pending_draft = c ∷ s; pending_at = since prev now }, typing)

unfoldable pub classify_prompt_tick :
    Option PromptWatchState → PromptObservation → ℕ → PromptWatchState × PromptWatchEvent
unfolding classify_draft
classify_prompt_tick prev obs now = classify_draft prev (trim obs.draft) obs.capture_tail now
