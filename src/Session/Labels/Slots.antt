-- ===== src/Session/Labels/Slots.antt =====
-- No two workers share a slot.
use seat_mesh.Prelude.{
  ℕ, zero, suc, ◌≡◌, refl, sym, ◌∙◌, ap, true, false, none, some, List, [], ◌∷◌, inl, inr, All,
  All-of, arith, Bool-cases, Option-cases,
}
use seat_mesh.Prelude.Text.{Text, codes, text_eq, text_eq_iff, is_truthy}
use seat_mesh.Session.Labels.{
  Pane, has, next_free_slot, in_slots, worker_slot, worker_slots, stamp_worker_slot,
  restamp_workers, label_new, assign_worker_identities,
}
use seat_mesh.Session.Labels.Free.{
  AreDistinct, next_free_slot-free, IsOldOrFree, has-none, mem-has, apart, old_apart, used_more,
  widen_old, narrow_used, has_self,
}

module _ (formula : Text) (max : ℕ) where
  slots-some :
      (p : Pane) (ps : List Pane) (n : ℕ)
      → worker_slot max p ≡ some n
      → worker_slots max (p ∷ ps) ≡ n ∷ worker_slots max ps
  unfolding worker_slots
  slots-some p ps n e = rw (e, worker_slots) refl

  slots-none :
      (p : Pane) (ps : List Pane)
      → worker_slot max p ≡ none
      → worker_slots max (p ∷ ps) ≡ worker_slots max ps
  unfolding worker_slots
  slots-none p ps e = rw (e, worker_slots) refl

  slot-range : (p : Pane) (n : ℕ) → worker_slot max p ≡ some n → in_slots max n ≡ true
  unfolding worker_slot
  slot-range p n e = ground arith

  stamped_slot :
      (p : Pane) (n : ℕ)
      → in_slots max n ≡ true
      → worker_slot max (stamp_worker_slot formula p n) ≡ some n
  unfolding worker_slot stamp_worker_slot text_eq
  stamped_slot p n h = rw h refl

  worker_is_truthy :
      (p : Pane) (n : ℕ) → worker_slot max p ≡ some n → text_eq p.role (codes "worker") ≡ true
  unfolding worker_slot
  worker_is_truthy p n e = ground arith

  restamp-slots :
      (ps : List Pane) → worker_slots max (restamp_workers formula max ps) ≡ worker_slots max ps
  unfolding restamp_workers
  restamp-slots [] = refl
  restamp-slots (p ∷ ps) = elim (Option-cases (worker_slot max p)) [
    | inl e ↦
        rw (e, restamp_workers) (slots-none p _ e ∙ restamp-slots ps ∙ sym (slots-none p ps e))
    | inr (n, e) ↦
        rw (e, restamp_workers)
          (slots-some _ _ n (stamped_slot p n (slot-range p n e))
            ∙ ap (λ x. n ∷ x) (restamp-slots ps)
            ∙ sym (slots-some p ps n e))
  ]

  -- What labelling the new panes leaves, of panes whose slots are all in use.
  abbrev Labelled : List ℕ → List Pane → List Pane → Type 0
  Labelled used ps ps' =
      AreDistinct (worker_slots max ps')
      × All (IsOldOrFree (worker_slots max ps) used) (worker_slots max ps')

  same-Labelled :
      (used : List ℕ) (ps : List Pane) → AreDistinct (worker_slots max ps) → Labelled used ps ps
  same-Labelled used ps d = (d, All-of _ (worker_slots max ps) (λ x m. inl (mem-has x _ m)))

  -- A pane that keeps its label.
  kept_pane :
      (used : List ℕ) (p : Pane) (ps ps' : List Pane)
      → AreDistinct (worker_slots max (p ∷ ps))
      → All (λ w. has used w ≡ true) (worker_slots max (p ∷ ps))
      → (AreDistinct (worker_slots max ps)
          → All (λ w. has used w ≡ true) (worker_slots max ps)
          → Labelled used ps ps')
      → Labelled used (p ∷ ps) (p ∷ ps')
  kept_pane used p ps ps' d u ih = elim (Option-cases (worker_slot max p)) [
    | inl e ↦
        let (d', o) = ih (rw (slots-none p ps e) at d) (rw (slots-none p ps e) at u) in
        rw (slots-none p ps e, slots-none p ps' e) (d', o)
    | inr (w, e) ↦
        let (a, d₁) = rw (slots-some p ps w e) at d in
        let (b, u₁) = rw (slots-some p ps w e) at u in
        let (d', o) = ih d₁ u₁ in
        rw (slots-some p ps w e, slots-some p ps' w e)
          (
            (has-none w _ (apart w (worker_slots max ps) used _ b a o), d'),
            (inl (has_self w _), widen_old w (worker_slots max ps) used _ o),
          )
  ]

  -- A pane that gets a free slot.
  new_pane :
      (used : List ℕ) (p : Pane) (s : ℕ) (ps ps' : List Pane)
      → worker_slot max p ≡ none
      → in_slots max s ≡ true
      → has used s ≡ false
      → All (λ w. has used w ≡ true) (worker_slots max ps)
      → Labelled (s ∷ used) ps ps'
      → Labelled used (p ∷ ps) (stamp_worker_slot formula p s ∷ ps')
  new_pane used p s ps ps' blank i f u (d', o) =
      let e = stamped_slot p s i in
      let fresh = old_apart s (worker_slots max ps) used f u in
      rw (slots-none p ps blank, slots-some (stamp_worker_slot formula p s) ps' s e)
        (
          (has-none s _ (apart s (worker_slots max ps) (s ∷ used) _ (has_self s used) fresh o), d'),
          (inr f, narrow_used s (worker_slots max ps) used _ o),
        )

  blank_slot : (p : Pane) → is_truthy p.role ≡ false → worker_slot max p ≡ none
  blank_slot p h = elim (Option-cases (worker_slot max p)) [
    | inl e ↦ e
    | inr (n, e) ↦ absurd (
        let same = (text_eq_iff p.role (codes "worker")).0 (worker_is_truthy p n e) in
        let h' = rw same at h in ground arith)
  ]

  label_new-Labelled :
      (n : ℕ) (used : List ℕ) (ps : List Pane)
      → AreDistinct (worker_slots max ps)
      → All (λ w. has used w ≡ true) (worker_slots max ps)
      → Labelled used ps (label_new formula max n used ps)
  unfolding label_new
  label_new-Labelled zero used ps d u = same-Labelled used ps d
  label_new-Labelled (suc n) used [] d u = same-Labelled used [] d
  label_new-Labelled (suc n) used (p ∷ ps) d u = elim (Bool-cases (is_truthy p.role)) [
    | inl t ↦ rw (t, label_new) (kept_pane used p ps _ d u (label_new-Labelled n used ps))
    | inr f ↦
        let blank = blank_slot p f in
        let d₁ = rw (slots-none p ps blank) at d in
        let u₁ = rw (slots-none p ps blank) at u in
        elim (Option-cases (next_free_slot used max)) [
          | inl e ↦ rw (f, label_new, e) (same-Labelled used (p ∷ ps) d)
          | inr (s, e) ↦
              let (i, free) = next_free_slot-free used max e in
              rw (f, label_new, e)
                (new_pane used p s ps _ blank i free u₁
                  (label_new-Labelled n (s ∷ used) ps d₁ (used_more s used _ u₁)))
        ]
  ]

  each_used : (xs : List ℕ) → All (λ w. has xs w ≡ true) xs
  each_used xs = All-of _ xs (λ x m. mem-has x xs m)

  label_new-keeps :
      (n : ℕ) (used : List ℕ) (ps : List Pane) (w : ℕ)
      → has (worker_slots max ps) w ≡ true
      → has (worker_slots max (label_new formula max n used ps)) w ≡ true
  unfolding label_new
  label_new-keeps zero used ps w h = h
  label_new-keeps (suc n) used [] w h = h
  label_new-keeps (suc n) used (p ∷ ps) w h = elim (Bool-cases (is_truthy p.role)) [
    | inl t ↦
        rw (t, label_new)
          (elim (Option-cases (worker_slot max p)) [
            | inl e ↦
                let k = label_new-keeps n used ps w (rw (slots-none p ps e) at h) in
                rw (slots-none p (label_new formula max n used ps) e) k
            | inr (v, e) ↦
                let h' = rw (slots-some p ps v e) at h in
                rw (slots-some p (label_new formula max n used ps) v e)
                  (ground (arith, label_new-keeps n used ps w))
          ])
    | inr f ↦
        let blank = blank_slot p f in
        let h' = rw (slots-none p ps blank) at h in
        elim (Option-cases (next_free_slot used max)) [
          | inl e ↦ rw (f, label_new, e) h
          | inr (s, e) ↦
              let (i, free) = next_free_slot-free used max e in
              rw
                (
                  f,
                  label_new,
                  e,
                  slots-some (stamp_worker_slot formula p s) (label_new formula max n (s ∷ used) ps)
                      s (stamped_slot p s i),
                )
                (ground (arith, label_new-keeps n (s ∷ used) ps w h'))
        ]
  ]

  -- Where the workers of a window have different slots, they still have after the labelling of its
  -- panes, the newly labelled ones included, and each slot that a worker had is still held.
  pub assign_worker_identities-distinct :
      (ps : List Pane)
      → AreDistinct (worker_slots max ps)
      → let ps' = assign_worker_identities formula max ps in
        AreDistinct (worker_slots max ps')
        × All (λ w. has (worker_slots max ps') w ≡ true) (worker_slots max ps)
  unfolding assign_worker_identities
  assign_worker_identities-distinct ps d = (
    (label_new-Labelled max (worker_slots max ps) (restamp_workers formula max ps)
        (rw (restamp-slots ps) d) (rw (restamp-slots ps) (each_used (worker_slots max ps)))).0,
    All-of _ (worker_slots max ps) λ w m.
        label_new-keeps max (worker_slots max ps) (restamp_workers formula max ps) w
          (rw (restamp-slots ps) (mem-has w (worker_slots max ps) m)),
  )
