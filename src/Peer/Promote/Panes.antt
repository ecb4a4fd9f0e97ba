-- ===== src/Peer/Promote/Panes.antt =====
-- The backlog by panes: every row of it stands under one of them.
use seat_mesh.Prelude.{
  ℕ, Bool, Option, List, [], ◌∷◌, ◌++◌, Memᴰ, mem-cons_inv, Bool-cases, inl, inr, ◌⊎◌, or_else,
  mem-append_right,
}
use mathlib.Core.List.Memᴰ.{append_left}
use seat_mesh.Prelude.Text.{Text, text_eq}
use seat_mesh.Prelude.Dict.{Dict, lookup, put}
use seat_mesh.Peer.Backlog.{BacklogRow}
use seat_mesh.Peer.Promote.{PaneLook, by_pane}

-- A row that stands under one of the panes.
abbrev pub InPanes : BacklogRow → Dict (List BacklogRow) → Type 0
InPanes e [] = ⊥
InPanes e ((pane, rows) ∷ d) = Memᴰ e rows ⊎ InPanes e d

put-InPanes :
    (e : BacklogRow) (k : Text) (v : List BacklogRow) (d : Dict (List BacklogRow))
    → Memᴰ e v
    → InPanes e (put k v d)
unfolding put
put-InPanes e k v [] m = inl m
put-InPanes e k v ((j, rows) ∷ d) m = elim (Bool-cases (text_eq j k)) [
  | inl t ↦ rw t (inl m)
  | inr f ↦ rw f (inr (put-InPanes e k v d m))
]

grow-InPanes :
    (e : BacklogRow) (k : Text) (v : List BacklogRow) (d : Dict (List BacklogRow))
    → (Memᴰ e (or_else (lookup k d) []) → Memᴰ e v)
    → InPanes e d
    → InPanes e (put k v d)
unfolding put lookup
grow-InPanes e k v [] f m = absurd m
grow-InPanes e k v ((j, rows) ∷ d) f m = elim (Bool-cases (text_eq j k)) [
  | inl t ↦
      let g : Memᴰ e rows → Memᴰ e v = rw t at f in
      rw t (elim m [ inl a ↦ inl (g a) | inr b ↦ inr b ])
  | inr n ↦
      let g : Memᴰ e (or_else (lookup k d) []) → Memᴰ e v = rw n at f in
      rw n (elim m [ inl a ↦ inl a | inr b ↦ inr (grow-InPanes e k v d g b) ])
]

module _ (look : Text → Option PaneLook) (held : Text → Bool) (skip_gate : Bool) (now : ℕ) where
  pub by_pane-InPanes :
      (es : List BacklogRow) (d : Dict (List BacklogRow)) (e : BacklogRow)
      → Memᴰ e es ⊎ InPanes e d
      → InPanes e (by_pane look held skip_gate now es d)
  unfolding by_pane
  by_pane-InPanes [] d e (inl m) = elim m [ ]
  by_pane-InPanes [] d e (inr m) = m
  by_pane-InPanes (x ∷ es) d e m =
      let here = or_else (lookup x.row.target_pane d) [] in
      by_pane-InPanes es (put x.row.target_pane (here ++ x ∷ []) d) e (elim m [
        | inl a ↦ elim (mem-cons_inv a) [
          | inl same ↦ inr (
              put-InPanes e x.row.target_pane (here ++ x ∷ []) d
                (mem-append_right here (x ∷ []) (Memᴰ.head same)))
          | inr b ↦ inl b
        ]
        | inr c ↦ inr (grow-InPanes e x.row.target_pane (here ++ x ∷ []) d (append_left (x ∷ [])) c)
      ])
