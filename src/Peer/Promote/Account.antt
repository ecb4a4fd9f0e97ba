-- ===== src/Peer/Promote/Account.antt =====
-- An account of the parked rows that a promotion goes through.
use seat_mesh.Prelude.{
  ℕ, zero, suc, ◌+◌, ◌≤◌, ◌≡◌, refl, ap, ◌∙◌, Bool, true, false, not, ◌||◌, Option, List, [], ◌∷◌,
  ◌++◌, length, filter, take, drop, arith, Bool-cases, inl, inr, ◌⊎◌, length-append, length-take,
  if◌then◌else◌, or_else,
}
use seat_mesh.Prelude.Text.{Text, text_eq}
use seat_mesh.Prelude.Dict.{Dict, lookup, put}
use seat_mesh.Prelude.Sort.{sort, sort-length}
use seat_mesh.Message.AckClass.{is_ack_class_peer}
use seat_mesh.Message.SentToken.{peer_sent_token}
use seat_mesh.Store.Rows.{PeerRow}
use seat_mesh.Peer.Skip.{is_thin_room_unseen_ping}
use seat_mesh.Peer.Bulk.{peer_bulk_max}
use seat_mesh.Peer.Backlog.{BacklogRow, parked_first, is_injected, replace_or_push}
use seat_mesh.Peer.Promote.{
  PaneLook, Promotion, has_token, strip_row, strip_rows, revived, revive, keep, eligible_of,
  rest_parked_of, promote_still, cursor_follow_up_open, pane_idle_for_promote, promote_pane,
  promote_panes, by_pane, start,
}

-- The rows that are accounted for.
abbrev pub account : Promotion → ℕ
account p = p.promoted + p.dropped + length p.kept

strip_row-account :
    (now : ℕ) (p : Promotion) (e : BacklogRow)
    → (account (strip_row now p e).0 + (if (strip_row now p e).1 then 1 else 0) ≡ account p + 1)
      × ((strip_row now p e).0.promoted ≡ p.promoted)
unfolding strip_row
strip_row-account now p e =
    elim (Bool-cases (is_injected e.row || has_token p.tokens (peer_sent_token e.row.msg))) [
      | inl t ↦ rw (t, strip_row) (omega arith, refl)
      | inr f ↦ elim (Bool-cases (is_thin_room_unseen_ping e.row)) [
        | inl t ↦ rw (f, t, strip_row) (omega arith, refl)
        | inr g ↦ rw (f, g, strip_row) (omega arith, refl)
      ]
    ]

strip_rows-account :
    (now : ℕ) (p : Promotion) (es : List BacklogRow)
    → (account (strip_rows now p es).0 + length (strip_rows now p es).1 ≡ account p + length es)
      × ((strip_rows now p es).0.promoted ≡ p.promoted)
unfolding strip_rows
strip_rows-account now p [] = (omega arith, refl)
strip_rows-account now p (e ∷ es) =
    let (a, q) = strip_row-account now p e in
    let (b, r) = strip_rows-account now (strip_row now p e).0 es in (ground (arith, a, b), r ∙ q)

revive-account :
    (p : Promotion) (es : List BacklogRow)
    → (account (revive p es) ≡ account p + length es)
      × ((revive p es).promoted ≡ p.promoted + length es)
unfolding revive
revive-account p [] = (omega arith, omega arith)
revive-account p (e ∷ es) =
    let p' : Promotion = record p {
      peer = replace_or_push (revived e.row) p.peer;
      promoted = suc p.promoted;
      peer_dirty = true;
    } in
    let (a, b) = revive-account p' es in (omega (arith, a), omega (arith, b))

keep-account : (p : Promotion) (es : List BacklogRow) → account (keep p es) ≡ account p + length es
keep-account p es = omega (arith, length-append p.kept es)

length-take-drop :
    (n : ℕ) (es : List BacklogRow) → length (take n es) + length (drop n es) ≡ length es
length-take-drop zero es = omega arith
length-take-drop (suc n) [] = omega arith
length-take-drop (suc n) (e ∷ es) = omega (arith, length-take-drop n es)

length-split :
    (p : BacklogRow → Bool) (es : List BacklogRow)
    → length (filter p es) + length (filter (λ e. not (p e)) es) ≡ length es
length-split p [] = omega arith
length-split p (e ∷ es) = ground (arith, length-split p es)

length-eligible :
    (follow : Bool) (es : List BacklogRow)
    → length (eligible_of follow es) + length (rest_parked_of follow es) ≡ length es
unfolding eligible_of rest_parked_of
length-eligible true es = length-split (λ e. is_ack_class_peer e.row.msg) es
length-eligible false es = omega arith

promote_some-account :
    (p : Promotion) (xs rest : List BacklogRow)
    → let p' = keep (revive p (take peer_bulk_max xs)) (drop peer_bulk_max xs ++ rest) in
      (account p' ≡ account p + length xs + length rest) × (p'.promoted ≤ p.promoted + 5)
promote_some-account p xs rest =
    let (a, b) = revive-account p (take peer_bulk_max xs) in
    (
      omega (
        arith,
        keep-account (revive p (take peer_bulk_max xs)) (drop peer_bulk_max xs ++ rest),
        a,
        length-append (drop peer_bulk_max xs) rest,
        length-take-drop peer_bulk_max xs,
      ),
      omega (arith, b, length-take peer_bulk_max xs),
    )

pub list-cases :
    (xs : List BacklogRow) → (xs ≡ []) ⊎ ((x : BacklogRow) × (ys : List BacklogRow) × (xs ≡ x ∷ ys))
list-cases [] = inl refl
list-cases (x ∷ ys) = inr (x, ys, refl)

abbrev pub room_for : Bool → ℕ
room_for is_idle = if is_idle then 5 else 0

promote_still-account :
    (follow is_idle : Bool) (p : Promotion) (es : List BacklogRow)
    → (account (promote_still follow is_idle p es) ≡ account p + length es)
      × ((promote_still follow is_idle p es).promoted ≤ p.promoted + room_for is_idle)
unfolding promote_still
promote_still-account follow is_idle p [] = (omega arith, omega arith)
promote_still-account follow false p (e ∷ es) = (keep-account p (e ∷ es), omega arith)
promote_still-account follow true p (e ∷ es) = elim (list-cases (eligible_of follow (e ∷ es))) [
  | inl none_ ↦ rw (none_, promote_still) (keep-account p (e ∷ es), omega arith)
  | inr (x, xs, found) ↦
      let (a, b) = promote_some-account p (x ∷ xs) (rest_parked_of follow (e ∷ es)) in
      rw (found, promote_still)
        (omega (arith, a, length-eligible follow (e ∷ es), ap length found), b)
]

module _ (look : Text → Option PaneLook) (held : Text → Bool) (skip_gate : Bool) (now : ℕ) where
  -- One pane: every row is accounted for, and at most five rows of an idle pane are promoted, and
  -- none of another.
  promote_pane-account :
      (p : Promotion) (pane : Text) (rows : List BacklogRow)
      → (account (promote_pane look held skip_gate now p pane rows) ≡ account p + length rows)
        × ((promote_pane look held skip_gate now p pane rows).promoted
            ≤ p.promoted + room_for (pane_idle_for_promote skip_gate (held pane) (look pane)))
  unfolding promote_pane
  promote_pane-account p pane rows =
      let (a, b) = strip_rows-account now p (sort parked_first rows) in
      let (c, d) =
        promote_still-account (cursor_follow_up_open (look pane))
          (pane_idle_for_promote skip_gate (held pane) (look pane))
          (strip_rows now p (sort parked_first rows)).0
          (strip_rows now p (sort parked_first rows)).1 in
      (omega (arith, a, c, sort-length parked_first rows), rw b at d)

  abbrev entries : Dict (List BacklogRow) → ℕ
  entries [] = 0
  entries ((k, rows) ∷ d) = length rows + entries d

  -- Five for each pane that is idle.
  abbrev pub room : Dict (List BacklogRow) → ℕ
  room [] = 0
  room ((pane, rows) ∷ d) =
      room_for (pane_idle_for_promote skip_gate (held pane) (look pane)) + room d

  entries-put :
      (k : Text) (v : List BacklogRow) (d : Dict (List BacklogRow))
      → entries (put k v d) + length (or_else (lookup k d) []) ≡ entries d + length v
  unfolding put lookup
  entries-put k v [] = omega arith
  entries-put k v ((j, rows) ∷ d) = elim (Bool-cases (text_eq j k)) [
    | inl t ↦ rw t (omega arith)
    | inr f ↦ rw f (omega (arith, entries-put k v d))
  ]

  entries-by_pane :
      (es : List BacklogRow) (d : Dict (List BacklogRow))
      → entries (by_pane look held skip_gate now es d) ≡ entries d + length es
  unfolding by_pane
  entries-by_pane [] d = omega arith
  entries-by_pane (e ∷ es) d =
      let here = or_else (lookup e.row.target_pane d) [] in
      omega (
        arith,
        entries-by_pane es (put e.row.target_pane (here ++ e ∷ []) d),
        entries-put e.row.target_pane (here ++ e ∷ []) d,
        length-append here (e ∷ []),
      )

  panes-account :
      (p : Promotion) (d : Dict (List BacklogRow))
      → (account (promote_panes look held skip_gate now p d) ≡ account p + entries d)
        × ((promote_panes look held skip_gate now p d).promoted ≤ p.promoted + room d)
  unfolding promote_panes
  panes-account p [] = (omega arith, omega arith)
  panes-account p ((pane, rows) ∷ d) =
      let (a, b) = promote_pane-account p pane rows in
      let (c, e) = panes-account (promote_pane look held skip_gate now p pane rows) d in
      (omega (arith, a, c), omega (arith, b, e))

-- The counts of promoted and dropped rows and the rows that are kept add up to the backlog, and no
-- more rows are promoted than five for each pane that is idle.
pub promotion-account :
    (look : Text → Option PaneLook) (held : Text → Bool) (skip_gate : Bool) (now : ℕ)
    (peer : List PeerRow) (backlog : List BacklogRow)
    → let panes = by_pane look held skip_gate now backlog [] in
      let p = promote_panes look held skip_gate now (start look held skip_gate now peer) panes in
      (p.promoted + p.dropped + length p.kept ≡ length backlog)
      × (p.promoted ≤ room look held skip_gate now panes)
unfolding start
promotion-account look held skip_gate now peer backlog =
    let panes = by_pane look held skip_gate now backlog [] in
    let (a, b) = panes-account look held skip_gate now (start look held skip_gate now peer) panes in
    (omega (arith, a, entries-by_pane look held skip_gate now backlog []), omega (arith, b))
