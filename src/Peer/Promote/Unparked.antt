-- ===== src/Peer/Promote/Unparked.antt =====
-- What one step of a promotion keeps: rows of the backlog, and rows of the peer file that are not
-- parked.
use seat_mesh.Prelude.{
  ℕ, ◌≡◌, refl, Bool, true, not, ◌&&◌, ◌||◌, is_some, List, [], ◌∷◌, any, modify_first, Memᴰ, arith,
  Bool-cases, inl, inr, ◌⊎◌,
}
use seat_mesh.Prelude.Text.{Text, text_eq, text_eq_iff, text_eq_refl}
use seat_mesh.Message.SentToken.{peer_sent_token}
use seat_mesh.Store.Rows.{PeerRow, opt_is, skipped}
use seat_mesh.Peer.Skip.{is_thin_room_unseen_ping}
use seat_mesh.Peer.Backlog.{
  BacklogRow, is_injected, replace_or_push, as_injected, finalize_already_injected,
}
use seat_mesh.Peer.Promote.{Promotion, has_token, thin_skipped, strip_row}

-- No parked row: it waits to be sent, was injected, or is skipped for good.
abbrev pub is_unparked : PeerRow → Bool
is_unparked r = not r.sent || is_some r.injected_at || opt_is r.deliver_pane skipped

abbrev pub unparked : Text → PeerRow → Bool
unparked id r = text_eq r.id id && is_unparked r

any-replace_or_push :
    (id : Text) (row : PeerRow) (peer : List PeerRow)
    → is_unparked row ≡ true
    → any (unparked id) (replace_or_push row peer) ≡ (text_eq row.id id || any (unparked id) peer)
unfolding replace_or_push
any-replace_or_push id row [] h = rw h (ground arith)
any-replace_or_push id row (p ∷ ps) h = elim (Bool-cases (text_eq p.id row.id)) [
  | inl same ↦ rw (same, h, (text_eq_iff p.id row.id).0 same) (ground arith)
  | inr other ↦ rw (other, any-replace_or_push id row ps h) (ground arith)
]

any-thin_skipped :
    (id k : Text) (now : ℕ) (peer : List PeerRow)
    → any (unparked id) peer ≡ true
    → any (unparked id) (modify_first (λ r. text_eq r.id k) (thin_skipped now) peer) ≡ true
any-thin_skipped id k now [] h = h
any-thin_skipped id k now (p ∷ ps) h = elim (Bool-cases (text_eq p.id k)) [
  | inl hit ↦ rw hit (elim (Bool-cases (text_eq p.id id)) [
    | inl t ↦ rw t (ground (arith, text_eq_refl skipped))
    | inr f ↦ rw f (rw f at h)
  ])
  | inr miss ↦ rw miss (elim (Bool-cases (unparked id p)) [
    | inl t ↦ rw t refl
    | inr f ↦ rw f (any-thin_skipped id k now ps (rw f at h))
  ])
]

-- Nothing that is kept in the backlog or unparked in the peer file is lost.
pub record Keeps (p q : Promotion) : Type 0 where
  pub peer_kept : (id : Text) → any (unparked id) p.peer ≡ true → any (unparked id) q.peer ≡ true
  pub backlog_kept : {e : BacklogRow} → Memᴰ e p.kept → Memᴰ e q.kept

-- Where a row of the backlog is afterwards.
abbrev pub IsSettled : Promotion → BacklogRow → Type 0
IsSettled p e =
    Memᴰ e p.kept
    ⊎ ((any (unparked e.row.id) p.peer ≡ true) ⊎ (is_thin_room_unseen_ping e.row ≡ true))

pub Keeps-refl : (p : Promotion) → Keeps p p
Keeps-refl p = record { peer_kept = λ id h. h; backlog_kept = λ m. m }

pub Keeps-trans : {p q r : Promotion} → Keeps p q → Keeps q r → Keeps p r
Keeps-trans a b = record {
  peer_kept = λ id h. b.peer_kept id (a.peer_kept id h);
  backlog_kept = λ m. b.backlog_kept (a.backlog_kept m);
}

pub IsSettled-Keeps : {p q : Promotion} (e : BacklogRow) → Keeps p q → IsSettled p e → IsSettled q e
IsSettled-Keeps e k (inl m) = inl (k.backlog_kept m)
IsSettled-Keeps e k (inr (inl h)) = inr (inl (k.peer_kept e.row.id h))
IsSettled-Keeps e k (inr (inr h)) = inr (inr h)

pub put-Keeps :
    (p q : Promotion) (row : PeerRow)
    → is_unparked row ≡ true
    → q.peer ≡ replace_or_push row p.peer
    → q.kept ≡ p.kept
    → Keeps p q × (any (unparked row.id) q.peer ≡ true)
put-Keeps p q row u e k = (
  record {
    peer_kept = λ id h. rw (e, any-replace_or_push id row p.peer u, h) (ground arith);
    backlog_kept = λ m. rw k m;
  },
  rw (e, any-replace_or_push row.id row p.peer u, text_eq_refl row.id) refl,
)

abbrev pub StripSettles : ℕ → Promotion → BacklogRow → Type 0
StripSettles now p e =
    Keeps p (strip_row now p e).0
    × (((strip_row now p e).1 ≡ true) ⊎ IsSettled (strip_row now p e).0 e)

pub strip_row-Settles : (now : ℕ) (p : Promotion) (e : BacklogRow) → StripSettles now p e
unfolding strip_row finalize_already_injected
strip_row-Settles now p e =
    elim (Bool-cases (is_injected e.row || has_token p.tokens (peer_sent_token e.row.msg))) [
      | inl t ↦
          let q = (strip_row now p e).0 in
          let (k, a) =
            put-Keeps p q (as_injected e.row now) (ground arith) (rw (t, strip_row) refl)
              (rw (t, strip_row) refl) in
          (k, inr (inr (inl a)))
      | inr f ↦ elim (Bool-cases (is_thin_room_unseen_ping e.row)) [
        | inl t ↦
            rw (f, t, strip_row)
              (
                record {
                  peer_kept = λ id h. any-thin_skipped id e.row.id now p.peer h;
                  backlog_kept = λ m. m;
                },
                inr (inr (inr refl)),
              )
        | inr g ↦ rw (f, g, strip_row) (Keeps-refl p, inl refl)
      ]
    ]
