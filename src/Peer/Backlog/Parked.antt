-- ===== src/Peer/Backlog/Parked.antt =====
-- The entries of a row's id in the backlog when the row is parked.
use seat_mesh.Prelude.{
  ℕ, ◌≡◌, refl, ap, ◌∙◌, Bool, false, List, [], ◌∷◌, ◌++◌, count, find?, is_some, arith, Bool-cases,
  inl, inr, if◌then◌else◌, Option-cases,
}
use seat_mesh.Prelude.Text.{Text, text_eq, text_eq_refl}
use seat_mesh.Prelude.Sort.{sort, insert}
use seat_mesh.Store.Rows.{PeerRow}
use seat_mesh.Store.Peers.{read_peer}
use seat_mesh.Peer.Backlog.{
  BacklogRow, PeerStore, place, latest_from, parked_first, write_backlog, drop_entry, is_injected,
  as_parked, park_peer_to_backlog,
}

abbrev pub of_id : Text → BacklogRow → Bool
of_id id e = text_eq e.row.id id

insert-count :
    (p : BacklogRow → Bool) (e : BacklogRow) (es : List BacklogRow)
    → count p (insert parked_first e es) ≡ count p (e ∷ es)
unfolding insert
insert-count p e [] = refl
insert-count p e (x ∷ es) = elim (Bool-cases (parked_first e x)) [
  | inl t ↦ rw t refl
  | inr f ↦ rw f (ground (arith, insert-count p e es))
]

sort-count :
    (p : BacklogRow → Bool) (es : List BacklogRow) → count p (sort parked_first es) ≡ count p es
unfolding sort
sort-count p [] = refl
sort-count p (e ∷ es) = insert-count p e (sort parked_first es) ∙ ground (arith, sort-count p es)

latest-append :
    (acc es : List BacklogRow) (e : BacklogRow)
    → latest_from acc (es ++ e ∷ []) ≡ place e (latest_from acc es)
unfolding latest_from
latest-append acc [] e = refl
latest-append acc (x ∷ es) e = latest-append (place x acc) es e

place-absent :
    (id : Text) (e : BacklogRow) (es : List BacklogRow)
    → text_eq e.row.id id ≡ false
    → count (of_id id) es ≡ 0
    → count (of_id id) (place e es) ≡ 0
unfolding place
place-absent id e [] other h = rw other refl
place-absent id e (x ∷ es) other h = elim (Bool-cases (text_eq x.row.id e.row.id)) [
  | inl t ↦ rw (t, other) (ground (arith, h))
  | inr f ↦ rw f (ground (arith, h, place-absent id e es other))
]

latest-absent :
    (id : Text) (acc es : List BacklogRow)
    → count (of_id id) acc ≡ 0
    → count (of_id id) (latest_from acc (drop_entry id es)) ≡ 0
unfolding latest_from
latest-absent id acc [] h = h
latest-absent id acc (x ∷ es) h = elim (Bool-cases (text_eq x.row.id id)) [
  | inl t ↦ rw t (latest-absent id acc es h)
  | inr f ↦ rw f (latest-absent id (place x acc) es (place-absent id x acc f h))
]

place-new :
    (e : BacklogRow) (es : List BacklogRow)
    → count (of_id e.row.id) es ≡ 0
    → count (of_id e.row.id) (place e es) ≡ 1
unfolding place
place-new e [] h = rw (text_eq_refl e.row.id) refl
place-new e (x ∷ es) h = elim (Bool-cases (text_eq x.row.id e.row.id)) [
  | inl t ↦ absurd (let h' = rw t at h in omega arith)
  | inr f ↦ rw (f, f) (place-new e es (rw f at h))
]

written_none :
    (id : Text) (es : List BacklogRow) → count (of_id id) (write_backlog (drop_entry id es)) ≡ 0
unfolding write_backlog
written_none id es =
    sort-count (of_id id) (latest_from [] (drop_entry id es)) ∙ latest-absent id [] es refl

written_one :
    (e : BacklogRow) (es : List BacklogRow)
    → count (of_id e.row.id) (write_backlog (drop_entry e.row.id es ++ e ∷ [])) ≡ 1
unfolding write_backlog
written_one e es =
    let others = drop_entry e.row.id es in
    sort-count (of_id e.row.id) (latest_from [] (others ++ e ∷ []))
    ∙ ap (count (of_id e.row.id)) (latest-append [] others e)
    ∙ place-new e (latest_from [] others) (latest-absent e.row.id [] es refl)

-- Parking a row that was never pasted and that the peer file has leaves exactly one entry for its
-- id in the backlog, however many stood there before; parking one that was pasted before leaves
-- none; and for a row that the peer file has not the number of its entries stays.
pub park_leaves_one_entry :
    (s : PeerStore) (row : PeerRow) (reason : Text) (now : ℕ)
    → let s' = park_peer_to_backlog s row reason now in
      let known = is_some (find? (λ r. text_eq r.id row.id) (read_peer s.peer_file)) in
      count (of_id row.id) s'.backlog_file
      ≡ (if known then (if is_injected row then 0 else 1) else count (of_id row.id) s.backlog_file)
unfolding park_peer_to_backlog
park_leaves_one_entry s row reason now =
    elim (Option-cases (find? (λ r. text_eq r.id row.id) (read_peer s.peer_file))) [
      | inl miss ↦ rw (miss, park_peer_to_backlog) refl
      | inr (old, hit) ↦ elim (Bool-cases (is_injected row)) [
        | inl t ↦ rw (hit, t, park_peer_to_backlog) (written_none row.id s.backlog_file)
        | inr f ↦
            rw (hit, f, park_peer_to_backlog)
              (written_one
                (record { row = as_parked row now; backlog_at = now; hold_reason = reason })
                s.backlog_file)
      ]
    ]
