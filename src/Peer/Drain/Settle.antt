-- ===== src/Peer/Drain/Settle.antt =====
-- What a drain does to the rows that wait.
use seat_mesh.Prelude.{
  ℕ, ◌≡◌, refl, sym, ap, ◌∙◌, true, false, not, List, [], ◌∷◌, ◌++◌, Memᴰ, find?, arith, Bool-cases,
  Option-cases, inl, inr, filter, if◌then◌else◌, mem-filter,
}
use seat_mesh.Prelude.Text.{Text, text_eq, text_eq_iff}
use seat_mesh.Store.Rows.{PeerRow, DeliverMode, is_peer_delivered}
use seat_mesh.Store.Peers.{read_peer, update_peer}
use seat_mesh.Store.Peers.Update.{hits, filter-update}
use seat_mesh.Peer.Skip.{as_skipped, mark_peer_row_skipped, is_thin_room_unseen_ping, is_cold_start}
use seat_mesh.Peer.Pending.{waits, pending_peer_rows}
use seat_mesh.Peer.Backlog.{
  PeerStore, should_backlog_peer_hold, park_peer_to_backlog, is_injected, as_parked,
  as_delivered_before,
}
use seat_mesh.Peer.Drain.{
  DrainState, as_delivered, mark_delivered, mark_skipped, hold_rows, park_or_hold_rows, deliver_row,
  deliver_rows, skip_rows, with_peers, start_cold,
}

as_delivered-settled :
    (pane : Text) (mode : DeliverMode) (now : ℕ) (r : PeerRow)
    → waits (as_delivered pane mode now r) ≡ false
unfolding is_peer_delivered
as_delivered-settled pane mode now r = ground arith

as_skipped-settled : (now : ℕ) (r : PeerRow) → waits (as_skipped now r) ≡ false
unfolding is_peer_delivered text_eq
as_skipped-settled now r = ground arith

as_parked-settled : (now : ℕ) (r : PeerRow) → waits (as_parked r now) ≡ false
unfolding is_peer_delivered text_eq
as_parked-settled now r = ground arith

as_delivered_before-settled :
    (now : ℕ) (r : PeerRow) → is_injected r ≡ true → waits (as_delivered_before r now) ≡ false
unfolding is_peer_delivered
as_delivered_before-settled now r h = ground arith

-- The rows that wait, without those of an id.
abbrev pub without : Text → List PeerRow → List PeerRow
without id rows = filter (λ r. not (hits id r)) rows

update-settles :
    (id : Text) (f : PeerRow → PeerRow) (file : List PeerRow)
    → ((r : PeerRow) → text_eq r.id id ≡ true → (f r).id ≡ r.id)
    → ((r : PeerRow) → waits (f r) ≡ false)
    → pending_peer_rows (update_peer id f file) ≡ without id (pending_peer_rows file)
unfolding pending_peer_rows
update-settles id f file same settled = filter-update waits id f file same settled

-- Nothing waits that did not wait before.
abbrev pub Shrinks : List PeerRow → List PeerRow → Type 0
Shrinks file file' =
    (r : PeerRow) → Memᴰ r (pending_peer_rows file') → Memᴰ r (pending_peer_rows file)

update-Shrinks :
    (id : Text) (f : PeerRow → PeerRow) (file : List PeerRow)
    → ((r : PeerRow) → text_eq r.id id ≡ true → (f r).id ≡ r.id)
    → ((r : PeerRow) → waits (f r) ≡ false)
    → Shrinks file (update_peer id f file)
update-Shrinks id f file same settled r m =
    (mem-filter (λ s. not (hits id s)) (pending_peer_rows file)
      (rw (update-settles id f file same settled) at m)).0

park_file :
    (s : PeerStore) (row : PeerRow) (reason : Text) (now : ℕ)
    → (park_peer_to_backlog s row reason now).peer_file
      ≡ update_peer row.id
          (λ _. if is_injected row then as_delivered_before row now else as_parked row now)
          s.peer_file
unfolding park_peer_to_backlog update_peer
park_file s row reason now = elim (Option-cases (find? (hits row.id) (read_peer s.peer_file))) [
  | inl miss ↦ rw (miss, park_peer_to_backlog, update_peer) refl
  | inr (old, hit) ↦ elim (Bool-cases (is_injected row)) [
    | inl t ↦ rw (hit, t, park_peer_to_backlog, update_peer) refl
    | inr f ↦ rw (hit, f, park_peer_to_backlog, update_peer) refl
  ]
]

park-Shrinks :
    (s : PeerStore) (row : PeerRow) (reason : Text) (now : ℕ)
    → Shrinks s.peer_file (park_peer_to_backlog s row reason now).peer_file
park-Shrinks s row reason now =
    rw (park_file s row reason now) (elim (Bool-cases (is_injected row)) [
      | inl t ↦ rw t (
          update-Shrinks row.id (λ _. as_delivered_before row now) s.peer_file
            (λ r h. sym ((text_eq_iff r.id row.id).0 h))
            (λ _. as_delivered_before-settled now row t))
      | inr f ↦ rw f (
          update-Shrinks row.id (λ _. as_parked row now) s.peer_file
            (λ r h. sym ((text_eq_iff r.id row.id).0 h)) (λ _. as_parked-settled now row))
    ])

skip-Shrinks :
    (file : List PeerRow) (row : PeerRow) (now : ℕ)
    → Shrinks file (mark_peer_row_skipped file row now)
unfolding mark_peer_row_skipped
skip-Shrinks file row now =
    update-Shrinks row.id (as_skipped now) file (λ r h. refl) (as_skipped-settled now)

abbrev dropped : DrainState → PeerRow → ℕ → DrainState
dropped d row now = with_peers d (λ file. mark_peer_row_skipped file row now)

pub hold-Shrinks :
    (d : DrainState) (rows : List PeerRow) (now : ℕ)
    → Shrinks d.store.peer_file (hold_rows d rows now).0.store.peer_file
unfolding hold_rows
hold-Shrinks d [] now r m = m
hold-Shrinks d (row ∷ rows) now r m = elim (Bool-cases (is_thin_room_unseen_ping row)) [
  | inl t ↦
      skip-Shrinks d.store.peer_file row now r
        (hold-Shrinks (dropped d row now) rows now r (rw t at m))
  | inr f ↦ hold-Shrinks d rows now r (rw f at m)
]

pub park_or_hold-Shrinks :
    (d : DrainState) (rows : List PeerRow) (reason : Text) (now : ℕ)
    → Shrinks d.store.peer_file (park_or_hold_rows d rows reason now).0.store.peer_file
unfolding park_or_hold_rows
park_or_hold-Shrinks d [] reason now r m = m
park_or_hold-Shrinks d (row ∷ rows) reason now r m =
    elim (Bool-cases (should_backlog_peer_hold reason row.msg)) [
      | inr f ↦ park_or_hold-Shrinks d rows reason now r (rw f at m)
      | inl t ↦ elim (Bool-cases (is_thin_room_unseen_ping row)) [
        | inl thin ↦
            skip-Shrinks d.store.peer_file row now r
              (park_or_hold-Shrinks (dropped d row now) rows reason now r (rw (t, thin) at m))
        | inr thick ↦ park-Shrinks d.store row reason now r (
            park_or_hold-Shrinks (record d { store = park_peer_to_backlog d.store row reason now })
              rows reason now r (rw (t, thick) at m))
      ]
    ]

start_cold-store :
    (row : PeerRow) (pane : Text) (d : DrainState) → (start_cold row pane d).store ≡ d.store
start_cold-store row pane d = elim (Bool-cases (is_cold_start row)) [
  | inl t ↦ rw t refl
  | inr f ↦ rw f refl
]

pub skip_rows-Shrinks :
    (d : DrainState) (rows : List PeerRow) (now : ℕ)
    → Shrinks d.store.peer_file (skip_rows d rows now).store.peer_file
unfolding skip_rows mark_skipped
skip_rows-Shrinks d [] now r m = m
skip_rows-Shrinks d (row ∷ rows) now r m =
    let skipped_one = with_peers d (update_peer row.id (as_skipped now)) in
    let on = skip_rows-Shrinks (start_cold row row.target_pane skipped_one) rows now r m in
    update-Shrinks row.id (as_skipped now) d.store.peer_file (λ s h. refl) (as_skipped-settled now)
      r (rw (start_cold-store row row.target_pane skipped_one) at on)

-- The rows that wait, without those of a batch.
abbrev pub sans : List PeerRow → List PeerRow → List PeerRow
sans [] rows = rows
sans (b ∷ batch) rows = sans batch (without b.id rows)

deliver_row-settles :
    (d : DrainState) (row : PeerRow) (pane : Text) (mode : DeliverMode) (now : ℕ)
    → pending_peer_rows (deliver_row d row pane mode now).store.peer_file
      ≡ without row.id (pending_peer_rows d.store.peer_file)
unfolding mark_delivered
deliver_row-settles d row pane mode now =
    let marked : DrainState = record d {
      store = record d.store { peer_file = (mark_delivered d.store.peer_file row pane mode now).0 };
      delivered = d.delivered ++ (mark_delivered d.store.peer_file row pane mode now).1 ∷ [];
    } in
    ap (λ s. pending_peer_rows s.peer_file) (start_cold-store row pane marked)
    ∙ update-settles row.id (as_delivered pane mode now) d.store.peer_file (λ r h. refl)
        (as_delivered-settled pane mode now)

pub deliver_rows-settles :
    (d : DrainState) (batch : List PeerRow) (pane : Text) (mode : DeliverMode) (now : ℕ)
    → pending_peer_rows (deliver_rows d batch pane mode now).store.peer_file
      ≡ sans batch (pending_peer_rows d.store.peer_file)
unfolding deliver_rows
deliver_rows-settles d [] pane mode now = refl
deliver_rows-settles d (row ∷ rows) pane mode now =
    deliver_rows-settles (deliver_row d row pane mode now) rows pane mode now
    ∙ ap (sans rows) (deliver_row-settles d row pane mode now)

mem-sans : (batch rows : List PeerRow) (r : PeerRow) → Memᴰ r (sans batch rows) → Memᴰ r rows
mem-sans [] rows r m = m
mem-sans (b ∷ batch) rows r m =
    (mem-filter (λ s. not (hits b.id s)) rows (mem-sans batch (without b.id rows) r m)).0

pub deliver_rows-Shrinks :
    (d : DrainState) (batch : List PeerRow) (pane : Text) (mode : DeliverMode) (now : ℕ)
    → Shrinks d.store.peer_file (deliver_rows d batch pane mode now).store.peer_file
deliver_rows-Shrinks d batch pane mode now r m =
    mem-sans batch (pending_peer_rows d.store.peer_file) r
      (rw (deliver_rows-settles d batch pane mode now) at m)
