-- ===== src/Peer/Drain/Batch.antt =====
-- A drain of one pane, whatever happens to its batch.
use seat_mesh.Prelude.{
  ℕ, ◌≡◌, refl, Bool, false, ◌||◌, List, [], ◌∷◌, length, Memᴰ, All, All-of, Bool-cases,
  Option-cases, inl, inr, Option, none, any,
}
use seat_mesh.Prelude.Text.{Text, codes, text_eq}
use seat_mesh.Store.Rows.{PeerRow, DeliverMode}
use seat_mesh.Gate.PaneHold.{pane_in_delivery_hold}
use seat_mesh.Peer.Skip.{is_cold_start}
use seat_mesh.Peer.Pending.{pending_peer_rows}
use seat_mesh.Peer.Drain.{
  DrainState, DeliverResult, pasted, unpasted, deliver_rows, take_batch, note_hold, after_paste,
  drain_peer_pane_bulk, counts,
}
use seat_mesh.Peer.Drain.Settle.{
  sans, Shrinks, hold-Shrinks, park_or_hold-Shrinks, skip_rows-Shrinks, deliver_rows-Shrinks,
  deliver_rows-settles,
}

module _ (hold_ms : ℕ) (gate : Bool → Option Text) (deliver : List PeerRow → DeliverResult)
    (now : ℕ) where
  after_paste-Shrinks :
      (d : DrainState) (pane : Text) (first : PeerRow) (batch : List PeerRow)
      (result : DeliverResult)
      → Shrinks d.store.peer_file
          (after_paste hold_ms gate deliver now d pane first batch result).0.store.peer_file
  unfolding after_paste
  after_paste-Shrinks d pane first batch (pasted mode) r m =
      deliver_rows-Shrinks (record d { injected_this_tick = pane ∷ d.injected_this_tick }) batch
        pane mode now r m
  after_paste-Shrinks d pane first batch (unpasted reason) r m =
      elim (Bool-cases (text_eq reason (codes "no_snapshot"))) [
        | inl t ↦ skip_rows-Shrinks d batch now r (rw (t, after_paste) at m)
        | inr f ↦
            park_or_hold-Shrinks (note_hold hold_ms d first.target_pane reason now) batch reason now
              r (rw (f, after_paste) at m)
      ]

  drain-Shrinks :
      (d : DrainState) (pane : Text) (rows : List PeerRow)
      → Shrinks d.store.peer_file
          (drain_peer_pane_bulk hold_ms gate deliver now d pane rows).0.store.peer_file
  unfolding drain_peer_pane_bulk
  drain-Shrinks d pane [] r m = m
  drain-Shrinks d pane (row ∷ rows) r m =
      let in_hold = (pane_in_delivery_hold d.holds pane now).1 in
      let d' : DrainState = record d { holds = (pane_in_delivery_hold d.holds pane now).0 } in
      let batch = take_batch row rows in
      elim (Bool-cases (in_hold || any (λ p. text_eq p pane) d.injected_this_tick)) [
        | inl t ↦ rw (t, drain_peer_pane_bulk) at m
        | inr f ↦ elim (Option-cases (gate (any is_cold_start batch))) [
          | inl go ↦
              after_paste-Shrinks d' pane row batch (deliver batch) r
                (rw (f, go, drain_peer_pane_bulk) at m)
          | inr (reason, blocked) ↦
              hold-Shrinks (note_hold hold_ms d' row.target_pane reason now) batch now r
                (rw (f, blocked, drain_peer_pane_bulk) at m)
        ]
      ]

  -- The drain where nothing holds it back and the paste succeeds.
  drain-pasted :
      (d : DrainState) (pane : Text) (row : PeerRow) (rows : List PeerRow) (mode : DeliverMode)
      → ((pane_in_delivery_hold d.holds pane now).1
          || any (λ p. text_eq p pane) d.injected_this_tick)
        ≡ false
      → gate (any is_cold_start (take_batch row rows)) ≡ none
      → deliver (take_batch row rows) ≡ pasted mode
      → drain_peer_pane_bulk hold_ms gate deliver now d pane (row ∷ rows) ≡ (
        deliver_rows
            (record d {
              holds = (pane_in_delivery_hold d.holds pane now).0;
              injected_this_tick = pane ∷ d.injected_this_tick;
            })
            (take_batch row rows)
            pane
            mode
            now,
        counts 1 (length (take_batch row rows)) 0,
      )
  unfolding drain_peer_pane_bulk
  drain-pasted d pane row rows mode f go ok = rw (f, go, ok, drain_peer_pane_bulk, after_paste) refl

-- Whatever the gate answers and whether the paste succeeds, is refused or cannot be tried, a drain
-- of a pane's rows makes no row wait that did not wait before.
pub drain_never_requeues :
    (hold_ms : ℕ) (gate : Bool → Option Text) (deliver : List PeerRow → DeliverResult) (now : ℕ)
    (d : DrainState) (pane : Text) (rows : List PeerRow)
    → All
        (λ r. Memᴰ r (pending_peer_rows d.store.peer_file))
        (pending_peer_rows
          (drain_peer_pane_bulk hold_ms gate deliver now d pane rows).0.store.peer_file)
drain_never_requeues hold_ms gate deliver now d pane rows =
    All-of (λ r. Memᴰ r (pending_peer_rows d.store.peer_file)) _
      (drain-Shrinks hold_ms gate deliver now d pane rows)

-- When a pane is in no hold, was not pasted into in this tick, the gate lets the batch through and
-- the paste succeeds, then the rows that wait afterwards are those that waited before without the
-- batch, every row of the batch is counted as delivered, and none as held.
pub drain_settles_batch :
    (hold_ms : ℕ) (gate : Bool → Option Text) (deliver : List PeerRow → DeliverResult) (now : ℕ)
    (d : DrainState) (pane : Text) (row : PeerRow) (rows : List PeerRow) (mode : DeliverMode)
    → ((pane_in_delivery_hold d.holds pane now).1 || any (λ p. text_eq p pane) d.injected_this_tick)
      ≡ false
    → gate (any is_cold_start (take_batch row rows)) ≡ none
    → deliver (take_batch row rows) ≡ pasted mode
    → (pending_peer_rows
          (drain_peer_pane_bulk hold_ms gate deliver now d pane (row ∷ rows)).0.store.peer_file
        ≡ sans (take_batch row rows) (pending_peer_rows d.store.peer_file))
      × ((drain_peer_pane_bulk hold_ms gate deliver now d pane (row ∷ rows)).1
          ≡ counts 1 (length (take_batch row rows)) 0)
drain_settles_batch hold_ms gate deliver now d pane row rows mode free go ok =
    let d' : DrainState = record d {
      holds = (pane_in_delivery_hold d.holds pane now).0;
      injected_this_tick = pane ∷ d.injected_this_tick;
    } in
    rw (drain-pasted hold_ms gate deliver now d pane row rows mode free go ok)
      (deliver_rows-settles d' (take_batch row rows) pane mode now, refl)
