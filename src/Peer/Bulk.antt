-- ===== src/Peer/Bulk.antt =====
-- `takePeerBulkBatch` of packages/core/src/messages/peer-bulk.ts.
use seat_mesh.Prelude.{ℕ, min, max, List, take, drop}

abbrev pub peer_bulk_max : ℕ
peer_bulk_max = 5

unfoldable pub take_peer_bulk_batch {ℓ} : {A : Type ℓ} → List A → ℕ → List A × List A
take_peer_bulk_batch rows limit =
    let n = max 1 (min peer_bulk_max limit) in (take n rows, drop n rows)
