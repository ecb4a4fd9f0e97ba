-- ===== src/Store/Sqlite/RoundTrip.antt =====
-- Reading back what was stored in the columns.
use mathlib.Core.Option as Option
use seat_mesh.Prelude.{
  ◌≡◌, refl, Bool, true, false, Option, none, some, if◌then◌else◌, Bool-cases, inl, inr, ◌==◌,
}
use seat_mesh.Prelude.Text.{Text, text_eq}
use seat_mesh.Store.Rows.{
  ToMasterRow, PeerRow, CheckbackRow, CheckbackStatus, active, cancelled, DeliverMode, idle, steer,
}
use seat_mesh.Store.Sqlite.Columns.{
  bool, mode_text, mode_of, status_text, status_of, inbox_bind, inbox_columns, inbox_parameters,
  has_keys, peer_columns, peer_parameters, row_to_inbox, peer_bind, row_to_peer, checkback_bind,
  row_to_checkback,
}

bool-is_one : (b : Bool) → (bool b == 1) ≡ b
unfolding bool
bool-is_one true = refl
bool-is_one false = refl

mode_of-mode_text : (m : Option DeliverMode) → mode_of (mode_text m) ≡ m
unfolding mode_of mode_text text_eq
mode_of-mode_text none = refl
mode_of-mode_text (some idle) = refl
mode_of-mode_text (some steer) = refl

status_of-status_text : (s : CheckbackStatus) → status_of (status_text s) ≡ s
unfolding status_of status_text text_eq
status_of-status_text active = refl
status_of-status_text cancelled = refl

inbox_comes_back :
    (has : Text → Bool) (r : ToMasterRow)
    → Option.map row_to_inbox (inbox_bind has r)
      ≡ (if has_keys has inbox_parameters then some r else none)
unfolding row_to_inbox inbox_bind inbox_columns
inbox_comes_back has r = elim (Bool-cases (has_keys has inbox_parameters)) [
  | inl t ↦
      rw
        (
          t,
          bool-is_one r.sent,
          bool-is_one r.resolved,
          bool-is_one r.read,
          mode_of-mode_text r.deliver_mode,
        )
        refl
  | inr f ↦ rw f refl
]

checkback_comes_back : (r : CheckbackRow) → row_to_checkback (checkback_bind r) ≡ r
unfolding row_to_checkback checkback_bind
checkback_comes_back r = rw (status_of-status_text r.status) refl

peer_comes_back :
    (has : Text → Bool) (r : PeerRow)
    → Option.map row_to_peer (peer_bind has r) ≡ (
        if has_keys has peer_parameters
        then some (record r { injected_pane = none; injected_at = none })
        else none)
unfolding row_to_peer peer_bind peer_columns
peer_comes_back has r = elim (Bool-cases (has_keys has peer_parameters)) [
  | inl t ↦ rw (t, bool-is_one r.sent, mode_of-mode_text r.deliver_mode) refl
  | inr f ↦ rw f refl
]

-- What is read back from the columns that a checkback row binds is that row. An inbox row or a peer
-- row is bound if and only if its object has every key that the statement names; then what is read
-- back is the inbox row, and the peer row but for its two injection fields, for which the table has
-- no column.
pub columns_round_trip :
    (has : Text → Bool) (r : ToMasterRow) (c : CheckbackRow) (p : PeerRow)
    → (Option.map row_to_inbox (inbox_bind has r)
        ≡ (if has_keys has inbox_parameters then some r else none))
      × (row_to_checkback (checkback_bind c) ≡ c)
      × (Option.map row_to_peer (peer_bind has p) ≡ (
          if has_keys has peer_parameters
          then some (record p { injected_pane = none; injected_at = none })
          else none))
columns_round_trip has r c p =
    (inbox_comes_back has r, checkback_comes_back c, peer_comes_back has p)
