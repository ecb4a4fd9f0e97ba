-- ===== src/Store/Peers/Update.antt =====
-- The change of one row of the peer file, as readers see it.
use seat_mesh.Prelude.{
  ◌≡◌, refl, sym, ap, Bool, true, false, not, List, [], ◌∷◌, Bool-cases, Option-cases, inl, inr,
  find?, modify_first, filter, none,
}
use seat_mesh.Prelude.Text.{Text, text_eq, text_eq_iff}
use seat_mesh.Prelude.Keyed.{IsDistinct}
use seat_mesh.Store.Rows.{PeerRow}
use seat_mesh.Store.Peers.{peer_id, read_peer, update_peer}
use seat_mesh.Store.Peers.Dedupe.{Absent, read_fixed, read-IsDistinct}

abbrev pub hits : Text → PeerRow → Bool
hits id r = text_eq r.id id

modify-Absent :
    (k id : Text) (f : PeerRow → PeerRow) (rows : List PeerRow)
    → ((r : PeerRow) → text_eq r.id id ≡ true → (f r).id ≡ r.id)
    → Absent k rows
    → Absent k (modify_first (hits id) f rows)
modify-Absent k id f [] same h = tt
modify-Absent k id f (x ∷ xs) same (h, hs) = elim (Bool-cases (text_eq x.id id)) [
  | inl t ↦ rw t (rw (same x t) h, hs)
  | inr o ↦ rw o (h, modify-Absent k id f xs same hs)
]

modify-IsDistinct :
    (id : Text) (f : PeerRow → PeerRow) (rows : List PeerRow)
    → ((r : PeerRow) → text_eq r.id id ≡ true → (f r).id ≡ r.id)
    → IsDistinct peer_id rows
    → IsDistinct peer_id (modify_first (hits id) f rows)
modify-IsDistinct id f [] same d = tt
modify-IsDistinct id f (x ∷ xs) same (h, d) = elim (Bool-cases (text_eq x.id id)) [
  | inl t ↦ rw t (rw (same x t) h, d)
  | inr o ↦ rw o (modify-Absent x.id id f xs same h, modify-IsDistinct id f xs same d)
]

modify_first-none :
    (id : Text) (f : PeerRow → PeerRow) (rows : List PeerRow)
    → find? (hits id) rows ≡ none
    → modify_first (hits id) f rows ≡ rows
modify_first-none id f [] e = refl
modify_first-none id f (x ∷ xs) e = elim (Bool-cases (text_eq x.id id)) [
  | inl t ↦ absurd (let e' = rw t at e in cc)
  | inr o ↦ rw o (ap (λ us. x ∷ us) (modify_first-none id f xs (rw o at e)))
]

-- What is read after an update: the rows that were read before, with the one of the id changed.
pub read-update :
    (id : Text) (f : PeerRow → PeerRow) (file : List PeerRow)
    → ((r : PeerRow) → text_eq r.id id ≡ true → (f r).id ≡ r.id)
    → read_peer (update_peer id f file) ≡ modify_first (hits id) f (read_peer file)
unfolding update_peer
read-update id f file same = elim (Option-cases (find? (hits id) (read_peer file))) [
  | inl miss ↦ rw (miss, update_peer) (sym (modify_first-none id f (read_peer file) miss))
  | inr (old, hit) ↦
      rw (hit, update_peer)
        (read_fixed (modify-IsDistinct id f (read_peer file) same (read-IsDistinct file)))
]

filter-Absent :
    (p : PeerRow → Bool) (id : Text) (rows : List PeerRow)
    → Absent id rows
    → filter (λ r. not (hits id r)) (filter p rows) ≡ filter p rows
filter-Absent p id [] h = refl
filter-Absent p id (x ∷ xs) (h, hs) = elim (Bool-cases (p x)) [
  | inl t ↦ rw (t, h) (ap (λ us. x ∷ us) (filter-Absent p id xs hs))
  | inr f ↦ rw f (filter-Absent p id xs hs)
]

-- A change of one row of a list with distinct ids into a row that fails a test drops that row from
-- those that pass.
filter-modify :
    (p : PeerRow → Bool) (id : Text) (f : PeerRow → PeerRow) (rows : List PeerRow)
    → IsDistinct peer_id rows
    → ((r : PeerRow) → p (f r) ≡ false)
    → filter p (modify_first (hits id) f rows) ≡ filter (λ r. not (hits id r)) (filter p rows)
filter-modify p id f [] d fails = refl
filter-modify p id f (x ∷ xs) (h, d) fails = elim (Bool-cases (text_eq x.id id)) [
  | inl t ↦
      let away : Absent id xs = rw ((text_eq_iff x.id id).0 t) at h in
      elim (Bool-cases (p x)) [
        | inl q ↦ rw (t, fails x, q, t) (sym (filter-Absent p id xs away))
        | inr q ↦ rw (t, fails x, q) (sym (filter-Absent p id xs away))
      ]
  | inr o ↦ elim (Bool-cases (p x)) [
    | inl q ↦ rw (o, q, o) (ap (λ us. x ∷ us) (filter-modify p id f xs d fails))
    | inr q ↦ rw (o, q) (filter-modify p id f xs d fails)
  ]
]

-- What passes a test after an update into a row that fails it.
pub filter-update :
    (p : PeerRow → Bool) (id : Text) (f : PeerRow → PeerRow) (file : List PeerRow)
    → ((r : PeerRow) → text_eq r.id id ≡ true → (f r).id ≡ r.id)
    → ((r : PeerRow) → p (f r) ≡ false)
    → filter p (read_peer (update_peer id f file))
      ≡ filter (λ r. not (hits id r)) (filter p (read_peer file))
filter-update p id f file same fails =
    rw (read-update id f file same)
      (filter-modify p id f (read_peer file) (read-IsDistinct file) fails)
