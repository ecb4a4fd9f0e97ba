-- ===== src/Store/Peers/Kept.antt =====
-- The ids and the proofs of delivery of the rows that are read from the peer file.
use seat_mesh.Prelude.{
  ◌≡◌, refl, sym, ap, ◌∙◌, Bool, true, not, ◌&&◌, ◌||◌, List, [], ◌∷◌, Memᴰ, All, All-of, any,
  arith, Bool-cases, inl, inr, ◌⊎◌, mem-cons_inv,
}
use seat_mesh.Prelude.Text.{text_eq, text_eq_iff, text_eq_refl}
use seat_mesh.Prelude.Keyed.{IsDistinct}
use seat_mesh.Store.Rows.{PeerRow}
use seat_mesh.Store.Peers.{
  peer_id, has_proof, keep_better, merge_row, dedupe_from, dedupe_jsonl_rows_by_id, read_peer,
}
use seat_mesh.Store.Peers.Dedupe.{read-IsDistinct}

-- A row of the same id, which has proof of delivery if the first has.
abbrev pub covers : PeerRow → PeerRow → Bool
covers r s = text_eq s.id r.id && (not (has_proof r) || has_proof s)

covers_self : (r : PeerRow) → covers r r ≡ true
covers_self r = ground (arith, text_eq_refl r.id)

-- The row that stays has the id of both and the proof of either, and is one of them.
keep-either :
    (a x : PeerRow)
    → text_eq a.id x.id ≡ true
    → ((keep_better a x).id ≡ x.id)
      × (has_proof (keep_better a x) ≡ (has_proof a || has_proof x))
      × ((keep_better a x ≡ a) ⊎ (keep_better a x ≡ x))
keep-either a x same = elim (Bool-cases (has_proof x && not (has_proof a))) [
  | inl t ↦ rw t (refl, ground arith, inr refl)
  | inr f ↦ elim (Bool-cases (not (has_proof x) && has_proof a)) [
    | inl t ↦ rw (f, t) ((text_eq_iff a.id x.id).0 same, ground arith, inl refl)
    | inr g ↦ rw (f, g) (refl, ground arith, inr refl)
  ]
]

covers-keep :
    (r a x : PeerRow)
    → text_eq a.id x.id ≡ true
    → (covers r a || covers r x) ≡ true
    → covers r (keep_better a x) ≡ true
covers-keep r a x same h =
    let (id, proof, _) = keep-either a x same in
    let e : a.id ≡ x.id = (text_eq_iff a.id x.id).0 same in
    rw (id, proof) (ground (arith, (rw e at h)))

-- Merging keeps what was covered, and covers the row that is merged.
merge-covers :
    (r x : PeerRow) (acc : List PeerRow)
    → (any (covers r) acc || covers r x) ≡ true
    → any (covers r) (merge_row x acc) ≡ true
unfolding merge_row
merge-covers r x [] h = ground (arith, h)
merge-covers r x (a ∷ acc) h = elim (Bool-cases (text_eq a.id x.id)) [
  | inl same ↦ elim (Bool-cases (covers r a || covers r x)) [
    | inl t ↦ rw (same, covers-keep r a x same t) refl
    | inr f ↦ rw same (ground (arith, f, h))
  ]
  | inr apart ↦ elim (Bool-cases (covers r a)) [
    | inl t ↦ rw (apart, t) refl
    | inr f ↦ rw (apart, f) (merge-covers r x acc (rw f at h))
  ]
]

dedupe_from-covers :
    (r : PeerRow) (acc rows : List PeerRow)
    → (any (covers r) acc || any (covers r) rows) ≡ true
    → any (covers r) (dedupe_from acc rows) ≡ true
unfolding dedupe_from
dedupe_from-covers r acc [] h = ground (arith, h)
dedupe_from-covers r acc (x ∷ rows) h = elim (Bool-cases (any (covers r) rows)) [
  | inl t ↦ dedupe_from-covers r (merge_row x acc) rows (rw t (ground arith))
  | inr f ↦
      dedupe_from-covers r (merge_row x acc) rows
        (rw (merge-covers r x acc (ground (arith, f, h))) refl)
]

mem-any :
    (p : PeerRow → Bool) (x : PeerRow) (rows : List PeerRow)
    → Memᴰ x rows
    → p x ≡ true
    → any p rows ≡ true
mem-any p x [] m h = elim m [ ]
mem-any p x (y ∷ rows) m h = elim (mem-cons_inv m) [
  | inl e ↦ rw (sym (ap p e) ∙ h) refl
  | inr m' ↦ ground (arith, mem-any p x rows m' h)
]

mem-merge : (x r : PeerRow) (acc : List PeerRow) → Memᴰ r (merge_row x acc) → (r ≡ x) ⊎ Memᴰ r acc
unfolding merge_row
mem-merge x r [] m = mem-cons_inv m
mem-merge x r (a ∷ acc) m = elim (Bool-cases (text_eq a.id x.id)) [
  | inl same ↦ elim (mem-cons_inv (rw same at m)) [
    | inr m' ↦ inr (Memᴰ.tail m')
    | inl e ↦
        let (_, _, which) = keep-either a x same in
        elim which [ inl is_old ↦ inr (Memᴰ.head (e ∙ is_old)) | inr is_new ↦ inl (e ∙ is_new) ]
  ]
  | inr apart ↦ elim (mem-cons_inv (rw apart at m)) [
    | inl e ↦ inr (Memᴰ.head e)
    | inr m' ↦ elim (mem-merge x r acc m') [ inl e ↦ inl e | inr n ↦ inr (Memᴰ.tail n) ]
  ]
]

mem-dedupe_from :
    (r : PeerRow) (acc rows : List PeerRow)
    → Memᴰ r (dedupe_from acc rows)
    → Memᴰ r acc ⊎ Memᴰ r rows
unfolding dedupe_from
mem-dedupe_from r acc [] m = inl m
mem-dedupe_from r acc (x ∷ rows) m = elim (mem-dedupe_from r (merge_row x acc) rows m) [
  | inr n ↦ inr (Memᴰ.tail n)
  | inl n ↦ elim (mem-merge x r acc n) [ inl e ↦ inr (Memᴰ.head e) | inr o ↦ inl o ]
]

-- Reading the peer file gives rows of the file with distinct ids; for each row of the file it gives
-- one of the same id, and one with proof of delivery if that row had it: no later line without
-- proof takes a delivery back.
pub read_peer_keeps_proof :
    (file : List PeerRow)
    → IsDistinct peer_id (read_peer file)
      × All (λ s. Memᴰ s file) (read_peer file)
      × All (λ r. any (covers r) (read_peer file) ≡ true) file
unfolding read_peer dedupe_jsonl_rows_by_id
read_peer_keeps_proof file = (
  read-IsDistinct file,
  All-of (λ s. Memᴰ s file) (read_peer file)
      (λ s m. elim (mem-dedupe_from s [] file m) [ inl n ↦ elim n [ ] | inr n ↦ n ]),
  All-of (λ r. any (covers r) (read_peer file) ≡ true) file
      (λ r m. dedupe_from-covers r [] file (mem-any (covers r) r file m (covers_self r))),
)
