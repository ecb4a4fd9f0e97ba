-- ===== src/Session/Labels/Free.antt =====
-- Slot numbers: the search for a free one, and lists of different ones.
use seat_mesh.Prelude.{
  ℕ, zero, suc, ◌+◌, ◌≤◌, ◌<◌, ◌≡◌, refl, true, false, Option, some, List, [], ◌∷◌, ◌⊎◌, inl, inr,
  All, Memᴰ, arith, Bool-cases, ◌==◌,
}
use seat_mesh.Session.Labels.{has, free_from, next_free_slot, in_slots}

abbrev pub AreDistinct : List ℕ → Type 0
AreDistinct [] = Unit
AreDistinct (n ∷ ns) = (has ns n ≡ false) × AreDistinct ns

-- A free slot is one of the session's that is not used.
pub free_from-free :
    (used : List ℕ) (s n : ℕ) {r : ℕ}
    → free_from used s n ≡ some r
    → (s ≤ r) × (r < s + n) × (has used r ≡ false)
unfolding free_from
free_from-free used s zero e = absurd (ground arith)
free_from-free used s (suc n) {r} e = elim (Bool-cases (has used s)) [
  | inl t ↦
      let (a, b, c) = free_from-free used (suc s) n (rw (t, free_from) at e) in
      (omega arith, omega arith, c)
  | inr f ↦
      let e' : ◌≡◌ {A = Option ℕ} (some s) (some r) = rw (f, free_from) at e in
      let same : s ≡ r = ground arith in (omega arith, omega arith, rw same at f)
]

pub next_free_slot-free :
    (used : List ℕ) (max : ℕ) {r : ℕ}
    → next_free_slot used max ≡ some r
    → (in_slots max r ≡ true) × (has used r ≡ false)
unfolding next_free_slot
next_free_slot-free used max e = let (a, b, c) = free_from-free used 1 max e in (ground arith, c)

-- Each slot is one of those before, or was not used.
abbrev pub IsOldOrFree : List ℕ → List ℕ → ℕ → Type 0
IsOldOrFree old used n = (has old n ≡ true) ⊎ (has used n ≡ false)

pub has-none : (w : ℕ) (xs : List ℕ) → All (λ x. (x == w) ≡ false) xs → has xs w ≡ false
has-none w [] h = refl
has-none w (x ∷ xs) (h, hs) = ground (arith, has-none w xs hs)

pub mem-has : (x : ℕ) (xs : List ℕ) → Memᴰ x xs → has xs x ≡ true
mem-has x [] m = elim m [ ]
mem-has x (y ∷ ys) (Memᴰ.head e) = ground arith
mem-has x (y ∷ ys) (Memᴰ.tail m) = ground (arith, mem-has x ys m)

-- A slot in use that is none of the old ones is none of the new ones.
pub apart :
    (w : ℕ) (old used xs : List ℕ)
    → has used w ≡ true
    → has old w ≡ false
    → All (IsOldOrFree old used) xs
    → All (λ x. (x == w) ≡ false) xs
apart w old used [] u o h = tt
apart w old used (x ∷ xs) u o (h, hs) = (
  elim (Bool-cases (x == w)) [
    | inr f ↦ f
    | inl t ↦ absurd (
        let e : x ≡ w = ground arith in
        elim h [ inl a ↦ (let a' = rw e at a in cc) | inr b ↦ (let b' = rw e at b in cc) ])
  ],
  apart w old used xs u o hs,
)

-- A free slot is none of those that are in use.
pub old_apart :
    (s : ℕ) (old used : List ℕ)
    → has used s ≡ false
    → All (λ w. has used w ≡ true) old
    → has old s ≡ false
old_apart s [] used f h = refl
old_apart s (x ∷ xs) used f (h, hs) = elim (Bool-cases (x == s)) [
  | inr n ↦ ground (arith, old_apart s xs used f hs)
  | inl t ↦ absurd (let e : x ≡ s = ground arith in let h' = rw e at h in cc)
]

pub used_more :
    (s : ℕ) (used xs : List ℕ)
    → All (λ w. has used w ≡ true) xs
    → All (λ w. has (s ∷ used) w ≡ true) xs
used_more s used [] h = tt
used_more s used (x ∷ xs) (h, hs) = (ground arith, used_more s used xs hs)

pub widen_old :
    (w : ℕ) (old used xs : List ℕ)
    → All (IsOldOrFree old used) xs
    → All (IsOldOrFree (w ∷ old) used) xs
widen_old w old used [] h = tt
widen_old w old used (x ∷ xs) (h, hs) =
    (elim h [ inl a ↦ inl (ground arith) | inr b ↦ inr b ], widen_old w old used xs hs)

pub narrow_used :
    (s : ℕ) (old used xs : List ℕ)
    → All (IsOldOrFree old (s ∷ used)) xs
    → All (IsOldOrFree old used) xs
narrow_used s old used [] h = tt
narrow_used s old used (x ∷ xs) (h, hs) =
    (elim h [ inl a ↦ inl a | inr b ↦ inr (ground arith) ], narrow_used s old used xs hs)

pub has_self : (s : ℕ) (used : List ℕ) → has (s ∷ used) s ≡ true
has_self s used = ground arith
