-- ===== src/Prelude/Splits.antt =====
-- Where a member of a list is after the list was split.
use mathlib.Core.Logic.{◌⊎◌, inl, inr}
use mathlib.Core.Bool.{Bool, not}
use mathlib.Core.List.{List, [], ◌∷◌, Memᴰ}
use Prim.Native.Nat.{ℕ, zero, suc}
use seat_mesh.Prelude.Tests.{Bool-cases}
use seat_mesh.Prelude.Lists.{take, drop, filter, mem-cons_inv}

module _ {ℓ} {A : Type ℓ} where
  pub take_or_drop :
      (n : ℕ) (es : List A) (e : A) → Memᴰ e es → Memᴰ e (take n es) ⊎ Memᴰ e (drop n es)
  take_or_drop zero es e m = inr m
  take_or_drop (suc n) [] e m = elim m [ ]
  take_or_drop (suc n) (x ∷ xs) e m = elim (mem-cons_inv m) [
    | inl same ↦ inl (Memᴰ.head same)
    | inr m' ↦ elim (take_or_drop n xs e m') [ inl a ↦ inl (Memᴰ.tail a) | inr b ↦ inr b ]
  ]

  pub filter-splits :
      (p : A → Bool) (es : List A) (e : A)
      → Memᴰ e es
      → Memᴰ e (filter p es) ⊎ Memᴰ e (filter (λ x. not (p x)) es)
  filter-splits p [] e m = elim m [ ]
  filter-splits p (x ∷ xs) e m = elim (mem-cons_inv m) [
    | inl same ↦ elim (Bool-cases (p x)) [
      | inl t ↦ rw t (inl (Memᴰ.head same))
      | inr f ↦ rw f (inr (Memᴰ.head same))
    ]
    | inr m' ↦ elim (Bool-cases (p x)) [
      | inl t ↦ rw t (elim (filter-splits p xs e m') [ inl a ↦ inl (Memᴰ.tail a) | inr b ↦ inr b ])
      | inr f ↦ rw f (elim (filter-splits p xs e m') [ inl a ↦ inl a | inr b ↦ inr (Memᴰ.tail b) ])
    ]
  ]
