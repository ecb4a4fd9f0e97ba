-- ===== src/Prelude/Sort.antt =====
-- `Array.prototype.sort` is stable: an insertion sort by a Boolean "not after".
use Prim.Native.Nat.{suc}
use native.Mathlib.Omega.{arith}
use mathlib.Core.Path.{◌≡◌, refl, ap, ◌∙◌}
use mathlib.Core.Logic.{◌⊎◌, inl, inr}
use mathlib.Core.Bool.{Bool, true, false}
use mathlib.Core.List.{List, [], ◌∷◌, Perm, Memᴰ}
use mathlib.Core.List.Perm
use seat_mesh.Prelude.Tests.{if◌then◌else◌, Bool-cases}
use seat_mesh.Prelude.Lists.{length, All, mem-cons_inv}

module _ {ℓ} {A : Type ℓ} (le : A → A → Bool) where
  unfoldable pub insert : A → List A → List A
  insert x [] = x ∷ []
  insert x (y ∷ ys) = if le x y then x ∷ y ∷ ys else y ∷ insert x ys

  unfoldable pub sort : List A → List A
  unfolding insert
  sort [] = []
  sort (x ∷ xs) = insert x (sort xs)

  abbrev pub IsSorted : List A → Type ℓ
  IsSorted [] = Unit
  IsSorted (x ∷ xs) = All (λ y. le x y ≡ true) xs × IsSorted xs

  insert-length : (x : A) (xs : List A) → length (insert x xs) ≡ suc (length xs)
  unfolding insert
  insert-length x [] = refl
  insert-length x (y ∷ ys) = ground (arith, insert-length x ys)

  pub sort-length : (xs : List A) → length (sort xs) ≡ length xs
  unfolding sort
  sort-length [] = refl
  sort-length (x ∷ xs) = insert-length x (sort xs) ∙ ap suc (sort-length xs)

  insert-perm : (x : A) (xs : List A) → Perm (insert x xs) (x ∷ xs)
  unfolding insert
  insert-perm x [] = Perm.refl _
  insert-perm x (y ∷ ys) = elim (Bool-cases (le x y)) [
    | inl t ↦ rw t (Perm.refl _)
    | inr f ↦ rw f (Perm.trans (Perm.cons y (insert-perm x ys)) (Perm.swap x y ys))
  ]

  pub sort-perm : (xs : List A) → Perm (sort xs) xs
  unfolding sort
  sort-perm [] = Perm.refl _
  sort-perm (x ∷ xs) = Perm.trans (insert-perm x (sort xs)) (Perm.cons x (sort-perm xs))

  pub insert-All {κ} : (P : A → Type κ) (x : A) (xs : List A) → P x → All P xs → All P (insert x xs)
  unfolding insert
  insert-All P x [] p h = (p, tt)
  insert-All P x (y ∷ ys) p h = elim (Bool-cases (le x y)) [
    | inl t ↦ rw t (p, h)
    | inr f ↦ rw f (h.0, insert-All P x ys p h.1)
  ]

  pub sort-All {κ} : (P : A → Type κ) (xs : List A) → All P xs → All P (sort xs)
  unfolding sort
  sort-All P [] h = tt
  sort-All P (x ∷ xs) (p, h) = insert-All P x (sort xs) p (sort-All P xs h)

  pub insert-mem : {z : A} (x : A) (xs : List A) → (z ≡ x) ⊎ Memᴰ z xs → Memᴰ z (insert x xs)
  unfolding insert
  insert-mem x [] (inl e) = Memᴰ.head e
  insert-mem x [] (inr m) = elim m [ ]
  insert-mem x (y ∷ ys) h = elim (Bool-cases (le x y)) [
    | inl t ↦ rw t (elim h [ inl e ↦ Memᴰ.head e | inr m ↦ Memᴰ.tail m ])
    | inr f ↦ rw f (elim h [
      | inl e ↦ Memᴰ.tail (insert-mem x ys (inl e))
      | inr m ↦ elim (mem-cons_inv m) [
        | inl e ↦ Memᴰ.head e
        | inr m' ↦ Memᴰ.tail (insert-mem x ys (inr m'))
      ]
    ])
  ]

  pub sort-mem : {z : A} (xs : List A) → Memᴰ z xs → Memᴰ z (sort xs)
  unfolding sort
  sort-mem [] m = elim m [ ]
  sort-mem (x ∷ xs) (Memᴰ.head e) = insert-mem x (sort xs) (inl e)
  sort-mem (x ∷ xs) (Memᴰ.tail m) = insert-mem x (sort xs) (inr (sort-mem xs m))

  pub mem-insert : {z : A} (x : A) (xs : List A) → Memᴰ z (insert x xs) → (z ≡ x) ⊎ Memᴰ z xs
  unfolding insert
  mem-insert x [] m = mem-cons_inv m
  mem-insert x (y ∷ ys) m = elim (Bool-cases (le x y)) [
    | inl t ↦ mem-cons_inv (rw t at m)
    | inr f ↦ elim (mem-cons_inv (rw f at m)) [
      | inl e ↦ inr (Memᴰ.head e)
      | inr m' ↦ elim (mem-insert x ys m') [ inl e ↦ inl e | inr m'' ↦ inr (Memᴰ.tail m'') ]
    ]
  ]

  pub mem-sort : {z : A} (xs : List A) → Memᴰ z (sort xs) → Memᴰ z xs
  unfolding sort
  mem-sort [] m = m
  mem-sort (x ∷ xs) m = elim (mem-insert x (sort xs) m) [
    | inl e ↦ Memᴰ.head e
    | inr m' ↦ Memᴰ.tail (mem-sort xs m')
  ]

module _ {ℓ} {A : Type ℓ} (le : A → A → Bool) (total : (x y : A) → le x y ≡ false → le y x ≡ true)
    (trans : (x y z : A) → le x y ≡ true → le y z ≡ true → le x z ≡ true) where
  below-All :
      (x y : A) (xs : List A)
      → le x y ≡ true
      → All (λ z. le y z ≡ true) xs
      → All (λ z. le x z ≡ true) xs
  below-All x y [] h k = tt
  below-All x y (z ∷ zs) h (p, k) = (trans x y z h p, below-All x y zs h k)

  insert-IsSorted : (x : A) (xs : List A) → IsSorted le xs → IsSorted le (insert le x xs)
  unfolding insert
  insert-IsSorted x [] s = (tt, tt)
  insert-IsSorted x (y ∷ ys) s = elim (Bool-cases (le x y)) [
    | inl t ↦ rw t ((t, below-All x y ys t s.0), s)
    | inr f ↦
        rw f (insert-All le (λ z. le y z ≡ true) x ys (total x y f) s.0, insert-IsSorted x ys s.1)
  ]

  pub sort-IsSorted : (xs : List A) → IsSorted le (sort le xs)
  unfolding sort
  sort-IsSorted [] = tt
  sort-IsSorted (x ∷ xs) = insert-IsSorted x (sort le xs) (sort-IsSorted xs)
