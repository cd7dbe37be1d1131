-- ===== src/Prelude/Sort/Order.antt =====
-- What a sort gives: the same items, in order (sort.Slice).
use mathlib.Core.List.{List, [], ◌∷◌, Perm}
use mathlib.Core.List.Perm
use mathlib.Core.Bool.{Bool, true, false}
use mathlib.Core.Logic.{inl, inr}
use mathlib.Core.Path.{◌≡◌}
use native.Mathlib.Omega.{arith}
use opl_core.Prelude.Lists.{length}
use opl_core.Prelude.Tests.{Bytes, Bool-cases, bytes_beq_iff}
use opl_core.Prelude.Addr.{Addr, zero_addr, v4, v6, bytes_less, addr_less}
use opl_core.Prelude.Sort.{sort, sort_insert}

module _ {ℓ} {A : Type ℓ} (less : A → A → Bool) where
  -- the first item of the list, if any, is not less than `x`
  abbrev pub NotBefore : A → List A → Type 0
  NotBefore x [] = Unit
  NotBefore x (y ∷ ys) = less y x ≡ false

  -- No item is less than the one in front of it.
  abbrev pub IsSorted : List A → Type 0
  IsSorted [] = Unit
  IsSorted (x ∷ xs) = NotBefore x xs × IsSorted xs

  sort_insert-Perm : (x : A) (xs : List A) → Perm (sort_insert less x xs) (x ∷ xs)
  unfolding sort_insert
  sort_insert-Perm x [] = Perm.refl (x ∷ [])
  sort_insert-Perm x (y ∷ ys) = elim (Bool-cases (less y x)) [
    | inl lower ↦ rw lower (Perm.trans (Perm.cons y (sort_insert-Perm x ys)) (Perm.swap x y ys))
    | inr higher ↦ rw higher (Perm.refl (x ∷ y ∷ ys))
  ]

  pub sort-Perm : (xs : List A) → Perm (sort less xs) xs
  unfolding sort
  sort-Perm [] = Perm.refl []
  sort-Perm (x ∷ xs) = Perm.trans (sort_insert-Perm x (sort less xs)) (Perm.cons x (sort-Perm xs))

  length-sort_insert : (x : A) (xs : List A) → length (sort_insert less x xs) ≡ length (x ∷ xs)
  unfolding sort_insert
  length-sort_insert x [] = omega arith
  length-sort_insert x (y ∷ ys) = ground (arith, length-sort_insert x ys)

  pub length-sort : (xs : List A) → length (sort less xs) ≡ length xs
  unfolding sort
  length-sort [] = omega arith
  length-sort (x ∷ xs) = omega (arith, length-sort_insert x (sort less xs), length-sort xs)

  module _ (asym : (x y : A) → less x y ≡ true → less y x ≡ false) where
    sort_insert-NotBefore :
        (x y : A) (ys : List A)
        → less x y ≡ false
        → NotBefore y ys
        → NotBefore y (sort_insert less x ys)
    unfolding sort_insert
    sort_insert-NotBefore x y [] h n = h
    sort_insert-NotBefore x y (z ∷ zs) h n = elim (Bool-cases (less z x)) [
      | inl lower ↦ rw lower n
      | inr higher ↦ rw higher h
    ]

    sort_insert-IsSorted : (x : A) (xs : List A) → IsSorted xs → IsSorted (sort_insert less x xs)
    unfolding sort_insert
    sort_insert-IsSorted x [] h = (tt, tt)
    sort_insert-IsSorted x (y ∷ ys) h = elim (Bool-cases (less y x)) [
      | inl lower ↦
          rw lower
            (sort_insert-NotBefore x y ys (asym y x lower) h.0, sort_insert-IsSorted x ys h.1)
      | inr higher ↦ rw higher (higher, h)
    ]

    pub sort-IsSorted : (xs : List A) → IsSorted (sort less xs)
    unfolding sort
    sort-IsSorted [] = tt
    sort-IsSorted (x ∷ xs) = sort_insert-IsSorted x (sort less xs) (sort-IsSorted xs)

bytes_less_asym : (a b : Bytes) → bytes_less a b ≡ true → bytes_less b a ≡ false
bytes_less_asym [] [] h = ground arith
bytes_less_asym [] (y ∷ ys) h = ground arith
bytes_less_asym (x ∷ xs) [] h = ground arith
bytes_less_asym (x ∷ xs) (y ∷ ys) h = ground (arith, bytes_less_asym xs ys)

pub addr_less_asym : (a b : Addr) → addr_less a b ≡ true → addr_less b a ≡ false
unfolding addr_less
addr_less_asym (v4 a b c d) (v4 x y z w) h = ground arith
addr_less_asym (v6 a s) (v6 b t) h = ground (
  arith,
  bytes_less_asym a b,
  bytes_less_asym b a,
  bytes_less_asym s t,
  bytes_beq_iff a b,
  bytes_beq_iff b a,
)
addr_less_asym zero_addr zero_addr h = ground arith
addr_less_asym zero_addr (v4 x y z w) h = ground arith
addr_less_asym zero_addr (v6 b t) h = ground arith
addr_less_asym (v4 a b c d) zero_addr h = ground arith
addr_less_asym (v4 a b c d) (v6 x s) h = ground arith
addr_less_asym (v6 a s) zero_addr h = ground arith
addr_less_asym (v6 a s) (v4 x y z w) h = ground arith
