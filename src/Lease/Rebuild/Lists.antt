-- ===== src/Lease/Rebuild/Lists.antt =====
-- The leases of a pool as a list, sorted or not (internal/lease/lease.go, `Snapshot`).
use opl_core.Prelude.{
  ◌≡◌, Bool, true, false, List, [], ◌∷◌, ◌==◌, ==_iff, ==_self, nat_eq, bytes_eq, Bytes, some, none,
  arith, subst, Bool-cases, inl, inr,
}
use opl_core.Prelude.Dict.{Dict, lookup}
use opl_core.Prelude.Addr.{addr_eq}
use opl_core.Prelude.Binary.{is_zero}
use opl_core.Prelude.Sort.{sort, sort_insert}
use opl_core.Lease.{Lease, member_octet, leases}
use opl_core.Lease.Distinct.{IsDistinct}

-- A lease that a pool may hold, and two that it may hold together.
abbrev pub IsMember : Lease → Type 0
IsMember x = ((member_octet x.ip).1 ≡ true) × (is_zero x.public_key ≡ false)

abbrev pub AreApart : Lease → Lease → Type 0
AreApart x y =
    ((x.public_key == y.public_key) ≡ false)
    × (((member_octet x.ip).0 == (member_octet y.ip).0) ≡ false)

pub AreApart-sym : (x y : Lease) → AreApart x y → AreApart y x
AreApart-sym x y h =
    ground (arith, ==_iff x.public_key y.public_key, ==_iff y.public_key x.public_key)

abbrev pub All {ℓ} : (Lease → Type ℓ) → List Lease → Type ℓ
All P [] = Unit
All P (x ∷ xs) = P x × All P xs

abbrev pub Pairwise : List Lease → Type 0
Pairwise [] = Unit {0}
Pairwise (x ∷ xs) = All (AreApart x) xs × Pairwise xs

module _ (less : Lease → Lease → Bool) where
  sort_insert-All {ℓ} :
      (P : Lease → Type ℓ) (x : Lease) (xs : List Lease)
      → P x
      → All P xs
      → All P (sort_insert less x xs)
  unfolding sort_insert
  sort_insert-All P x [] h hs = (h, hs)
  sort_insert-All P x (y ∷ ys) h hs = elim (Bool-cases (less y x)) [
    | inl lower ↦ rw lower (hs.0, sort_insert-All P x ys h hs.1)
    | inr higher ↦ rw higher (h, hs)
  ]

  pub sort-All {ℓ} : (P : Lease → Type ℓ) (xs : List Lease) → All P xs → All P (sort less xs)
  unfolding sort
  sort-All P [] hs = hs
  sort-All P (x ∷ xs) hs = sort_insert-All P x (sort less xs) hs.0 (sort-All P xs hs.1)

  sort_insert-Pairwise :
      (x : Lease) (xs : List Lease)
      → All (AreApart x) xs
      → Pairwise xs
      → Pairwise (sort_insert less x xs)
  unfolding sort_insert
  sort_insert-Pairwise x [] h hs = (h, hs)
  sort_insert-Pairwise x (y ∷ ys) h hs = elim (Bool-cases (less y x)) [
    | inl lower ↦ rw lower (
      sort_insert-All (AreApart y) x ys (AreApart-sym x y h.0) hs.0,
      sort_insert-Pairwise x ys h.1 hs.1,
    )
    | inr higher ↦ rw higher (h, hs)
  ]

  pub sort-Pairwise : (xs : List Lease) → Pairwise xs → Pairwise (sort less xs)
  unfolding sort
  sort-Pairwise [] hs = hs
  sort-Pairwise (x ∷ xs) hs =
      sort_insert-Pairwise x (sort less xs) (sort-All (AreApart x) xs hs.0) (sort-Pairwise xs hs.1)

head : (k : Bytes) (x : Lease) (m : Dict Bytes Lease) → lookup k ((k, x) ∷ m) ≡ some x
unfolding lookup
head k x m = ground (arith, ==_self k)

behind :
    (k : Bytes) (x : Lease) (m : Dict Bytes Lease) (j : Bytes) (y : Lease)
    → lookup k m ≡ none
    → lookup j m ≡ some y
    → (lookup j ((k, x) ∷ m) ≡ some y) × ((k == j) ≡ false)
unfolding lookup
behind k x m j y e p = ground (arith, ==_iff k j)

-- What the leases of a map satisfy that each of its entries does.
pub All-leases {ℓ} :
    (P : Lease → Type ℓ) (m : Dict Bytes Lease)
    → IsDistinct m
    → ((k : Bytes) (x : Lease) → lookup k m ≡ some x → P x)
    → All P (leases m)
unfolding leases
All-leases P [] d h = tt
All-leases P ((k, x) ∷ m) d h =
    (h k x (head k x m), All-leases P m d.1 λ j y p. h j y (behind k x m j y d.0 p).0)

-- and the other way round
pub leases-All {ℓ} :
    (P : Lease → Type ℓ) (m : Dict Bytes Lease)
    → All P (leases m)
    → (k : Bytes) (x : Lease) → lookup k m ≡ some x
    → P x
unfolding leases
leases-All P [] h k x p = absurd (unfold lookup in cc)
leases-All P ((j, y) ∷ m) h k x p = elim (Bool-cases (j == k)) [
  | inl same ↦ subst P (first same p) h.0
  | inr other ↦ leases-All P m h.1 k x (later other p)
]
  where
    first : (j == k) ≡ true → lookup k ((j, y) ∷ m) ≡ some x → y ≡ x
    first same q = unfold lookup in ground arith

    later : (j == k) ≡ false → lookup k ((j, y) ∷ m) ≡ some x → lookup k m ≡ some x
    later other q = unfold lookup in ground arith

pub Pairwise-leases :
    (m : Dict Bytes Lease)
    → IsDistinct m
    → ((j k : Bytes) (x y : Lease)
        → lookup j m ≡ some x
        → lookup k m ≡ some y
        → (j == k) ≡ false
        → AreApart x y)
    → Pairwise (leases m)
unfolding leases
Pairwise-leases [] d h = tt
Pairwise-leases ((k, x) ∷ m) d h = (
  All-leases (AreApart x) m d.1
      (λ j y p. let (q, n) = behind k x m j y d.0 p in h k j x y (head k x m) q n),
  Pairwise-leases m d.1
      λ i j y z p q n. h i j y z (behind k x m i y d.0 p).0 (behind k x m j z d.0 q).0 n,
)

module _ {ℓ} (less : Lease → Lease → Bool) (P : Lease → Type ℓ) where
  All-sort_insert : (x : Lease) (xs : List Lease) → All P (sort_insert less x xs) → P x × All P xs
  unfolding sort_insert
  All-sort_insert x [] h = h
  All-sort_insert x (y ∷ ys) h = elim (Bool-cases (less y x)) [
    | inl lower ↦
        let h' : P y × All P (sort_insert less x ys) = rw lower at h in
        let (px, rest) = All-sort_insert x ys h'.1 in (px, (h'.0, rest))
    | inr higher ↦ rw higher at h
  ]

  pub All-sort : (xs : List Lease) → All P (sort less xs) → All P xs
  unfolding sort
  All-sort [] h = h
  All-sort (x ∷ xs) h =
      let (px, rest) = All-sort_insert x (sort less xs) h in (px, All-sort xs rest)
