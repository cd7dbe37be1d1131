-- ===== src/Lease/Distinct.antt =====
-- The map of a pool is a list without repeated keys (internal/lease/lease.go).
use opl_core.Prelude.{
  ℕ, ◌≡◌, List, [], ◌∷◌, ◌==◌, ==_iff, nat_eq, bytes_eq, Bytes, Option, some, none, ok, arith, refl,
  subst, Bool-cases, inl, inr, bind_ok, ok_inj,
}
use opl_core.Prelude.Dict.{Dict, lookup, insert, erase, lookup-insert, lookup-erase}
use opl_core.Prelude.Addr.{addr_eq}
use opl_core.Prelude.Binary.{is_zero}
use opl_core.Lease.{Lease, Allocator, admit, admit_all, new, empty}
use opl_core.Lease.Invariant.{IsValid}
use opl_core.Lease.{
  assign_found, grant, assign, remove_found, remove, restore, release, remove_if_revision,
  remove_if_revision_found,
}
use opl_core.Lease.Reach.{new-IsValid}
use opl_core.Lease.Keeps.{
  assign-IsValid, remove-IsValid, restore-IsValid, remove_if_revision-IsValid,
}

-- No key stands twice in the list that the map is.
abbrev pub IsDistinct : {V : Type 0} → Dict Bytes V → Type 0
IsDistinct [] = Unit {0}
IsDistinct ((k, v) ∷ m) = (lookup k m ≡ none) × IsDistinct m

module _ {V : Type 0} where
  pub insert-IsDistinct :
      (k : Bytes) (v : V) (m : Dict Bytes V) → IsDistinct m → IsDistinct (insert k v m)
  unfolding insert
  insert-IsDistinct k v [] h = (unfold lookup in refl, tt)
  insert-IsDistinct k v ((j, w) ∷ m) h = elim (Bool-cases (j == k)) [
    | inl same ↦ rw same (subst (λ i. lookup i m ≡ none) ((==_iff j k).0 same) h.0, h.1)
    | inr other ↦
        rw other (
          ground (arith, lookup-insert k j v m, ==_iff j k, ==_iff k j),
          insert-IsDistinct k v m h.1,
        )
  ]

  pub erase-IsDistinct : (k : Bytes) (m : Dict Bytes V) → IsDistinct m → IsDistinct (erase k m)
  unfolding erase
  erase-IsDistinct k [] h = h
  erase-IsDistinct k ((j, w) ∷ m) h = elim (Bool-cases (j == k)) [
    | inl same ↦ rw same (erase-IsDistinct k m h.1)
    | inr other ↦ rw other (ground (arith, lookup-erase k j m), erase-IsDistinct k m h.1)
  ]

-- A pool as the methods leave it: valid, and its map without repeated keys.
abbrev pub IsPool : Allocator → Type 0
IsPool a = IsValid a × IsDistinct a.by_key

grant-IsDistinct :
    (o : Option ℕ) (key name : Bytes) (a : Allocator)
    → IsDistinct a.by_key
    → IsDistinct (grant o key name a).0.by_key
unfolding grant
grant-IsDistinct none key name a d = d
grant-IsDistinct (some octet) key name a d = insert-IsDistinct key _ a.by_key d

assign_found-IsDistinct :
    (o : Option Lease) (key name : Bytes) (a : Allocator)
    → IsDistinct a.by_key
    → IsDistinct (assign_found o key name a).0.by_key
unfolding assign_found
assign_found-IsDistinct none key name a d = grant-IsDistinct _ key name a d
assign_found-IsDistinct (some x) key name a d = elim (Bool-cases (x.name == name)) [
  | inl same ↦ rw same d
  | inr other ↦ rw other (insert-IsDistinct key _ a.by_key d)
]

pub assign-IsPool : (key name : Bytes) (a : Allocator) → IsPool a → IsPool (assign key name a).0
assign-IsPool key name a (v, d) = (assign-IsValid key name a v, distinct)
  where
    distinct : IsDistinct (assign key name a).0.by_key
    distinct =
        unfold assign in
        elim (Bool-cases (is_zero key)) [
          | inl z ↦ rw z d
          | inr set ↦ rw set (assign_found-IsDistinct _ key name a d)
        ]

remove_found-IsDistinct :
    (o : Option Lease) (key : Bytes) (a : Allocator)
    → IsDistinct a.by_key
    → IsDistinct (remove_found o key a).0.by_key
unfolding remove_found release
remove_found-IsDistinct none key a d = d
remove_found-IsDistinct (some x) key a d = erase-IsDistinct key a.by_key d

pub remove-IsPool : (key : Bytes) (a : Allocator) → IsPool a → IsPool (remove key a).0
unfolding remove
remove-IsPool key a (v, d) = (remove-IsValid key a v, remove_found-IsDistinct _ key a d)

pub restore-IsPool : (item : Lease) (a : Allocator) → IsPool a → IsPool (restore item a).0
restore-IsPool item a (v, d) = (restore-IsValid item a v, distinct)
  where
    stored : IsDistinct (insert item.public_key item a.by_key)
    stored = insert-IsDistinct item.public_key item a.by_key d

    distinct : IsDistinct (restore item a).0.by_key
    distinct = unfold restore in ground (arith, stored, d)

remove_if_revision_found-IsDistinct :
    (o : Option Lease) (key : Bytes) (revision : ℕ) (a : Allocator)
    → IsDistinct a.by_key
    → IsDistinct (remove_if_revision_found o key revision a).0.by_key
unfolding remove_if_revision_found release
remove_if_revision_found-IsDistinct none key revision a d = d
remove_if_revision_found-IsDistinct (some x) key revision a d =
    elim (Bool-cases (x.revision == revision)) [
      | inl same ↦ rw same (erase-IsDistinct key a.by_key d)
      | inr other ↦ rw other d
    ]

pub remove_if_revision-IsPool :
    (key : Bytes) (revision : ℕ) (a : Allocator)
    → IsPool a
    → IsPool (remove_if_revision key revision a).0
unfolding remove_if_revision
remove_if_revision-IsPool key revision a (v, d) = (
  remove_if_revision-IsValid key revision a v,
  remove_if_revision_found-IsDistinct _ key revision a d,
)

admit-IsDistinct :
    (x : Lease) (a b : Allocator) → admit x a ≡ ok b → IsDistinct a.by_key → IsDistinct b.by_key
admit-IsDistinct x a b h d =
    subst (λ m. IsDistinct m) at (insert-IsDistinct x.public_key x a.by_key d)
  where
    at : insert x.public_key x a.by_key ≡ b.by_key
    at = unfold admit in ground arith

admit_all-IsDistinct :
    (xs : List Lease) (a b : Allocator)
    → admit_all xs a ≡ ok b
    → IsDistinct a.by_key
    → IsDistinct b.by_key
unfolding admit_all
admit_all-IsDistinct [] a b h d = subst (λ x. IsDistinct x.by_key) (ok_inj h) d
admit_all-IsDistinct (x ∷ xs) a b h d =
    let (c, p, q) = bind_ok (admit x a) (admit_all xs) h in
    admit_all-IsDistinct xs c b q (admit-IsDistinct x a c p d)

pub new-IsPool : (xs : List Lease) (a : Allocator) → new xs ≡ ok a → IsPool a
new-IsPool xs a h = (new-IsValid xs a h, distinct)
  where
    distinct : IsDistinct a.by_key
    distinct = admit_all-IsDistinct xs empty a (unfold new in h) (unfold empty in tt)
