-- ===== src/Room/Find.antt =====
-- The look-up in the sorted snapshot is the pool's own (internal/room/room.go, `findLease`).
use opl_core.Prelude.{
  ◌≡◌, false, List, [], ◌∷◌, ◌==◌, ==_iff, bytes_eq, Bytes, some, none, arith, subst, sym, ap, ◌∙◌,
  Bool-cases, Option-cases, inl, inr,
}
use opl_core.Prelude.Dict.{lookup}
use opl_core.Prelude.Addr.{addr_less}
use opl_core.Prelude.Sort.{sort}
use opl_core.Lease.{Lease, Allocator, snapshot, leases}
use opl_core.Lease.Distinct.{IsPool}
use opl_core.Lease.Rebuild.{snapshot-Stands}
use opl_core.Lease.Rebuild.Lists.{All, All-sort, leases-All}
use opl_core.Room.{find_lease}

-- What is found is in the list, and has the key.
find_lease-All {ℓ} :
    (P : Lease → Type ℓ) (key : Bytes) (xs : List Lease) {x : Lease}
    → All P xs
    → find_lease xs key ≡ some x
    → P x × (x.public_key ≡ key)
unfolding find_lease
find_lease-All P key [] h e = absurd (ground arith)
find_lease-All P key (y ∷ ys) {x} h e = elim (Bool-cases (y.public_key == key)) [
  | inl same ↦
      let yx : y ≡ x = ground arith in
      (subst P yx h.0, ap (λ (z : Lease). z.public_key) (sym yx) ∙ (==_iff _ _).0 same)
  | inr other ↦ find_lease-All P key ys h.1 (ground arith)
]

-- Where nothing is found, no lease of the list has the key.
find_lease-none :
    (key : Bytes) (xs : List Lease)
    → find_lease xs key ≡ none
    → All (λ x. (x.public_key == key) ≡ false) xs
unfolding find_lease
find_lease-none key [] e = tt
find_lease-none key (y ∷ ys) e = elim (Bool-cases (y.public_key == key)) [
  | inl same ↦ absurd (ground arith)
  | inr other ↦ (other, find_lease-none key ys (ground arith))
]

pub find_lease-snapshot :
    (a : Allocator) (key : Bytes) → IsPool a → find_lease (snapshot a) key ≡ lookup key a.by_key
find_lease-snapshot a key (v, d) = elim (Option-cases (find_lease (snapshot a) key)) [
  | inr (x, e) ↦
      let (stands, at_key) =
        find_lease-All (λ x. lookup x.public_key a.by_key ≡ some x) key (snapshot a)
          (snapshot-Stands a v d) e in
      e ∙ sym (subst (λ k. lookup k a.by_key ≡ some x) at_key stands)
  | inl e ↦
      let absent : All (λ x. (x.public_key == key) ≡ false) (leases a.by_key) =
        All-sort (λ (x y : Lease). addr_less x.ip y.ip) (λ x. (x.public_key == key) ≡ false)
          (leases a.by_key) (sorted_none e) in
      elim (Option-cases (lookup key a.by_key)) [
        | inl none_there ↦ e ∙ sym none_there
        | inr (x, p) ↦
            let other = leases-All _ a.by_key absent key x p in
            absurd (ground (arith, (v.fits key x p).key, ==_iff x.public_key key))
      ]
]
  where
    sorted_none :
        find_lease (snapshot a) key ≡ none
        → All
            (λ x. (x.public_key == key) ≡ false)
            (sort (λ (x y : Lease). addr_less x.ip y.ip) (leases a.by_key))
    sorted_none e = unfold snapshot in find_lease-none key (snapshot a) e
