-- ===== src/Lease/Assign.antt =====
-- What `Assign` gives out (internal/lease/lease.go).
use opl_core.Prelude.{
  ℕ, ◌+◌, ◌≤◌, ◌≡◌, inl, inr, true, false, some, none, Bytes, arith, Option, ok, err, Bool-cases,
  ◌↔◌, refl, bytes_eq, ap, ◌≢◌, Bool, Option-cases, ==_iff,
}
use opl_core.Prelude.Dict.{lookup, insert, lookup-insert, lookup-erase, lookup-insert_self}
use opl_core.Prelude.Addr.{v4}
use opl_core.Prelude.Binary.{is_zero}
use opl_core.Lease.{
  Lease, Allocator, full, first_free, pool_size, grant, assign_found, assign, remove, set_used, u64,
  remove_if_revision,
}
use opl_core.Lease.Search.{IsLowest, first_free-IsLowest, first_free-none}
use opl_core.Lease.Invariant.{IsValid, Holds}
use opl_core.Lease.Keeps.{octet_of}

first_free-none_iff :
    (used : ℕ → Bool)
    → (first_free pool_size 2 used ≡ none) ↔ ((o : ℕ) → 2 ≤ o → o ≤ 254 → used o ≡ true)
first_free-none_iff used = (
  (λ h o lo hi. first_free-none pool_size 2 used h o lo (omega arith)),
  λ all. elim (Option-cases (first_free pool_size 2 used)) [
    | inl h ↦ h
    | inr (o, h) ↦
        let low = first_free-IsLowest pool_size 2 o used h in
        absurd (ground (arith, low.free, low.above, low.below, all o))
  ],
)

assign_found_full :
    (key name : Bytes) (a : Allocator) (found : Option Lease)
    → ((assign_found found key name a).1 ≡ err full)
      ↔ ((found ≡ none) × (first_free pool_size 2 a.used ≡ none))
unfolding assign_found
assign_found_full key name a none = ground arith
assign_found_full key name a (some old) = ground arith

-- A request under a key that is not all zero fails with `full` exactly when the key has no lease
-- and every octet from 2 to 254 is in use.
pub assign-full_iff :
    (key name : Bytes) (a : Allocator)
    → is_zero key ≡ false
    → ((assign key name a).1 ≡ err full)
      ↔ ((lookup key a.by_key ≡ none) × ((o : ℕ) → 2 ≤ o → o ≤ 254 → a.used o ≡ true))
unfolding assign
assign-full_iff key name a z =
    let step = assign_found_full key name a (lookup key a.by_key) in
    let search = first_free-none_iff a.used in
    rw z ((λ h. let (p, q) = step.0 h in (p, search.0 q)), λ p. step.1 (p.0, search.1 p.1))

-- The pool after the octet was given out.
abbrev granted : Bytes → Allocator → ℕ → Lease → Allocator
granted key a o item = record {
  by_key = insert key item a.by_key;
  used = set_used o true a.used;
  revision = u64 (a.revision + 1);
}

grant_created :
    (key name : Bytes) (a : Allocator) (found : Option ℕ) {item : Lease}
    → (grant found key name a).1 ≡ ok (item, true)
    → (o : ℕ) × (found ≡ some o)
      × (item ≡ record {
        public_key = key;
        ip = v4 10 0 23 o;
        name = name;
        enabled = true;
        revision = u64 (a.revision + 1);
      })
      × ((grant found key name a).0 ≡ granted key a o item)
unfolding grant
grant_created key name a none h = absurd (ground arith)
grant_created key name a (some o) h = (o, refl, ground arith, ground arith)

assign_found_created :
    (key name : Bytes) (a : Allocator) (found : Option Lease) {item : Lease}
    → lookup key a.by_key ≡ found
    → (assign_found found key name a).1 ≡ ok (item, true)
    → (assign_found found key name a ≡ grant (first_free pool_size 2 a.used) key name a)
      × (lookup key a.by_key ≡ none)
unfolding assign_found
assign_found_created key name a none p h = (refl, p)
assign_found_created key name a (some old) p h = absurd (ground arith)

-- The request that created a lease, in one equation for the lease and one for the pool.
pub created :
    (key name : Bytes) (a : Allocator) {item : Lease}
    → (assign key name a).1 ≡ ok (item, true)
    → (o : ℕ) × (first_free pool_size 2 a.used ≡ some o)
      × (item ≡ record {
        public_key = key;
        ip = v4 10 0 23 o;
        name = name;
        enabled = true;
        revision = u64 (a.revision + 1);
      })
      × ((assign key name a).0 ≡ granted key a o item)
      × (lookup key a.by_key ≡ none)
unfolding assign
created key name a {item} h = elim (Bool-cases (is_zero key)) [
  | inl z ↦ absurd (ground arith)
  | inr z ↦
      let taken = rw z at h in
      let (eq, absent) = assign_found_created key name a (lookup key a.by_key) refl taken in
      let (o, p, fields, state) =
        grant_created key name a (first_free pool_size 2 a.used) (rw eq at taken) in
      (o, p, fields, rw (z, eq) state, absent)
]

-- A created lease is stored under the key, is enabled, and has the lowest octet that was free; the
-- key had no lease, and no member held that address.
pub assign_created :
    (key name : Bytes) (a : Allocator) {item : Lease}
    → IsValid a
    → (assign key name a).1 ≡ ok (item, true)
    → (o : ℕ) × (item.ip ≡ v4 10 0 23 o)
      × IsLowest pool_size 2 a.used o
      × (lookup key a.by_key ≡ none)
      × (¬ Holds a o)
      × (lookup key (assign key name a).0.by_key ≡ some item)
      × (item.public_key ≡ key)
      × (item.enabled ≡ true)
assign_created key name a {item} v h =
    let (o, p, fields, state, absent) = created key name a h in
    let low = first_free-IsLowest pool_size 2 o a.used p in
    (
      o,
      ap (λ (x : Lease). x.ip) fields,
      low,
      absent,
      λ held. ground (arith, low.free, v.held_used held.0 held.1 o held.2 held.3),
      rw state (lookup-insert_self key item a.by_key),
      ap (λ (x : Lease). x.public_key) fields,
      ap (λ (x : Lease). x.enabled) fields,
    )

-- A member that asks again keeps its lease: the same address and revision, under the new name, and
-- nothing is created.
pub assign_again :
    (key name : Bytes) (a : Allocator) (old : Lease)
    → is_zero key ≡ false
    → lookup key a.by_key ≡ some old
    → ((assign key name a).1 ≡ ok (record old { name = name }, false))
      × (lookup key (assign key name a).0.by_key ≡ some (record old { name = name }))
      × ((assign key name a).0.used ≡ a.used)
      × ((assign key name a).0.revision ≡ a.revision)
unfolding assign assign_found
assign_again key name a old z p =
    ground
      (arith, ==_iff old.name name, lookup-insert_self key (record old { name = name }) a.by_key)

-- Taking a created lease back undoes the request: the octets in use are those of before, and every
-- key has the lease that it had.
pub assign-remove :
    (key name : Bytes) (a : Allocator) {item : Lease}
    → IsValid a
    → (assign key name a).1 ≡ ok (item, true)
    → ((o : ℕ) → (remove key (assign key name a).0).0.used o ≡ a.used o)
      × ((j : Bytes) → lookup j (remove key (assign key name a).0).0.by_key ≡ lookup j a.by_key)
      × ((remove key (assign key name a).0).1 ≡ some item)
unfolding remove
assign-remove key name a {item} v h =
    let (o, p, fields, state, absent) = created key name a h in
    let low = first_free-IsLowest pool_size 2 o a.used p in
    rw (state, lookup-insert_self key item a.by_key)
      (
        (λ c. ground (arith, low.free, octet_of {o = o} (ap (λ (x : Lease). x.ip) fields))),
        (λ j. ground (
          arith,
          lookup-erase key j (insert key item a.by_key),
          lookup-insert key j item a.by_key,
          ==_iff key j,
        )),
        refl,
      )

-- A lease is taken back by its revision only: where another one stands under the key by then,
-- nothing changes.
pub remove_if_revision_other :
    (key : Bytes) (revision : ℕ) (a : Allocator) (item : Lease)
    → lookup key a.by_key ≡ some item
    → item.revision ≢ revision
    → remove_if_revision key revision a ≡ (a, false)
unfolding remove_if_revision
remove_if_revision_other key revision a item p ne = rw p (ground arith)
