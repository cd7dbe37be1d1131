-- ===== src/Lease/Rebuild.antt =====
-- A pool made again from its own leases (internal/lease/lease.go, `New` of a `Snapshot`).
pub mod Lists
use opl_core.Prelude.{
  ℕ, ◌+◌, ◌≡◌, ◌≢◌, ◌≤◌, Bool, true, false, not, ◌&&◌, ◌||◌, List, [], ◌∷◌, if◌then◌else◌, ◌==◌,
  ==_iff, ==_self, nat_eq, bytes_eq, Bytes, Option, some, none, Result, ok, err, is_some, arith,
  refl, sym, ap, ◌∙◌, subst, Bool-cases, Option-cases, inl, inr, ltb, bind_ok,
}
use opl_core.Prelude.Dict.{Dict, lookup, insert, erase, lookup-insert, lookup-erase}
use opl_core.Prelude.Addr.{Addr, v4, addr_less, addr_eq}
use opl_core.Prelude.Binary.{is_zero}
use opl_core.Prelude.Sort.{sort, sort_insert}
use opl_core.Lease.{
  Lease, Allocator, member_octet, admit, admit_all, new, empty, set_used, leases, snapshot,
}
use opl_core.Lease.Invariant.{IsValid, Fits, member_octet_iff}
use opl_core.Lease.Distinct.{IsDistinct, IsPool}
use opl_core.Prelude.Dict.{lookup-insert_self}
use opl_core.Lease.Reach.{new-IsValid}
use opl_core.Lease.Rebuild.Lists.{
  IsMember, AreApart, AreApart-sym, All, Pairwise, sort-All, sort-Pairwise, All-leases, leases-All,
  Pairwise-leases, All-sort,
}

-- A lease that may be admitted to a pool.
abbrev IsFresh : Allocator → Lease → Type 0
IsFresh a x = (lookup x.public_key a.by_key ≡ none) × (a.used (member_octet x.ip).0 ≡ false)

abbrev admitted : Lease → Allocator → Allocator
admitted x a = record {
  by_key = insert x.public_key x a.by_key;
  used = set_used (member_octet x.ip).0 true a.used;
  revision = if ltb a.revision x.revision then x.revision else a.revision;
}

admit-fresh : (x : Lease) (a : Allocator) → IsMember x → IsFresh a x → admit x a ≡ ok (admitted x a)
unfolding admit
admit-fresh x a m f = rw (m.0, m.1, f.0, f.1) refl

still-IsFresh :
    (a : Allocator) (x y : Lease) → AreApart x y → IsFresh a y → IsFresh (admitted x a) y
still-IsFresh a x y h f = (
  ground (arith, lookup-insert x.public_key y.public_key x a.by_key),
  ground (arith, ==_iff (member_octet x.ip).0 (member_octet y.ip).0),
)

all-IsFresh :
    (a : Allocator) (x : Lease) (ys : List Lease)
    → All (AreApart x) ys
    → All (IsFresh a) ys
    → All (IsFresh (admitted x a)) ys
all-IsFresh a x [] h f = tt
all-IsFresh a x (y ∷ ys) h f = (still-IsFresh a x y h.0 f.0, all-IsFresh a x ys h.1 f.1)

-- What admitting leases, all of them fresh, leaves in the map.
record Admits {ℓ} (Q : Bytes → Lease → Type ℓ) (xs : List Lease) (a b : Allocator) : Type ℓ where
  grows : (k : Bytes) (y : Lease) → lookup k a.by_key ≡ some y → lookup k b.by_key ≡ some y
  holds : All (λ x. lookup x.public_key b.by_key ≡ some x) xs
  only :
      ((k : Bytes) (y : Lease) → lookup k a.by_key ≡ some y → Q k y)
      → All (λ x. Q x.public_key x) xs
      → (k : Bytes) (y : Lease) → lookup k b.by_key ≡ some y
      → Q k y

module _ {ℓ} (Q : Bytes → Lease → Type ℓ) where
  still_held :
      (x : Lease) (a : Allocator) (k : Bytes) (y : Lease)
      → lookup x.public_key a.by_key ≡ none
      → lookup k a.by_key ≡ some y
      → lookup k (admitted x a).by_key ≡ some y
  still_held x a k y n p =
      ground (arith, lookup-insert x.public_key k x a.by_key, ==_iff x.public_key k)

  held_or_new :
      (x : Lease) (a : Allocator)
      → ((k : Bytes) (y : Lease) → lookup k a.by_key ≡ some y → Q k y)
      → Q x.public_key x
      → (k : Bytes) (y : Lease) → lookup k (admitted x a).by_key ≡ some y
      → Q k y
  held_or_new x a old q k y p = elim (Bool-cases (x.public_key == k)) [
    | inl same ↦
        let key : x.public_key ≡ k = (==_iff x.public_key k).0 same in
        let item : x ≡ y = ground (arith, lookup-insert x.public_key k x a.by_key) in
        subst (λ i. Q i y) key (subst (λ z. Q x.public_key z) item q)
    | inr other ↦ old k y (ground (arith, lookup-insert x.public_key k x a.by_key))
  ]

  admit_all-fresh :
      (xs : List Lease) (a : Allocator)
      → All IsMember xs
      → Pairwise xs
      → All (IsFresh a) xs
      → (b : Allocator) × (admit_all xs a ≡ ok b) × Admits Q xs a b
  unfolding admit_all
  admit_all-fresh [] a m p f =
      (a, refl, record { grows = λ k y h. h; holds = tt; only = λ old q. old })
  admit_all-fresh (x ∷ xs) a m p f =
      let (b, e, w) = admit_all-fresh xs (admitted x a) m.1 p.1 (all-IsFresh a x xs p.0 f.1) in
      let here = w.grows x.public_key x (lookup-insert_self x.public_key x a.by_key) in
      (
        b,
        rw (admit-fresh x a m.0 f.0) e,
        record {
          grows = λ k y h. w.grows k y (still_held x a k y f.0.0 h);
          holds = (here, w.holds);
          only = λ old q. w.only (held_or_new x a old q.0) q.1;
        },
      )

module _ (a : Allocator) (v : IsValid a) where
  held-IsMember : (k : Bytes) (x : Lease) → lookup k a.by_key ≡ some x → IsMember x
  unfolding member_octet
  held-IsMember k x h =
      let (o, ip, low, high) = (v.fits k x h).address in
      (rw ip (ground arith), rw (v.fits k x h).key (v.fits k x h).key_set)

  held-AreApart :
      (j k : Bytes) (x y : Lease)
      → lookup j a.by_key ≡ some x
      → lookup k a.by_key ≡ some y
      → (j == k) ≡ false
      → AreApart x y
  held-AreApart j k x y p q n =
      let e = (v.fits j x p).key in
      let f = (v.fits k y q).key in
      let ip_x = (member_octet_iff x.ip (held-IsMember j x p).0).0 in
      let ip_y = (member_octet_iff y.ip (held-IsMember k y q).0).0 in
      (
        rw (e, f) n,
        elim (Bool-cases ((member_octet x.ip).0 == (member_octet y.ip).0)) [
          | inr other ↦ other
          | inl same ↦
              let o : (member_octet x.ip).0 ≡ (member_octet y.ip).0 = (==_iff _ _).0 same in
              let ip : x.ip ≡ y.ip = ip_x ∙ ap (λ c. v4 10 0 23 c) o ∙ sym ip_y in
              let jk : j ≡ k = v.unshared j k x y p q ip in absurd (ground (arith, ==_iff j k))
        ],
      )

  leases-IsMember : IsDistinct a.by_key → All IsMember (snapshot a)
  unfolding snapshot
  leases-IsMember d =
      sort-All _ IsMember (leases a.by_key) (All-leases IsMember a.by_key d held-IsMember)

  leases-Pairwise : IsDistinct a.by_key → Pairwise (snapshot a)
  unfolding snapshot
  leases-Pairwise d = sort-Pairwise _ (leases a.by_key) (Pairwise-leases a.by_key d held-AreApart)

in_empty-IsFresh : (xs : List Lease) → All IsMember xs → All (IsFresh empty) xs
in_empty-IsFresh [] h = tt
in_empty-IsFresh (x ∷ xs) h = (fresh x h.0, in_empty-IsFresh xs h.1)
  where
    fresh : (x : Lease) → IsMember x → IsFresh empty x
    fresh x m =
        let (ip, low, high) = member_octet_iff x.ip m.0 in
        (unfold empty lookup in refl, unfold empty in ground arith)

module _ (a : Allocator) (v : IsValid a) (d : IsDistinct a.by_key) where
  -- an entry of the pool `a`
  abbrev pub Stands : Bytes → Lease → Type 0
  Stands k y = lookup k a.by_key ≡ some y

  under_key : (k : Bytes) (x : Lease) → Stands k x → Stands x.public_key x
  under_key k x p = subst (λ i. Stands i x) (sym (v.fits k x p).key) p

  pub snapshot-Stands : All (λ x. Stands x.public_key x) (snapshot a)
  unfolding snapshot
  snapshot-Stands = sort-All _ _ (leases a.by_key) (All-leases _ a.by_key d under_key)

  module _ (b : Allocator) (w : Admits Stands (snapshot a) empty b) where
    back : (k : Bytes) (x : Lease) → lookup k b.by_key ≡ some x → Stands k x
    back = w.only (λ k y p. absurd (unfold empty lookup in cc)) snapshot-Stands

    forth : (k : Bytes) (x : Lease) → Stands k x → lookup k b.by_key ≡ some x
    forth k x p =
        let all : All (λ x. lookup x.public_key b.by_key ≡ some x)
            (sort (λ x y. addr_less x.ip y.ip) (leases a.by_key)) =
          unfold snapshot in w.holds in
        let here = leases-All _ a.by_key (All-sort _ _ (leases a.by_key) all) k x p in
        subst (λ i. lookup i b.by_key ≡ some x) (v.fits k x p).key here

    same_lookup : (k : Bytes) → lookup k b.by_key ≡ lookup k a.by_key
    same_lookup k = elim (Option-cases (lookup k a.by_key)) [
      | inl absent ↦ elim (Option-cases (lookup k b.by_key)) [
        | inl both ↦ both ∙ sym absent
        | inr (x, p) ↦ absurd (let q = back k x p in cc)
      ]
      | inr (x, p) ↦ forth k x p ∙ sym p
    ]

-- Two valid pools with the same leases mark the same octets.
same_used :
    (a b : Allocator)
    → IsValid a
    → IsValid b
    → ((k : Bytes) → lookup k a.by_key ≡ lookup k b.by_key)
    → (o : ℕ) → a.used o ≡ true
    → b.used o ≡ true
same_used a b v w e o h = elim (v.used_held o h) [
  | inl r ↦ w.reserved_used o r
  | inr (k, x, p, ip) ↦ w.held_used k x o (sym (e k) ∙ p) ip
]

-- A pool made from the snapshot of another one: `new` accepts it, and the new pool has exactly the leases
-- of the old one, each under its key, and marks exactly the same octets as used.
pub new-snapshot :
    (a : Allocator)
    → IsPool a
    → (b : Allocator) × (new (snapshot a) ≡ ok b)
      × ((k : Bytes) → lookup k b.by_key ≡ lookup k a.by_key)
      × ((o : ℕ) → b.used o ≡ a.used o)
new-snapshot a (v, d) =
    let (b, e, w) =
      admit_all-fresh (Stands a v d) (snapshot a) empty (leases-IsMember a v d)
        (leases-Pairwise a v d) (in_empty-IsFresh (snapshot a) (leases-IsMember a v d)) in
    let made : new (snapshot a) ≡ ok b = unfold new in e in
    let u = new-IsValid (snapshot a) b made in
    let same = same_lookup a v d b w in
    (
      b,
      made,
      same,
      λ o. ground (arith, same_used a b v u (λ k. sym (same k)) o, same_used b a u v same o),
    )
