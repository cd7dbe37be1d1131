-- ===== src/Lease/Keeps.antt =====
-- Every method of the address pool (internal/lease/lease.go) keeps its invariant.
use opl_core.Prelude.{
  ℕ, ◌≡◌, true, false, ◌⊎◌, inl, inr, some, none, Bytes, ◌==◌, bytes_eq, ◌≢◌, arith, ==_iff, refl,
  Option, List, [], ◌∷◌, ok, bind_ok, ok_inj, subst, fun_ext, Bool, if◌then◌else◌, Bool-cases, sym,
  ◌∙◌, nat_eq, ltb,
}
use opl_core.Prelude.Dict.{lookup, insert, lookup-insert, lookup-erase, lookup-insert_self}
use opl_core.Prelude.Addr.{Addr, v4, addr_eq}
use opl_core.Prelude.Binary.{is_zero}
use opl_core.Lease.{
  Lease, Allocator, member_octet, set_used, admit, admit_all, first_free, grant, assign_found,
  assign, pool_size, release, remove_found, remove, same_ip, restore, remove_if_revision_found,
  remove_if_revision,
}
use opl_core.Lease.Search.{first_free-IsLowest}
use opl_core.Lease.Invariant.{Fits, Holds, IsValid, member_octet_iff}

module _ (a : Allocator) (v : IsValid a) (k : Bytes) (item : Lease) (o r : ℕ) (f : Fits k item)
    (addr : item.ip ≡ v4 10 0 23 o) where
  abbrev stored : Allocator
  stored = record { by_key = insert k item a.by_key; used = set_used o true a.used; revision = r }

  Holds-stored : Holds stored o
  Holds-stored = (k, item, lookup-insert_self k item a.by_key, addr)

  -- Who held an address still does, if the written key was new or keeps its address.
  Holds-kept :
      ((old : Lease) → lookup k a.by_key ≡ some old → old.ip ≡ item.ip)
      → (c : ℕ) → Holds a c
      → Holds stored c
  Holds-kept same c (j, x, p, e) = elim (Bool-cases (k == j)) [
    | inl eq ↦ (k, item, lookup-insert_self k item a.by_key, ground (arith, same x, ==_iff k j))
    | inr ne ↦ (j, x, lookup-insert k j item a.by_key ∙ rw ne p, e)
  ]

  module _ (same : (old : Lease) → lookup k a.by_key ≡ some old → old.ip ≡ item.ip)
      (free : a.used o ≡ true → (old : Lease) × (lookup k a.by_key ≡ some old)) where
    -- The address is nobody else's.
    sole_holder : (j : Bytes) (y : Lease) → lookup j a.by_key ≡ some y → y.ip ≡ item.ip → k ≡ j
    sole_holder j y q e =
        let (old, p) = free (v.held_used j y o q (e ∙ addr)) in
        v.unshared k j old y p q (same old p ∙ sym e)

    -- A lease at a free address under a new key, or one that replaces the key's lease where it is.
    pub store-IsValid : IsValid stored
    store-IsValid = record {
      fits = λ j x p. ground (arith, lookup-insert k j item a.by_key, ==_iff k j, v.fits j x);
      unshared = λ i j x y p q e. ground (
        arith,
        lookup-insert k j item a.by_key,
        ==_iff k j,
        lookup-insert k i item a.by_key,
        ==_iff k i,
        v.unshared i j x y,
        sole_holder i x,
        sole_holder j y,
      );
      held_used = λ j x c p e.
          ground (arith, lookup-insert k j item a.by_key, ==_iff k j, v.held_used j x c);
      reserved_used = λ c h. ground (arith, v.reserved_used c);
      used_held = λ c u. elim (Bool-cases (c == o)) [
        | inl eq ↦ ground (arith, Holds-stored)
        | inr ne ↦ elim (v.used_held c (ground arith)) [
          | inl h ↦ inl h
          | inr h ↦ inr (Holds-kept same c h)
        ]
      ];
    }

pub octet_of : {o : ℕ} {ip : Addr} → ip ≡ v4 10 0 23 o → (member_octet ip).0 ≡ o
unfolding member_octet
octet_of p = rw p

module _ (a : Allocator) (v : IsValid a) (k : Bytes) (item : Lease)
    (there : lookup k a.by_key ≡ some item) where
  Holds-left : (c : ℕ) → (member_octet item.ip).0 ≢ c → Holds a c → Holds (release k item a) c
  unfolding release
  Holds-left c other (j, x, p, e) = elim (Bool-cases (k == j)) [
    | inl eq ↦ absurd (ground (arith, ==_iff k j, octet_of {o = c} e))
    | inr ne ↦ (j, x, lookup-erase k j a.by_key ∙ rw ne p, e)
  ]

  -- The released octet is free again, and every other one is as it was.
  pub release-IsValid : IsValid (release k item a)
  unfolding release
  release-IsValid =
      let (o, e, lo, hi) = (v.fits k item there).address in
      let at_o = octet_of {o = o} e in
      record {
        fits = λ j x p. ground (arith, lookup-erase k j a.by_key, v.fits j x);
        unshared = λ i j x y p q same.
            ground
              (arith, lookup-erase k i a.by_key, lookup-erase k j a.by_key, v.unshared i j x y);
        held_used = λ j x c p at_c. ground (
          arith,
          lookup-erase k j a.by_key,
          ==_iff k j,
          v.held_used j x c,
          v.unshared k j item x,
        );
        reserved_used = λ c h. ground (arith, v.reserved_used c);
        used_held = λ c u. elim (Bool-cases (c == o)) [
          | inl eq ↦ absurd (ground arith)
          | inr ne ↦ elim (v.used_held c (ground arith)) [
            | inl h ↦ inl h
            | inr h ↦ inr (Holds-left c (λ same. ground arith) h)
          ]
        ];
      }

-- Each method, on every branch.

-- What `New` and `Restore` put in the table.
abbrev pub entry : Lease → Allocator → Allocator
entry item a = record {
  by_key = insert item.public_key item a.by_key;
  used = set_used (member_octet item.ip).0 true a.used;
  revision = if ltb a.revision item.revision then item.revision else a.revision;
}

pub admit_ok :
    (item : Lease) (a a' : Allocator)
    → admit item a ≡ ok a'
    → ((member_octet item.ip).1 ≡ true)
      × (is_zero item.public_key ≡ false)
      × (a.used (member_octet item.ip).0 ≡ false)
      × (lookup item.public_key a.by_key ≡ none)
      × (entry item a ≡ a')
unfolding admit
admit_ok item a a' h = ground arith

member-Fits :
    (item : Lease)
    → (member_octet item.ip).1 ≡ true
    → is_zero item.public_key ≡ false
    → Fits item.public_key item
member-Fits item m z = record {
  key = refl;
  key_set = z;
  address = let (e, lo, hi) = member_octet_iff item.ip m in ((member_octet item.ip).0, e, lo, hi);
}

pub admit-IsValid :
    (item : Lease) (a a' : Allocator) → IsValid a → admit item a ≡ ok a' → IsValid a'
unfolding admit
admit-IsValid item a a' v h =
    let (m, z, free, absent, eq) = admit_ok item a a' h in
    subst IsValid eq (
      store-IsValid a v item.public_key item (member_octet item.ip).0 _ (member-Fits item m z)
        (member_octet_iff item.ip m).0 (λ old p. ground arith) (λ u. ground arith))

pub admit_all-IsValid :
    (items : List Lease) (a a' : Allocator) → IsValid a → admit_all items a ≡ ok a' → IsValid a'
unfolding admit_all
admit_all-IsValid [] a a' v h = subst IsValid (ok_inj h) v
admit_all-IsValid (item ∷ items) a a' v h =
    let (b, p, q) = bind_ok (admit item a) (admit_all items) h in
    admit_all-IsValid items b a' (admit-IsValid item a b v p) q

set_used_again : (o : ℕ) (used : ℕ → Bool) → used o ≡ true → set_used o true used ≡ used
set_used_again o used h = fun_ext λ c. ground arith

-- A write that leaves the key's address alone.
rewrite-IsValid :
    (a : Allocator) (k : Bytes) (old item : Lease)
    → IsValid a
    → lookup k a.by_key ≡ some old
    → item.public_key ≡ old.public_key
    → item.ip ≡ old.ip
    → IsValid (record a { by_key = insert k item a.by_key })
rewrite-IsValid a k old item v p same_key same_ip =
    let f = v.fits k old p in
    let (o, e, lo, hi) = f.address in
    let addr = same_ip ∙ e in
    let fits : Fits k item = record {
      key = same_key ∙ f.key;
      key_set = f.key_set;
      address = (o, addr, lo, hi);
    } in
    subst
      (λ u. IsValid (record { by_key = insert k item a.by_key; used = u; revision = a.revision }))
      (set_used_again o a.used (v.held_used k old o p e))
      (store-IsValid a v k item o a.revision fits addr (λ x q. ground arith) (λ u. (old, p)))

grant-IsValid :
    (key name : Bytes) (a : Allocator) (found : Option ℕ)
    → IsValid a
    → is_zero key ≡ false
    → lookup key a.by_key ≡ none
    → first_free pool_size 2 a.used ≡ found
    → IsValid (grant found key name a).0
unfolding grant
grant-IsValid key name a none v z absent h = v
grant-IsValid key name a (some o) v z absent h =
    let low = first_free-IsLowest pool_size 2 o a.used h in
    store-IsValid a v key _ o _
      (record { key = refl; key_set = z; address = (o, refl, low.above, omega arith) }) refl
      (λ old p. ground arith) (λ u. ground (arith, low.free))

assign_found-IsValid :
    (key name : Bytes) (a : Allocator) (found : Option Lease)
    → IsValid a
    → is_zero key ≡ false
    → lookup key a.by_key ≡ found
    → IsValid (assign_found found key name a).0
unfolding assign_found
assign_found-IsValid key name a none v z h =
    grant-IsValid key name a (first_free pool_size 2 a.used) v z h refl
assign_found-IsValid key name a (some old) v z h = elim (Bool-cases (old.name == name)) [
  | inl same ↦ rw same v
  | inr new_name ↦
      rw new_name (rewrite-IsValid a key old (record old { name = name }) v h refl refl)
]

-- A request for an address keeps the pool well formed, whether it finds the member, takes a free
-- address or is refused.
pub assign-IsValid : (key name : Bytes) (a : Allocator) → IsValid a → IsValid (assign key name a).0
unfolding assign
assign-IsValid key name a v = elim (Bool-cases (is_zero key)) [
  | inl z ↦ rw z v
  | inr z ↦ rw z (assign_found-IsValid key name a (lookup key a.by_key) v z refl)
]

remove_found-IsValid :
    (key : Bytes) (a : Allocator) (found : Option Lease)
    → IsValid a
    → lookup key a.by_key ≡ found
    → IsValid (remove_found found key a).0
unfolding remove_found
remove_found-IsValid key a none v h = v
remove_found-IsValid key a (some item) v h = release-IsValid a v key item h

-- Removing a member keeps the pool well formed.
pub remove-IsValid : (key : Bytes) (a : Allocator) → IsValid a → IsValid (remove key a).0
unfolding remove
remove-IsValid key a v = remove_found-IsValid key a (lookup key a.by_key) v refl

remove_if_revision_found-IsValid :
    (key : Bytes) (r : ℕ) (a : Allocator) (found : Option Lease)
    → IsValid a
    → lookup key a.by_key ≡ found
    → IsValid (remove_if_revision_found found key r a).0
unfolding remove_if_revision_found
remove_if_revision_found-IsValid key r a none v h = v
remove_if_revision_found-IsValid key r a (some item) v h = elim (Bool-cases (item.revision == r)) [
  | inl same ↦ rw same (release-IsValid a v key item h)
  | inr other ↦ rw other v
]

-- So does removing one whose lease is still the expected one.
pub remove_if_revision-IsValid :
    (key : Bytes) (r : ℕ) (a : Allocator) → IsValid a → IsValid (remove_if_revision key r a).0
unfolding remove_if_revision
remove_if_revision-IsValid key r a v =
    remove_if_revision_found-IsValid key r a (lookup key a.by_key) v refl

same_ip-IsSome :
    (found : Option Lease) (ip : Addr)
    → same_ip found ip ≡ true
    → (old : Lease) × (found ≡ some old) × (old.ip ≡ ip)
unfolding same_ip
same_ip-IsSome none ip h = absurd (ground arith)
same_ip-IsSome (some old) ip h = (old, refl, (==_iff old.ip ip).0 h)

pub restore_cases :
    (item : Lease) (a : Allocator)
    → ((restore item a).0 ≡ a)
      ⊎ (((restore item a).0 ≡ entry item a)
          × ((member_octet item.ip).1 ≡ true)
          × (is_zero item.public_key ≡ false)
          × (((lookup item.public_key a.by_key ≡ none) × (a.used (member_octet item.ip).0 ≡ false))
              ⊎ (same_ip (lookup item.public_key a.by_key) item.ip ≡ true)))
unfolding restore
restore_cases item a = ground arith

-- Restoring a lease that was taken away keeps the pool well formed, or is refused.
pub restore-IsValid : (item : Lease) (a : Allocator) → IsValid a → IsValid (restore item a).0
restore-IsValid item a v = elim (restore_cases item a) [
  | inl same ↦ subst IsValid (sym same) v
  | inr (eq, m, z, inl (absent, free)) ↦ subst IsValid (sym eq) (
      store-IsValid a v item.public_key item (member_octet item.ip).0 _ (member-Fits item m z)
        (member_octet_iff item.ip m).0 (λ old p. ground arith) (λ u. ground arith))
  | inr (eq, m, z, inr same) ↦
      let (old, p, q) = same_ip-IsSome (lookup item.public_key a.by_key) item.ip same in
      subst IsValid (sym eq) (
        store-IsValid a v item.public_key item (member_octet item.ip).0 _ (member-Fits item m z)
          (member_octet_iff item.ip m).0 (λ x r. ground arith) (λ u. (old, p)))
]
