-- ===== src/Room/Join/Undo.antt =====
-- Undoing what `assign` did to the pool (internal/room/room.go, `rollbackPairLocked`).
use opl_core.Prelude.{
  ℕ, ◌≡◌, ◌≤◌, ◌≢◌, Bool, true, false, ◌==◌, ==_iff, nat_eq, bytes_eq, Bytes, Option, some, none,
  Result, ok, is_some, arith, refl, sym, ap, ◌∙◌, Bool-cases, inl, inr, subst,
}
use opl_core.Prelude.Dict.{lookup, lookup-insert, lookup-insert_self}
use opl_core.Prelude.Addr.{v4, addr_eq}
use opl_core.Prelude.Binary.{is_zero}
use opl_core.Lease.{
  Lease, Allocator, assign, assign_found, restore, remove, same_ip, member_octet, set_used, full,
  invalid, grant, first_free, pool_size,
}
use opl_core.Lease
use opl_core.Lease.Invariant.{IsValid}
use opl_core.Lease.Keeps.{entry}
use opl_core.Lease.Assign.{assign-remove}
use opl_core.Room.Join.{undo_lease}

-- the lease that the pool, if there is one, has for a key, and whether an octet is marked as used
abbrev pub leased : Option Allocator → Bytes → Option Lease
leased none j = none
leased (some a) j = lookup j a.by_key

abbrev pub marked : Option Allocator → ℕ → Bool
marked none o = false
marked (some a) o = a.used o

-- Two pools with the same lease for every key and the same octets in use.
pub record SamePool (p q : Option Allocator) : Type 0 where
  pub leases : (j : Bytes) → leased q j ≡ leased p j
  pub octets : (o : ℕ) → marked q o ≡ marked p o

pub SamePool-refl : (p : Option Allocator) → SamePool p p
SamePool-refl p = record { leases = λ j. refl; octets = λ o. refl }

-- `a'` is `a` with the lease of the key replaced, if at all, by one of the same address.
record Renamed (key : Bytes) (old : Lease) (a a' : Allocator) : Type 0 where
  now : (x : Lease) × (lookup key a'.by_key ≡ some x) × (x.ip ≡ old.ip)
  others : (j : Bytes) → (key == j) ≡ false → lookup j a'.by_key ≡ lookup j a.by_key
  same_octets : a'.used ≡ a.used

assign_found-Renamed :
    (key name : Bytes) (old : Lease) (a : Allocator)
    → lookup key a.by_key ≡ some old
    → Renamed key old a (assign_found (some old) key name a).0
unfolding assign_found
assign_found-Renamed key name old a p = elim (Bool-cases (old.name == name)) [
  | inl same ↦ rw same (record { now = (old, p, refl); others = λ j n. refl; same_octets = refl })
  | inr other ↦
      let renamed : Lease = record old { name = name } in
      rw other (record {
        now = (renamed, lookup-insert_self key renamed a.by_key, refl);
        others = λ j n. ground (arith, lookup-insert key j renamed a.by_key);
        same_octets = refl;
      })
]

grant-created :
    (key name : Bytes) (a : Allocator) (found : Option ℕ) {item : Lease} {created : Bool}
    → (grant found key name a).1 ≡ ok (item, created)
    → created ≡ true
unfolding grant
grant-created key name a none h = absurd (ground arith)
grant-created key name a (some o) h = ground arith

restore_ok :
    (old : Lease) (a : Allocator)
    → (member_octet old.ip).1 ≡ true
    → is_zero old.public_key ≡ false
    → old.revision ≢ 0
    → is_some (lookup old.public_key a.by_key) ≡ true
    → same_ip (lookup old.public_key a.by_key) old.ip ≡ true
    → (restore old a).0 ≡ entry old a
unfolding restore
restore_ok old a member set positive there same =
    let positive' : (old.revision == 0) ≡ false = ground arith in
    rw (member, set, positive', there, same) (ground arith)

member_octet-member : (o : ℕ) → 2 ≤ o → o ≤ 254 → member_octet (v4 10 0 23 o) ≡ (o, true)
unfolding member_octet
member_octet-member o low high = ground arith

same_ip-now :
    (found : Option Lease) (x old : Lease)
    → found ≡ some x
    → x.ip ≡ old.ip
    → (is_some found ≡ true) × (same_ip found old.ip ≡ true)
unfolding same_ip
same_ip-now none x old e h = absurd (ground arith)
same_ip-now (some y) x old e h =
    let yx : y ≡ x = ground arith in
    (refl, (==_iff y.ip old.ip).1 (ap (λ (z : Lease). z.ip) yx ∙ h))

-- Restoring the lease of before.
restore-Renamed :
    (key : Bytes) (old : Lease) (a a' : Allocator)
    → IsValid a
    → lookup key a.by_key ≡ some old
    → old.revision ≢ 0
    → Renamed key old a a'
    → SamePool (some a) (some (restore old a').0)
restore-Renamed key old a a' v p positive r =
    let f = v.fits key old p in
    let (o, address, low, high) = f.address in
    let octet : member_octet old.ip ≡ (o, true) =
      ap member_octet address ∙ member_octet-member o low high in
    let (x, found, same) = r.now in
    let (there, same') =
      same_ip-now (lookup old.public_key a'.by_key) x old
        (ap (λ k. lookup k a'.by_key) f.key ∙ found) same in
    let done =
      restore_ok old a' (ap (λ q. q.1) octet) (ap is_zero f.key ∙ f.key_set) positive there same' in
    let held = v.held_used key old o p address in
    let first : (member_octet old.ip).0 ≡ o = ap (λ q. q.0) octet in
    subst (λ b. SamePool (some a) (some b)) (sym done)
      (record {
        leases = λ j. ground (
          arith,
          lookup-insert old.public_key j old a'.by_key,
          f.key,
          r.others j,
          ==_iff key j,
          p,
        );
        octets = λ c. ground (arith, ap (λ (u : ℕ → Bool). u c) r.same_octets, held, first);
      })

undo_found :
    (key name : Bytes) (a : Allocator) (found : Option Lease) {item : Lease} {created : Bool}
    → IsValid a
    → ((x : Lease) → lookup key a.by_key ≡ some x → x.revision ≢ 0)
    → lookup key a.by_key ≡ found
    → assign key name a ≡ assign_found found key name a
    → (assign key name a).1 ≡ ok (item, created)
    → SamePool (some a) (some (undo_lease key found (assign key name a).0))
unfolding undo_lease grant assign_found
undo_found key name a (some old) v positive p same h =
    subst
      (λ (x : Allocator × Result Lease.Error (Lease × Bool)).
        SamePool (some a) (some (restore old x.0).0))
      (sym same)
      (restore-Renamed key old a _ v p (positive old p) (assign_found-Renamed key name old a p))
undo_found key name a none {item} {created} v positive p same h =
    let made : created ≡ true =
      grant-created key name a (first_free pool_size 2 a.used) (sym (ap (λ x. x.1) same) ∙ h) in
    let (octets, leases, gone) =
      assign-remove key name a {item = item} v (h ∙ ap (λ b. ok (item, b)) made) in
    record { leases = leases; octets = octets }

-- What a rollback does to the pool undoes what `assign` did to it, where a lease that the key had has
-- a revision, which `restore` asks for.
pub undo-assign :
    (key name : Bytes) (a : Allocator) {item : Lease} {created : Bool}
    → IsValid a
    → ((x : Lease) → lookup key a.by_key ≡ some x → x.revision ≢ 0)
    → (assign key name a).1 ≡ ok (item, created)
    → SamePool (some a) (some (undo_lease key (lookup key a.by_key) (assign key name a).0))
undo-assign key name a {item} {created} v positive h = elim (Bool-cases (is_zero key)) [
  | inl z ↦ absurd (unfold assign in ground arith)
  | inr set ↦
      undo_found key name a (lookup key a.by_key) v positive refl (unfold assign in rw set refl) h
]
