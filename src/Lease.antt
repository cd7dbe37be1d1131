-- ===== src/Lease.antt =====
-- The address pool of a room (internal/lease/lease.go): which member holds which address of
-- 10.0.23.0/24. A `[32]byte` key is a byte list, the array `used` a function on octets, and a
-- method returns the new allocator beside its result. The mutex is not modelled: every method
-- holds it from its first read to its last write, so each is one step.
pub mod Invariant
pub mod Keeps
mod Tests
pub mod Search
pub mod Reach
pub mod Assign
pub mod Distinct
pub mod Rebuild
pub mod Revisions
use opl_core.Prelude.{
  ℕ, zero, suc, ◌+◌, ◌%◌, ◌≡◌, Bool, true, false, not, ◌&&◌, ◌||◌, Option, none, some, List, [],
  ◌∷◌, ltb, leb, if◌then◌else◌, ◌==◌, nat_eq, bytes_eq, Bytes, is_some, Result, ok, err, reject,
  ◌>>=◌, ◌>>◌, map,
}
use opl_core.Prelude.Dict.{Dict, lookup, insert, erase}
use opl_core.Prelude.Addr.{Addr, zero_addr, v4, v6, addr_eq, addr_less, is4}
use opl_core.Prelude.Binary.{is_zero, zeroes}
use opl_core.Prelude.Sort.{sort}

pub data Error : Type 0 where
  full invalid : Error

pub record Lease : Type 0 where
  pub public_key : Bytes
  pub ip : Addr
  pub name : Bytes
  pub enabled : Bool
  pub revision : ℕ

-- Lease{}
abbrev pub zero_lease : Lease
zero_lease = record {
  public_key = zeroes 32;
  ip = zero_addr;
  name = [];
  enabled = false;
  revision = 0;
}

pub record Allocator : Type 0 where
  pub by_key : Dict Bytes Lease
  pub used : ℕ → Bool
  pub revision : ℕ

-- used[octet] = b
abbrev pub set_used : ℕ → Bool → (ℕ → Bool) → ℕ → Bool
set_used octet b used o = if o == octet then b else used o

-- uint64 arithmetic wraps
abbrev pub u64 : ℕ → ℕ
u64 n = n % 18446744073709551616

-- The last octet of a member's address, and whether the address is a member's.
unfoldable pub member_octet : Addr → ℕ × Bool
member_octet (v4 a b c d) = (d, a == 10 && b == 0 && c == 23 && leb 2 d && leb d 254)
member_octet _ = (0, false)

unfoldable pub empty : Allocator
empty = record { by_key = []; used = λ o. o == 0 || o == 1 || o == 255; revision = 0 }

-- one round of the loop of `New`
unfoldable pub admit : Lease → Allocator → Result Error Allocator
unfolding member_octet
admit item a = do
  let octet = (member_octet item.ip).0
  let ok_ip = (member_octet item.ip).1
  reject (not ok_ip || is_zero item.public_key || a.used octet) invalid
  reject (is_some (lookup item.public_key a.by_key)) invalid
  ok (record {
    by_key = insert item.public_key item a.by_key;
    used = set_used octet true a.used;
    revision = if ltb a.revision item.revision then item.revision else a.revision;
  })

unfoldable pub admit_all : List Lease → Allocator → Result Error Allocator
unfolding admit
admit_all [] a = ok a
admit_all (item ∷ rest) a = do a' ← admit item a; admit_all rest a'

unfoldable pub new : List Lease → Result Error Allocator
unfolding admit_all empty
new initial = admit_all initial empty

-- `for octet := from; ...; octet++ { if a.used[octet] { continue }; ... }` with `rounds` octets left
unfoldable pub first_free : ℕ → ℕ → (ℕ → Bool) → Option ℕ
first_free zero from used = none
first_free (suc rounds) from used =
    let rest = first_free rounds (from + 1) used in if used from then rest else some from

-- the octets 2 to 254
abbrev pub pool_size : ℕ
pool_size = 253

-- The part of `Assign` behind the loop: a new lease, or a full pool.
unfoldable pub grant :
    Option ℕ → Bytes → Bytes → Allocator → Allocator × Result Error (Lease × Bool)
grant none key name a = (a, err full)
grant (some octet) key name a =
    let item : Lease = record {
      public_key = key;
      ip = v4 10 0 23 octet;
      name = name;
      enabled = true;
      revision = u64 (a.revision + 1);
    } in
    (
      record {
        by_key = insert key item a.by_key;
        used = set_used octet true a.used;
        revision = u64 (a.revision + 1);
      },
      ok (item, true),
    )

-- The part behind the look-up of the key.
unfoldable pub assign_found :
    Option Lease → Bytes → Bytes → Allocator → Allocator × Result Error (Lease × Bool)
unfolding grant
assign_found (some existing) key name a =
    let renamed : Lease = record existing { name = name } in
    if existing.name == name
    then (a, ok (existing, false))
    else (record a { by_key = insert key renamed a.by_key }, ok (renamed, false))
assign_found none key name a = grant (first_free pool_size 2 a.used) key name a

unfoldable pub assign : Bytes → Bytes → Allocator → Allocator × Result Error (Lease × Bool)
unfolding assign_found
assign key name a =
    if is_zero key then (a, err invalid) else assign_found (lookup key a.by_key) key name a

-- what `Remove` and `RemoveIfRevision` do with a lease that is there
unfoldable pub release : Bytes → Lease → Allocator → Allocator
unfolding member_octet
release key item a = record a {
  used = set_used (member_octet item.ip).0 false a.used;
  by_key = erase key a.by_key;
}

unfoldable pub remove_found : Option Lease → Bytes → Allocator → Allocator × Option Lease
unfolding release
remove_found none key a = (a, none)
remove_found (some item) key a = (release key item a, some item)

unfoldable pub remove : Bytes → Allocator → Allocator × Option Lease
unfolding remove_found
remove key a = remove_found (lookup key a.by_key) key a

unfoldable pub same_ip : Option Lease → Addr → Bool
same_ip none ip = false
same_ip (some existing) ip = existing.ip == ip

unfoldable pub restore : Lease → Allocator → Allocator × Result Error (Unit {0})
unfolding member_octet same_ip
restore item a =
    let octet = (member_octet item.ip).0 in
    let existing = lookup item.public_key a.by_key in
    if not (member_octet item.ip).1 || is_zero item.public_key || item.revision == 0
    then (a, err invalid)
    else if is_some existing && not (same_ip existing item.ip)
    then (a, err invalid)
    else if a.used octet && (not (is_some existing) || not (same_ip existing item.ip))
    then (a, err invalid)
    else (
      record {
        by_key = insert item.public_key item a.by_key;
        used = set_used octet true a.used;
        revision = if ltb a.revision item.revision then item.revision else a.revision;
      },
      ok tt,
    )

unfoldable pub remove_if_revision_found : Option Lease → Bytes → ℕ → Allocator → Allocator × Bool
unfolding release
remove_if_revision_found none key revision a = (a, false)
remove_if_revision_found (some item) key revision a =
    if not (item.revision == revision) then (a, false) else (release key item a, true)

unfoldable pub remove_if_revision : Bytes → ℕ → Allocator → Allocator × Bool
unfolding remove_if_revision_found
remove_if_revision key revision a = remove_if_revision_found (lookup key a.by_key) key revision a

unfoldable pub leases : Dict Bytes Lease → List Lease
leases [] = []
leases ((k, item) ∷ rest) = item ∷ leases rest

unfoldable pub snapshot : Allocator → List Lease
unfolding leases sort
snapshot a = sort (λ x y. addr_less x.ip y.ip) (leases a.by_key)
