-- ===== src/Lease/Revisions.antt =====
-- The revisions of leases (internal/lease/lease.go): the counter is at least every revision in the pool,
-- so that a new lease has one that no other lease has.
use opl_core.Prelude.{
  ℕ, ◌+◌, ◌≤◌, ◌<◌, ◌≡◌, inl, inr, true, not, ltb, some, none, Bytes, arith, Option, Result, ok,
  List, [], ◌∷◌, Bool, refl, ap, ◌∙◌, ◌==◌, bytes_eq, nat_eq, if_either, sym, subst, ok_inj,
  bind_ok, if◌then◌else◌,
}
use opl_core.Prelude.Dict.{lookup, insert, lookup-insert, lookup-erase}
use opl_core.Prelude.Addr.{v4, addr_eq}
use opl_core.Prelude.Binary.{is_zero}
use opl_core.Lease.{
  Lease, Allocator, Error, empty, admit, admit_all, new, assign, assign_found, grant, first_free,
  pool_size, u64, remove, remove_found, release, restore, remove_if_revision,
  remove_if_revision_found,
}
use opl_core.Lease.Assign.{created}
use opl_core.Lease.Keeps.{restore_cases, admit_ok}
use opl_core.Lease.Reach.{Step, assigns, removes, restores, expires}

-- No lease's revision is above the counter.
pub record IsOrdered (a : Allocator) : Type 0 where
  pub counted :
      (k : Bytes) (item : Lease) → lookup k a.by_key ≡ some item → item.revision ≤ a.revision

-- a lease is stored, and the counter is raised to its revision if that is higher
stored-IsOrdered :
    (item : Lease) (used : ℕ → Bool) (a : Allocator)
    → IsOrdered a
    → IsOrdered (record {
      by_key = insert item.public_key item a.by_key;
      used = used;
      revision = if ltb a.revision item.revision then item.revision else a.revision;
    })
stored-IsOrdered item used a v = record {
  counted = λ k x q. ground (arith, lookup-insert item.public_key k item a.by_key, v.counted k x);
}

empty-IsOrdered : IsOrdered empty
unfolding empty lookup
empty-IsOrdered = record { counted = λ k x q. absurd (ground arith) }

admit-IsOrdered : (item : Lease) (a b : Allocator) → admit item a ≡ ok b → IsOrdered a → IsOrdered b
admit-IsOrdered item a b h v =
    let (m, z, free, absent, eq) = admit_ok item a b h in
    subst IsOrdered eq (stored-IsOrdered item _ a v)

admit_all-IsOrdered :
    (items : List Lease) (a b : Allocator) → admit_all items a ≡ ok b → IsOrdered a → IsOrdered b
unfolding admit_all
admit_all-IsOrdered [] a b h v = subst IsOrdered (ok_inj h) v
admit_all-IsOrdered (item ∷ items) a b h v =
    let (c, p, q) = bind_ok (admit item a) (admit_all items) h in
    admit_all-IsOrdered items c b q (admit-IsOrdered item a c p v)

restore-IsOrdered : (item : Lease) (a : Allocator) → IsOrdered a → IsOrdered (restore item a).0
restore-IsOrdered item a v = elim (restore_cases item a) [
  | inl same ↦ subst IsOrdered (sym same) v
  | inr (eq, m, z, kept) ↦ subst IsOrdered (sym eq) (stored-IsOrdered item _ a v)
]

release-IsOrdered :
    (key : Bytes) (item : Lease) (a : Allocator) → IsOrdered a → IsOrdered (release key item a)
unfolding release
release-IsOrdered key item a v = record {
  counted = λ k x q. ground (arith, lookup-erase key k a.by_key, v.counted k x);
}

remove_found-IsOrdered :
    (key : Bytes) (a : Allocator) (found : Option Lease)
    → IsOrdered a
    → IsOrdered (remove_found found key a).0
unfolding remove_found
remove_found-IsOrdered key a none v = v
remove_found-IsOrdered key a (some item) v = release-IsOrdered key item a v

expired-IsOrdered :
    (key : Bytes) (revision : ℕ) (a : Allocator) (found : Option Lease)
    → IsOrdered a
    → IsOrdered (remove_if_revision_found found key revision a).0
unfolding remove_if_revision_found
expired-IsOrdered key revision a none v = v
expired-IsOrdered key revision a (some item) v =
    if_either (λ (x : Allocator × Bool). IsOrdered x.0) (not (item.revision == revision)) v
      (release-IsOrdered key item a v)

-- below this the counter does not wrap
abbrev CanCount : Allocator → Type 0
CanCount a = a.revision + 1 < 18446744073709551616

grant-IsOrdered :
    (key name : Bytes) (a : Allocator) (found : Option ℕ)
    → CanCount a
    → IsOrdered a
    → IsOrdered (grant found key name a).0
unfolding grant
grant-IsOrdered key name a none room v = v
grant-IsOrdered key name a (some o) room v =
    let item : Lease = record {
      public_key = key;
      ip = v4 10 0 23 o;
      name = name;
      enabled = true;
      revision = u64 (a.revision + 1);
    } in
    record { counted = λ k x q. ground (arith, lookup-insert key k item a.by_key, v.counted k x) }

assign_found-IsOrdered :
    (key name : Bytes) (a : Allocator) (found : Option Lease)
    → lookup key a.by_key ≡ found
    → CanCount a
    → IsOrdered a
    → IsOrdered (assign_found found key name a).0
unfolding assign_found
assign_found-IsOrdered key name a none p room v =
    grant-IsOrdered key name a (first_free pool_size 2 a.used) room v
assign_found-IsOrdered key name a (some old) p room v =
    if_either (λ (x : Allocator × Result Error (Lease × Bool)). IsOrdered x.0) (old.name == name) v
      (record {
        counted = λ k x q. ground (
          arith,
          lookup-insert key k (record old { name = name }) a.by_key,
          v.counted k x,
          v.counted key old p,
        );
      })

Step-IsOrdered : {a b : Allocator} → Step a b → CanCount a → IsOrdered a → IsOrdered b
unfolding assign remove remove_if_revision
Step-IsOrdered {a} (assigns key name) room v =
    if_either (λ (x : Allocator × Result Error (Lease × Bool)). IsOrdered x.0) (is_zero key) v
      (assign_found-IsOrdered key name a (lookup key a.by_key) refl room v)
Step-IsOrdered {a} (removes key) room v = remove_found-IsOrdered key a (lookup key a.by_key) v
Step-IsOrdered {a} (restores item) room v = restore-IsOrdered item a v
Step-IsOrdered {a} (expires key r) room v = expired-IsOrdered key r a (lookup key a.by_key) v

-- A pool that `new` made, after any calls of its methods, each of them made while the counter is not
-- at its last value.
pub data Counted (initial : List Lease) : Allocator → Type 0 where
  start : {a : Allocator} → new initial ≡ ok a → Counted initial a
  next :
      {a b : Allocator}
      → Counted initial a
      → a.revision + 1 < 18446744073709551616
      → Step a b
      → Counted initial b

Counted-IsOrdered : {initial : List Lease} {a : Allocator} → Counted initial a → IsOrdered a
unfolding new
Counted-IsOrdered {initial} (start {a = a} h) =
    admit_all-IsOrdered initial empty a h empty-IsOrdered
Counted-IsOrdered (next r room s) = Step-IsOrdered s room (Counted-IsOrdered r)

-- Whatever leases a pool starts with and whatever calls of its methods follow, as long as the 64-bit
-- counter does not wrap: a created lease has the revision after the counter's, which is above the
-- revision of every lease in the pool, and is the counter's new value.
pub assign_revision :
    (key name : Bytes) {initial : List Lease} {a : Allocator} {item : Lease}
    → Counted initial a
    → a.revision + 1 < 18446744073709551616
    → (assign key name a).1 ≡ ok (item, true)
    → (item.revision ≡ a.revision + 1)
      × ((k : Bytes) (old : Lease) → lookup k a.by_key ≡ some old → old.revision < item.revision)
      × ((assign key name a).0.revision ≡ item.revision)
unfolding assign
assign_revision key name {initial} {a} {item} run room h =
    let (o, p, fields, state, absent) = created key name a h in
    let number : item.revision ≡ a.revision + 1 =
      ap (λ (x : Lease). x.revision) fields ∙ omega arith in
    (
      number,
      (λ k old q. omega (arith, (Counted-IsOrdered run).counted k old q)),
      ap (λ (x : Allocator). x.revision) state ∙ sym (ap (λ (x : Lease). x.revision) fields),
    )
