-- ===== src/Lease/Reach.antt =====
-- The states that an address pool can be in (internal/lease/lease.go): `New` and then any methods.
use opl_core.Prelude.{ℕ, ◌≡◌, List, ok, Bytes}
use opl_core.Lease.{Lease, Allocator, new, assign, remove, restore, remove_if_revision}
use opl_core.Lease.Invariant.{IsValid, empty-IsValid}
use opl_core.Lease.Keeps.{
  admit_all-IsValid, assign-IsValid, remove-IsValid, restore-IsValid, remove_if_revision-IsValid,
}

-- One call of a method, under the mutex.
pub data Step (a : Allocator) : Allocator → Type 0 where
  assigns : (key name : Bytes) → Step a (assign key name a).0
  removes : (key : Bytes) → Step a (remove key a).0
  restores : (item : Lease) → Step a (restore item a).0
  expires : (key : Bytes) (revision : ℕ) → Step a (remove_if_revision key revision a).0

pub data Reach (initial : List Lease) : Allocator → Type 0 where
  start : {a : Allocator} → new initial ≡ ok a → Reach initial a
  next : {a b : Allocator} → Reach initial a → Step a b → Reach initial b

pub new-IsValid : (initial : List Lease) (a : Allocator) → new initial ≡ ok a → IsValid a
unfolding new
new-IsValid initial a h = admit_all-IsValid initial _ a empty-IsValid h

Step-IsValid : {a b : Allocator} → Step a b → IsValid a → IsValid b
Step-IsValid {a} (assigns key name) v = assign-IsValid key name a v
Step-IsValid {a} (removes key) v = remove-IsValid key a v
Step-IsValid {a} (restores item) v = restore-IsValid item a v
Step-IsValid {a} (expires key r) v = remove_if_revision-IsValid key r a v

-- Whatever leases a pool starts with, if `new` accepts them, and whatever calls of its methods
-- follow, its state is valid: every lease stands under its own key at a member address, no two
-- keys share an address, and the octets marked used are exactly the reserved and the held ones.
pub Reach-IsValid : {initial : List Lease} {a : Allocator} → Reach initial a → IsValid a
Reach-IsValid {initial} (start {a = a} h) = new-IsValid initial a h
Reach-IsValid (next r s) = Step-IsValid s (Reach-IsValid r)
