-- ===== src/Lease/Tests.antt =====
-- Runs of the address pool, and its theorems at concrete inputs (internal/lease/lease_test.go).
use opl_core.Prelude.{
  ℕ, ◌≡◌, refl, [], ◌∷◌, some, none, ok, err, true, false, Bytes, arith, ◌+◌, ◌≤◌, ◌<◌, ◌↔◌,
  bytes_eq,
}
use opl_core.Prelude.Dict.{lookup, insert}
use opl_core.Prelude.Addr.{v4}
use opl_core.Prelude.Binary.{is_zero}
use opl_core.Lease.{
  Lease, Allocator, empty, new, assign, remove, first_free, full, remove_if_revision, pool_size,
}
use opl_core.Lease.Search.{IsLowest}
use opl_core.Lease.Reach.{Reach, start, next, Reach-IsValid, assigns, removes}
use opl_core.Lease.Invariant.{IsValid, Holds, empty-IsValid}
use opl_core.Lease.{snapshot}
use opl_core.Lease.Distinct.{IsPool, assign-IsPool, new-IsPool}
use opl_core.Lease.Rebuild.{new-snapshot}
use opl_core.Lease.Assign.{assign-full_iff, assign_created, assign-remove, remove_if_revision_other}
use opl_core.Lease.Revisions.{assign_revision, start}

abbrev alice : Bytes
alice = 1 ∷ 7 ∷ []

abbrev bob : Bytes
bob = 2 ∷ 9 ∷ []

abbrev first : Lease
first = record {
  public_key = alice;
  ip = v4 10 0 23 2;
  name = 65 ∷ [];
  enabled = true;
  revision = 1;
}

abbrev one_member : Allocator
one_member = (assign alice (65 ∷ []) empty).0

alice_is_first : (assign alice (65 ∷ []) empty).1 ≡ ok (first, true)
unfolding assign first_free empty is_zero lookup
alice_is_first = refl

bob_follows :
    (assign bob [] one_member).1
    ≡ ok (
      record { public_key = bob; ip = v4 10 0 23 3; name = []; enabled = true; revision = 2 },
      true,
    )
unfolding assign first_free empty is_zero lookup insert
bob_follows = refl

alice_found : lookup alice one_member.by_key ≡ some first
unfolding assign first_free empty is_zero lookup insert
alice_found = refl

Reach-one : Reach [] one_member
unfolding new
Reach-one = next (start refl) (assigns alice (65 ∷ []))

Reach-IsValid_example : IsValid (remove alice one_member).0
Reach-IsValid_example = Reach-IsValid (next Reach-one (removes alice))

assign-full_iff_example :
    ((assign alice [] empty).1 ≡ err full)
    ↔ ((lookup alice empty.by_key ≡ none) × ((o : ℕ) → 2 ≤ o → o ≤ 254 → empty.used o ≡ true))
unfolding is_zero
assign-full_iff_example = assign-full_iff alice [] empty refl

assign_created_example :
    (o : ℕ) × (first.ip ≡ v4 10 0 23 o)
    × IsLowest pool_size 2 empty.used o
    × (lookup alice empty.by_key ≡ none)
    × (¬ Holds empty o)
    × (lookup alice one_member.by_key ≡ some first)
    × (first.public_key ≡ alice)
    × (first.enabled ≡ true)
assign_created_example =
    assign_created alice (65 ∷ []) empty {item = first} empty-IsValid alice_is_first

assign-remove_example :
    ((o : ℕ) → (remove alice one_member).0.used o ≡ empty.used o)
    × ((j : Bytes) → lookup j (remove alice one_member).0.by_key ≡ lookup j empty.by_key)
    × ((remove alice one_member).1 ≡ some first)
assign-remove_example =
    assign-remove alice (65 ∷ []) empty {item = first} empty-IsValid alice_is_first

remove_if_revision_other_example : remove_if_revision alice 4 one_member ≡ (one_member, false)
remove_if_revision_other_example =
    remove_if_revision_other alice 4 one_member first alice_found (omega arith)

assign_revision_example :
    (first.revision ≡ empty.revision + 1)
    × ((k : Bytes) (old : Lease) → lookup k empty.by_key ≡ some old → old.revision < first.revision)
    × ((assign alice (65 ∷ []) empty).0.revision ≡ first.revision)
unfolding empty
assign_revision_example =
    assign_revision alice (65 ∷ []) {initial = []} {a = empty} {item = first}
      (start {a = empty} (unfold new in refl)) (omega arith) alice_is_first

empty-IsPool : IsPool empty
empty-IsPool = new-IsPool [] empty (unfold new in refl)

new-snapshot_example :
    (b : Allocator) × (new (snapshot one_member) ≡ ok b)
    × ((k : Bytes) → lookup k b.by_key ≡ lookup k one_member.by_key)
    × ((o : ℕ) → b.used o ≡ one_member.used o)
new-snapshot_example = new-snapshot one_member (assign-IsPool alice (65 ∷ []) empty empty-IsPool)
