-- ===== src/Room/Reach/Sound.antt =====
-- What holds of a room at all times (internal/room/room.go).
use opl_core.Prelude.{
  ◌≡◌, Bool, true, false, if◌then◌else◌, nat_eq, bytes_eq, Option, some, none, is_some, refl, sym,
  ◌∙◌, subst,
}
use opl_core.Prelude.Addr.{addr_eq}
use opl_core.Lease.{Allocator}
use opl_core.Lease.Distinct.{IsPool}
use opl_core.Room.{Service, on_allocator}

abbrev pub ArePooled : Option Allocator → Type 0
ArePooled none = Unit {0}
ArePooled (some a) = IsPool a

-- The pool, if there is one, is as its methods leave it; and there is one while the room runs.
pub record IsSound (s : Service) : Type 0 where
  pub pool : ArePooled s.allocator
  pub has_pool : s.running ≡ true → is_some s.allocator ≡ true

pub on_allocator-ArePooled :
    (f : Allocator → Allocator)
    → ((a : Allocator) → IsPool a → IsPool (f a))
    → (o : Option Allocator) → ArePooled o
    → ArePooled (on_allocator f o)
on_allocator-ArePooled f keep none h = tt
on_allocator-ArePooled f keep (some a) h = keep a h

pub is_some-on_allocator :
    (f : Allocator → Allocator) (o : Option Allocator) → is_some (on_allocator f o) ≡ is_some o
is_some-on_allocator f none = refl
is_some-on_allocator f (some a) = refl

-- What a method with a result leaves.
pub record Leaves {ℓ} {R : Type ℓ} (r : Service × R) : Type 0 where
  pub left : IsSound r.0

pub leaves {ℓ} : {R : Type ℓ} (s : Service) (r : R) → IsSound s → Leaves (s, r)
leaves s r v = record { left = v }

pub carry :
    (s t : Service) → t.allocator ≡ s.allocator → t.running ≡ s.running → IsSound s → IsSound t
carry s t e f v = record {
  pool = subst ArePooled (sym e) v.pool;
  has_pool = λ on. rw e (v.has_pool (sym f ∙ on));
}

-- A room that has this pool.
pub with_pool : (s : Service) (a : Allocator) → s.allocator ≡ some a → IsPool a → IsSound s
with_pool s a e v = record { pool = subst ArePooled (sym e) v; has_pool = λ on. rw e refl }

pub Leaves-if {ℓ} :
    {R : Type ℓ} (b : Bool) {x y : Service × R} → Leaves x → Leaves y → Leaves (if b then x else y)
Leaves-if true h g = h
Leaves-if false h g = g

pub IsSound-if : (b : Bool) {x y : Service} → IsSound x → IsSound y → IsSound (if b then x else y)
IsSound-if true h g = h
IsSound-if false h g = g
