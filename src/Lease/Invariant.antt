-- ===== src/Lease/Invariant.antt =====
-- What every state of the address pool (internal/lease/lease.go) satisfies.
use opl_core.Prelude.{ℕ, ◌≤◌, ◌≡◌, true, false, ◌⊎◌, some, Bytes, bytes_eq, arith}
use opl_core.Prelude.Dict.{lookup}
use opl_core.Prelude.Addr.{Addr, v4}
use opl_core.Prelude.Binary.{is_zero}
use opl_core.Lease.{Lease, Allocator, member_octet, empty}

-- Octets that no member gets.
abbrev pub IsReserved : ℕ → Type 0
IsReserved o = (o ≡ 0) ⊎ (o ≡ 1) ⊎ (o ≡ 255)

-- The lease fits the key that it stands under.
pub record Fits (k : Bytes) (item : Lease) : Type 0 where
  pub key : item.public_key ≡ k
  pub key_set : is_zero k ≡ false
  pub address : (o : ℕ) × (item.ip ≡ v4 10 0 23 o) × (2 ≤ o) × (o ≤ 254)

-- A member holds the octet.
abbrev pub Holds : Allocator → ℕ → Type 0
Holds a o =
    (k : Bytes) × (item : Lease) × (lookup k a.by_key ≡ some item) × (item.ip ≡ v4 10 0 23 o)

pub record IsValid (a : Allocator) : Type 0 where
  pub fits : (k : Bytes) (item : Lease) → lookup k a.by_key ≡ some item → Fits k item
  -- no address has two holders
  pub unshared :
      (j k : Bytes) (x y : Lease)
      → lookup j a.by_key ≡ some x
      → lookup k a.by_key ≡ some y
      → x.ip ≡ y.ip
      → j ≡ k
  -- the array says exactly which octets are reserved or held
  pub held_used :
      (k : Bytes) (item : Lease) (o : ℕ)
      → lookup k a.by_key ≡ some item
      → item.ip ≡ v4 10 0 23 o
      → a.used o ≡ true
  pub reserved_used : (o : ℕ) → IsReserved o → a.used o ≡ true
  pub used_held : (o : ℕ) → a.used o ≡ true → IsReserved o ⊎ Holds a o

pub member_octet_iff :
    (ip : Addr)
    → (member_octet ip).1 ≡ true
    → (ip ≡ v4 10 0 23 (member_octet ip).0)
      × (2 ≤ (member_octet ip).0)
      × ((member_octet ip).0 ≤ 254)
unfolding member_octet
member_octet_iff (v4 a b c d) h = ground arith
member_octet_iff _ h = ground arith

pub empty-IsValid : IsValid empty
unfolding empty lookup
empty-IsValid = record {
  fits = λ k item p. ground arith;
  unshared = λ j k x y p q e. ground arith;
  held_used = λ k item o p e. ground arith;
  reserved_used = λ o r. ground arith;
  used_held = λ o u. ground arith;
}
