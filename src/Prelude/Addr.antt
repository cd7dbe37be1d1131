-- ===== src/Prelude/Addr.antt =====
-- netip.Addr: the zero value, an IPv4 address, or an IPv6 address with its zone.
use opl_core.Prelude.Tests.{Bytes, Eq, bytes_beq, bytes_beq_iff, nat_beq, ltb}
use Prim.Native.Nat.{ℕ, ◌+◌, ◌*◌}
use mathlib.Core.Path.{◌≡◌}
use mathlib.Core.List.{[], ◌∷◌}
use mathlib.Core.Logic.{◌↔◌}
use mathlib.Core.Bool.{Bool, true, false, ◌&&◌, ◌||◌}
use native.Mathlib.Omega.{arith}

pub data Addr : Type 0 where
  zero_addr : Addr
  v4 : ℕ → ℕ → ℕ → ℕ → Addr
  v6 : Bytes → Bytes → Addr

abbrev pub addr_beq : Addr → Addr → Bool
addr_beq zero_addr zero_addr = true
addr_beq (v4 a b c d) (v4 x y z w) = nat_beq a x && nat_beq b y && nat_beq c z && nat_beq d w
addr_beq (v6 a s) (v6 b t) = bytes_beq a b && bytes_beq s t
addr_beq _ _ = false

pub addr_beq_iff : (a b : Addr) → (addr_beq a b ≡ true) ↔ (a ≡ b)
addr_beq_iff zero_addr zero_addr = ground arith
addr_beq_iff (v4 a b c d) (v4 x y z w) = ground arith
addr_beq_iff (v6 a s) (v6 b t) = ground (arith, bytes_beq_iff a b, bytes_beq_iff s t)
addr_beq_iff _ _ = ground arith

instance abbrev pub addr_eq : Eq Addr
addr_eq = record { same = addr_beq; same_iff = addr_beq_iff }

abbrev pub is4 : Addr → Bool
is4 (v4 a b c d) = true
is4 _ = false

-- The order of netip.Addr.Compare: by length, then by value, then by zone.
abbrev pub bytes_less : Bytes → Bytes → Bool
bytes_less [] [] = false
bytes_less [] (y ∷ ys) = true
bytes_less (x ∷ xs) [] = false
bytes_less (x ∷ xs) (y ∷ ys) = ltb x y || (nat_beq x y && bytes_less xs ys)

abbrev pub v4_number : ℕ → ℕ → ℕ → ℕ → ℕ
v4_number a b c d = a * 16777216 + b * 65536 + c * 256 + d

unfoldable pub addr_less : Addr → Addr → Bool
addr_less (v4 a b c d) (v4 x y z w) = ltb (v4_number a b c d) (v4_number x y z w)
addr_less (v6 a s) (v6 b t) = bytes_less a b || (bytes_beq a b && bytes_less s t)
addr_less zero_addr (v4 x y z w) = true
addr_less zero_addr (v6 b t) = true
addr_less (v4 a b c d) (v6 x s) = true
addr_less _ _ = false
