-- ===== src/Codec/Crc32.antt =====
-- hash/crc32 with the IEEE polynomial, bit by bit.
use Prim.Native.Nat.{bit_xor}
use opl_core.Prelude.{
  ℕ, zero, suc, ◌/◌, ◌%◌, ◌≡◌, refl, [], ◌∷◌, Bytes, if◌then◌else◌, ◌==◌, nat_eq,
}

shift_bits : ℕ → ℕ → ℕ
shift_bits zero crc = crc
shift_bits (suc n) crc =
    shift_bits n (if crc % 2 == 1 then bit_xor (crc / 2) 0xedb88320 else crc / 2)

update : ℕ → Bytes → ℕ
unfolding shift_bits
update crc [] = crc
update crc (b ∷ bs) = update (shift_bits 8 (bit_xor crc b)) bs

unfoldable pub checksum_ieee : Bytes → ℕ
unfolding update
checksum_ieee bs = bit_xor (update 0xffffffff bs) 0xffffffff % 4294967296

-- the check value of the polynomial, for "123456789"
check_value : checksum_ieee (49 ∷ 50 ∷ 51 ∷ 52 ∷ 53 ∷ 54 ∷ 55 ∷ 56 ∷ 57 ∷ []) ≡ 0xcbf43926
unfolding checksum_ieee
check_value = refl
