-- ===== src/Discovery/Tun/Checksum.antt =====
-- The IPv4 header checksum (internal/discovery/tun.go).
use opl_core.Prelude.{ℕ, ◌<◌, arith}
use opl_core.Discovery.Tun.{fold_carry}

-- Three rounds bring any uint32 down to 16 bits, so the loop ends by its test.
fold_carry-lt : (sum : ℕ) → sum < 4294967296 → fold_carry 3 sum < 65536
unfolding fold_carry
fold_carry-lt sum h = ground arith
