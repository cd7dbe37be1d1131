-- ===== src/Lease/Search.antt =====
-- The search of `Assign` for a free octet (internal/lease/lease.go).
use opl_core.Prelude.{
  ℕ, zero, suc, ◌+◌, ◌≤◌, ◌<◌, ◌≡◌, true, false, some, none, arith, Bool, Bool-cases, inl, inr,
}
use opl_core.Lease.{first_free}

-- The octet found is free, in range, and the lowest such.
pub record IsLowest (rounds from : ℕ) (used : ℕ → Bool) (o : ℕ) : Type 0 where
  pub above : from ≤ o
  pub below : o < from + rounds
  pub free : used o ≡ false
  pub lower_used : (c : ℕ) → from ≤ c → c < o → used c ≡ true

pub first_free-IsLowest :
    (rounds from o : ℕ) (used : ℕ → Bool)
    → first_free rounds from used ≡ some o
    → IsLowest rounds from used o
unfolding first_free
first_free-IsLowest zero from o used h = ground arith
first_free-IsLowest (suc rounds) from o used h = elim (Bool-cases (used from)) [
  | inl taken ↦
      let ih = first_free-IsLowest rounds (from + 1) o used (ground arith) in
      record {
        above = ground arith;
        below = ground arith;
        free = ih.free;
        lower_used = λ c lo hi. ground (arith, ih.lower_used c);
      }
  | inr free ↦ ground arith
]

pub first_free-none :
    (rounds from : ℕ) (used : ℕ → Bool)
    → first_free rounds from used ≡ none
    → (c : ℕ) → from ≤ c
    → c < from + rounds
    → used c ≡ true
unfolding first_free
first_free-none zero from used h c lo hi = absurd (omega arith)
first_free-none (suc rounds) from used h c lo hi = ground (
  arith,
  first_free-none rounds (from + 1) used,
  first_free-none rounds (from + 1) used (ground arith) c,
)
