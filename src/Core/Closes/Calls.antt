-- ===== src/Core/Closes/Calls.antt =====
-- The calls that left the runtime (internal/core/runtime.go).
use opl_core.Prelude.{◌≡◌, List, ◌∷◌, ◌⊎◌, inl, inr}
use opl_core.Core.{Call}

-- The call was made.
pub data IsCalled (c : Call) : List Call → Type 0 where
  last : {d : Call} {cs : List Call} → c ≡ d → IsCalled c (d ∷ cs)
  earlier : {d : Call} {cs : List Call} → IsCalled c cs → IsCalled c (d ∷ cs)

pub IsCalled-cases : {c d : Call} {cs : List Call} → IsCalled c (d ∷ cs) → (c ≡ d) ⊎ IsCalled c cs
IsCalled-cases (last e) = inl e
IsCalled-cases (earlier h) = inr h
