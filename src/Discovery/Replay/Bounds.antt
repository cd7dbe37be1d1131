-- ===== src/Discovery/Replay/Bounds.antt =====
-- The window keeps at most `max` frames in mind (internal/discovery/frame.go).
use opl_core.Prelude.{
  ℕ, ◌+◌, ◌≤◌, ◌<◌, ◌≡◌, ◌⊎◌, inl, inr, true, false, [], ◌∷◌, arith, length, ◌==◌, ==_iff,
  if◌then◌else◌, ltb, ◌||◌, nat_eq, refl, Bool,
}
use opl_core.Prelude.Addr.{Addr}
use opl_core.Prelude.Dict.{Dict, insert, erase}
use opl_core.Discovery.Frame.{as4}
use opl_core.Discovery.Replay.{
  ReplayKey, ReplayWindow, key_eq, purge, oldest_from, make_room, accept, zero_key, new_window,
}

pub length-purge : (ttl now : ℕ) (m : Dict ReplayKey ℕ) → length (purge ttl now m) ≤ length m
unfolding purge
length-purge ttl now [] = omega arith
length-purge ttl now ((k, t) ∷ m) = ground (arith, length-purge ttl now m)

pub length-insert :
    (k : ReplayKey) (t : ℕ) (m : Dict ReplayKey ℕ) → length (insert k t m) ≤ length m + 1
unfolding insert
length-insert k t [] = omega arith
length-insert k t ((j, u) ∷ m) = ground (arith, length-insert k t m)

length-erase : (k : ReplayKey) (m : Dict ReplayKey ℕ) → length (erase k m) ≤ length m
unfolding erase
length-erase k [] = omega arith
length-erase k ((j, u) ∷ m) = ground (arith, length-erase k m)

-- The key is that of an entry.
abbrev pub Has : ReplayKey → Dict ReplayKey ℕ → Type 0
Has k [] = ⊥
Has k ((j, u) ∷ m) = (k ≡ j) ⊎ Has k m

length-erase_lt : (k : ReplayKey) (m : Dict ReplayKey ℕ) → Has k m → length (erase k m) < length m
unfolding erase
length-erase_lt k [] h = absurd h
length-erase_lt k ((j, u) ∷ m) (inl e) = ground (arith, length-erase k m, ==_iff j k)
length-erase_lt k ((j, u) ∷ m) (inr h) = ground (arith, length-erase_lt k m h, length-erase k m)

either :
    (older : Bool) (m : Dict ReplayKey ℕ) (r j k : ReplayKey)
    → (r ≡ (if older then j else k)) ⊎ Has r m
    → (r ≡ k) ⊎ (r ≡ j) ⊎ Has r m
either true m r j k (inl e) = inr (inl e)
either false m r j k (inl e) = inl e
either b m r j k (inr h) = inr (inr h)

-- The search returns its start or the key of an entry.
oldest_from-Has :
    (k : ReplayKey) (t : ℕ) (m : Dict ReplayKey ℕ)
    → (oldest_from k t m ≡ k) ⊎ Has (oldest_from k t m) m
unfolding oldest_from
oldest_from-Has k t [] = inl refl
oldest_from-Has k t ((j, u) ∷ m) =
    let older = t == 0 || ltb u t in
    either older m _ j k (oldest_from-Has (if older then j else k) (if older then u else t) m)

oldest-Has :
    (j : ReplayKey) (u : ℕ) (m : Dict ReplayKey ℕ)
    → Has (oldest_from zero_key 0 ((j, u) ∷ m)) ((j, u) ∷ m)
unfolding oldest_from
oldest-Has j u m = oldest_from-Has j u m

length-make_room :
    (max : ℕ) (m : Dict ReplayKey ℕ) → 0 < max → length m ≤ max → length (make_room max m) < max
unfolding make_room
length-make_room max [] pos h = ground arith
length-make_room max ((j, u) ∷ m) pos h =
    ground
      (arith, length-erase_lt (oldest_from zero_key 0 ((j, u) ∷ m)) ((j, u) ∷ m) (oldest-Has j u m))

-- What a window satisfies between two calls.
pub record IsBounded (w : ReplayWindow) : Type 0 where
  pub room : 0 < w.max
  pub within : length w.entries ≤ w.max

pub new_window-IsBounded : (max ttl : ℕ) → IsBounded (new_window max ttl)
unfolding new_window
new_window-IsBounded max ttl = ground arith

-- Whatever is offered to the window, it holds at most `max` entries afterwards.
pub accept-IsBounded :
    (sender : Addr) (sequence now : ℕ) (w : ReplayWindow)
    → IsBounded w
    → IsBounded (accept sender sequence now w).0
unfolding accept
accept-IsBounded sender sequence now w v =
    let kept = purge w.ttl now w.entries in
    let shorter = length-purge w.ttl now w.entries in
    let made = length-make_room w.max kept v.room (omega (arith, v.within, shorter)) in
    ground (
      arith,
      length-insert (record { sender = as4 sender; sequence = sequence }) now
          (make_room w.max kept),
    )
