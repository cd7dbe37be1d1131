-- ===== src/Discovery/Replay.antt =====
-- The window that drops repeated frames (internal/discovery/frame.go, `ReplayWindow`). A time is a
-- number of nanoseconds since Go's zero time, so `IsZero` tests for 0. A map's iteration order is
-- the list's; it decides only which of two equally old entries is evicted.
pub mod Bounds
pub mod Once
use opl_core.Prelude.{
  ℕ, ◌+◌, ◌≡◌, ◌↔◌, Bool, true, false, not, ◌&&◌, ◌||◌, List, [], ◌∷◌, Option, some, none, ltb, leb,
  is_some, arith, if◌then◌else◌, ◌==◌, Eq, nat_eq, bytes_eq, bytes_beq, bytes_beq_iff, nat_beq,
  Bytes, length, Result, ok, err,
}
use opl_core.Prelude.Addr.{Addr, v4}
use opl_core.Prelude.Dict.{Dict, lookup, insert, erase}
use opl_core.Discovery.Frame.{Error, frame, duplicate, valid_sender, as4}

pub record ReplayKey : Type 0 where
  pub sender : Bytes
  pub sequence : ℕ

abbrev pub key_beq : ReplayKey → ReplayKey → Bool
key_beq x y = bytes_beq x.sender y.sender && nat_beq x.sequence y.sequence

pub key_beq_iff : (x y : ReplayKey) → (key_beq x y ≡ true) ↔ (x ≡ y)
key_beq_iff x y = ground (arith, bytes_beq_iff x.sender y.sender)

instance abbrev pub key_eq : Eq ReplayKey
key_eq = record { same = key_beq; same_iff = key_beq_iff }

pub record ReplayWindow : Type 0 where
  pub entries : Dict ReplayKey ℕ
  pub max : ℕ
  pub ttl : ℕ

-- five seconds
abbrev pub default_ttl : ℕ
default_ttl = 5000000000

-- A negative argument is one below 1, or not positive, as 0 is.
unfoldable pub new_window : ℕ → ℕ → ReplayWindow
new_window max ttl = record {
  entries = [];
  max = if ltb max 1 then 1024 else max;
  ttl = if ttl == 0 then default_ttl else ttl;
}

-- `seen.Before(now.Add(-ttl))`
abbrev pub stale : ℕ → ℕ → ℕ → Bool
stale ttl now seen = ltb (seen + ttl) now

unfoldable pub purge : ℕ → ℕ → Dict ReplayKey ℕ → Dict ReplayKey ℕ
purge ttl now [] = []
purge ttl now ((key, seen) ∷ rest) =
    let kept = purge ttl now rest in if stale ttl now seen then kept else (key, seen) ∷ kept

-- the loop that looks for the oldest entry
unfoldable pub oldest_from : ReplayKey → ℕ → Dict ReplayKey ℕ → ReplayKey
oldest_from oldest_key oldest [] = oldest_key
oldest_from oldest_key oldest ((candidate, seen) ∷ rest) =
    let older = oldest == 0 || ltb seen oldest in
    oldest_from (if older then candidate else oldest_key) (if older then seen else oldest) rest

abbrev pub zero_key : ReplayKey
zero_key = record { sender = 0 ∷ 0 ∷ 0 ∷ 0 ∷ []; sequence = 0 }

unfoldable pub make_room : ℕ → Dict ReplayKey ℕ → Dict ReplayKey ℕ
unfolding oldest_from
make_room max entries =
    if leb max (length entries) then erase (oldest_from zero_key 0 entries) entries else entries

unfoldable pub accept : Addr → ℕ → ℕ → ReplayWindow → ReplayWindow × Result Error (Unit {0})
accept sender sequence now w =
    if not (valid_sender sender)
    then (w, err frame)
    else let entries = purge w.ttl now w.entries in
      let key : ReplayKey = record { sender = as4 sender; sequence = sequence } in
      if is_some (lookup key entries)
      then (record w { entries = entries }, err duplicate)
      else (record w { entries = insert key now (make_room w.max entries) }, ok tt)
