-- ===== src/Discovery/Replay/Once.antt =====
-- A frame passes the window once (internal/discovery/frame.go).
use opl_core.Prelude.{
  ℕ, suc, ◌+◌, ◌≤◌, ◌≡◌, true, false, not, leb, length, [], ◌∷◌, arith, some, ok, err, is_some,
  ==_iff, Bool-cases, Option-cases, inl, inr,
}
use opl_core.Prelude.Addr.{Addr}
use opl_core.Prelude.Dict.{Dict, lookup, lookup-insert, lookup-insert_self}
use opl_core.Discovery.Frame.{duplicate, valid_sender, as4}
use opl_core.Discovery.Replay.Bounds.{length-purge, length-insert}
use opl_core.Discovery.Replay.{ReplayKey, ReplayWindow, key_eq, purge, make_room, accept}

-- A fresh entry survives the purge.
lookup-purge :
    (ttl now : ℕ) (k : ReplayKey) (m : Dict ReplayKey ℕ) {seen : ℕ}
    → lookup k m ≡ some seen
    → now ≤ seen + ttl
    → is_some (lookup k (purge ttl now m)) ≡ true
unfolding purge lookup
lookup-purge ttl now k [] h fresh = ground arith
lookup-purge ttl now k ((j, u) ∷ m) {seen} h fresh =
    ground (arith, lookup-purge ttl now k m {seen = seen})

pub accepted :
    (sender : Addr) (sequence now : ℕ) (w : ReplayWindow)
    → (accept sender sequence now w).1 ≡ ok tt
    → (valid_sender sender ≡ true)
      × (lookup
            (record { sender = as4 sender; sequence = sequence })
            (accept sender sequence now w).0.entries
          ≡ some now)
      × ((accept sender sequence now w).0.ttl ≡ w.ttl)
unfolding accept
accepted sender sequence now w h = ground (
  arith,
  lookup-insert_self (record { sender = as4 sender; sequence = sequence }) now
      (make_room w.max (purge w.ttl now w.entries)),
)

pub refused :
    (sender : Addr) (sequence again : ℕ) (w : ReplayWindow) {seen : ℕ}
    → valid_sender sender ≡ true
    → lookup (record { sender = as4 sender; sequence = sequence }) w.entries ≡ some seen
    → again ≤ seen + w.ttl
    → (accept sender sequence again w).1 ≡ err duplicate
unfolding accept
refused sender sequence again w {seen} v p soon = ground (
  arith,
  lookup-purge w.ttl again (record { sender = as4 sender; sequence = sequence }) w.entries p soon,
)

-- A frame that was accepted is refused as a duplicate if it comes again at once after it, no later
-- than the window's time to live.
pub accept-accept :
    (sender : Addr) (sequence now again : ℕ) (w : ReplayWindow)
    → (accept sender sequence now w).1 ≡ ok tt
    → again ≤ now + w.ttl
    → (accept sender sequence again (accept sender sequence now w).0).1 ≡ err duplicate
accept-accept sender sequence now again w h soon =
    let (valid, stored, same) = accepted sender sequence now w h in
    refused sender sequence again (accept sender sequence now w).0 valid stored (rw same soon)

lookup-purge_fresh :
    (ttl now : ℕ) (k : ReplayKey) (m : Dict ReplayKey ℕ) {seen : ℕ}
    → lookup k m ≡ some seen
    → now ≤ seen + ttl
    → lookup k (purge ttl now m) ≡ some seen
unfolding purge lookup
lookup-purge_fresh ttl now k [] h fresh = ground arith
lookup-purge_fresh ttl now k ((j, u) ∷ m) {seen} h fresh =
    ground (arith, lookup-purge_fresh ttl now k m {seen = seen}, ==_iff j k)

-- The window holds a frame that it took at `seen`, and can take `spare` more before it is full.
pub record Holds (key : ReplayKey) (seen ttl spare : ℕ) (w : ReplayWindow) : Type 0 where
  pub held : lookup key w.entries ≡ some seen
  pub lives : w.ttl ≡ ttl
  pub spare_room : length w.entries + spare ≤ w.max

-- Another frame, at a time at which the one held is not stale, leaves it in the window.
pub accept-Holds :
    (sender : Addr) (sequence t : ℕ) (w : ReplayWindow) {key : ReplayKey} {seen ttl spare : ℕ}
    → Holds key seen ttl (suc spare) w
    → t ≤ seen + ttl
    → Holds key seen ttl spare (accept sender sequence t w).0
unfolding accept make_room
accept-Holds sender sequence t w {key} {seen} {ttl} {spare} v soon =
    let other : ReplayKey = record { sender = as4 sender; sequence = sequence } in
    let kept = purge w.ttl t w.entries in
    let found = lookup-purge_fresh w.ttl t key w.entries v.held (omega (arith, v.lives)) in
    let small = length-purge w.ttl t w.entries in
    let room : leb w.max (length kept) ≡ false = ground (arith, v.spare_room) in
    elim (Bool-cases (not (valid_sender sender))) [
      | inl bad ↦
          rw bad
            (record { held = v.held; lives = v.lives; spare_room = omega (arith, v.spare_room) })
      | inr fine ↦ elim (Option-cases (lookup other kept)) [
        | inr (u, known) ↦
            rw (fine, known)
              (record { held = found; lives = v.lives; spare_room = omega (arith, v.spare_room) })
        | inl fresh ↦
            rw (fine, fresh, room)
              (record {
                held = ground (arith, lookup-insert other key t kept, ==_iff other key);
                lives = v.lives;
                spare_room = omega (arith, v.spare_room, length-insert other t kept);
              })
      ]
    ]
