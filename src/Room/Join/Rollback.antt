-- ===== src/Room/Join/Rollback.antt =====
-- A pairing that fails leaves no trace (internal/room/room.go, `assign` and `pairingFailed`).
use opl_core.Prelude.{
  ◌+◌, ◌<◌, ◌≤◌, ◌≡◌, Bool, true, false, not, ◌||◌, ◌==◌, ==_self, nat_eq, bytes_eq, Bytes, none,
  ok, err, is_some, arith, refl, Bool-cases, inl, inr,
}
use opl_core.Prelude.Dict.{lookup, erase}
use opl_core.Pairing.Messages.{room_full, internal}
use opl_core.Pairing.Messages
use opl_core.Pairing.Server.{Assignment}
use opl_core.Lease.{u64}
use opl_core.Room.{Service, Outside}
use opl_core.Room.Reach.Sound.{IsSound}
use opl_core.Room.Join.{
  pair_pending, assign_member, failed_at, pairing_failed, pairing_acknowledged, acknowledged_at,
}
use opl_core.Room.Join.Outcome.{
  Same, IsNumbered, rollback-Same, dropped-Apart, assign_member-Outcome, Outcome-error, Outcome-ok,
}

-- A call of `assign` that fails, wherever it fails, leaves every member as it was: the peers' keys, the
-- states, the open pairings, the leases with the octets in use, and the room's switches. The room is
-- sound, and a lease that the key had has a revision other than 0, as every lease of a saved room has.
pub assign_member-error_restores :
    (out : Outside) (key name room_key : Bytes) (existing : Bool) (s : Service) {s' : Service}
    {e : Messages.Error}
    → IsSound s
    → IsNumbered key s
    → assign_member out key name room_key existing s ≡ (s', err e)
    → Same s s'
assign_member-error_restores out key name room_key existing s sound numbered h =
    Outcome-error (assign_member-Outcome out key name room_key existing s) h sound numbered

-- A pairing of a known member, with no pairing open for its key, that is then reported failed leaves
-- every member as it was before `assign`, which may have stored a new name: the peers' keys, the
-- states, the open pairings, the leases with the octets in use, and the room's switches. The room is
-- sound, and the member's lease has a revision other than 0.
pub pairing_failed-assign_member :
    (out : Outside) (key name room_key : Bytes) (existing : Bool) (s : Service) {s' : Service}
    {g : Assignment}
    → IsSound s
    → IsNumbered key s
    → lookup key s.pending ≡ none
    → assign_member out key name room_key existing s ≡ (s', ok g)
    → g.created ≡ false
    → Same s (pairing_failed out key g s')
unfolding pairing_failed failed_at
pairing_failed-assign_member out key name room_key existing s {s'} {g} sound numbered free h old =
    let (apart, open_pair, token) =
      Outcome-ok (assign_member-Outcome out key name room_key existing s) h in
    let same_token : ((pair_pending key s).token == g.token) ≡ true =
      unfold pair_pending in (rw token (==_self (u64 (s.pair_attempt + 1)))) in
    rw (open_pair, same_token, old)
      (rollback-Same out key s (record s' { pending = erase key s'.pending }) free
        (dropped-Apart key s s' apart) sound numbered)

-- While an attempt is open, a late report about an earlier attempt, of failure or of success, does
-- nothing; attempts are counted below 2 ^ 64.
pub stale_report :
    (out : Outside) (key name room_key : Bytes) (existing : Bool) (s : Service) {s' : Service}
    {g : Assignment} (old : Assignment)
    → s.pair_attempt + 1 < 18446744073709551616
    → old.token ≤ s.pair_attempt
    → assign_member out key name room_key existing s ≡ (s', ok g)
    → (pairing_failed out key old s' ≡ s') × (pairing_acknowledged key old s' ≡ s')
unfolding pairing_failed failed_at pairing_acknowledged acknowledged_at
stale_report out key name room_key existing s {s'} {g} old small earlier h =
    let (apart, open_pair, token) =
      Outcome-ok (assign_member-Outcome out key name room_key existing s) h in
    let other : ((pair_pending key s).token == old.token) ≡ false =
      unfold pair_pending in ground arith in
    (
      rw (open_pair, other) refl,
      elim (Bool-cases (not s'.running || not (is_some s'.allocator))) [
        | inl off ↦ rw off refl
        | inr on ↦ rw (on, open_pair, other) refl
      ],
    )
