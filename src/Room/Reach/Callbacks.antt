-- ===== src/Room/Reach/Callbacks.antt =====
-- The callbacks of the pairing server keep a room sound (internal/room/room.go).
use opl_core.Prelude.{
  ℕ, Bool, not, ◌&&◌, ◌||◌, ◌==◌, nat_eq, bytes_eq, Bytes, Option, some, none, Result, ok, err,
  is_some, refl, if_either, Bool-cases, inl, inr,
}
use opl_core.Prelude.Dict.{lookup, insert, erase}
use opl_core.Prelude.Addr.{addr_eq}
use opl_core.Pairing.Server.{Assignment}
use opl_core.Pairing.Stats.{Device}
use opl_core.Lease.{
  Lease, Allocator, new, assign, remove, restore, remove_if_revision, full, invalid,
}
use opl_core.Lease
use opl_core.Lease.Distinct.{
  IsPool, assign-IsPool, remove-IsPool, restore-IsPool, remove_if_revision-IsPool,
}
use opl_core.Room.{
  Service, Outside, PendingPair, member_lease, call_remove, configured, enabled_member,
}
use opl_core.Room.Join.{
  assign_member, grant_member, granted, attempt, set_peer, mark_pairing, pair_pending,
  rollback_pair, undo_lease, is_configured, pair_psk, pairing_failed, failed_at, expire, expire_in,
  expire_lease, pairing_acknowledged, acknowledged_at, report_stats, report_from,
}
use opl_core.Room.Start.{created}
use opl_core.Room.Reach.Sound.{
  ArePooled, IsSound, on_allocator-ArePooled, is_some-on_allocator, Leaves, leaves, carry,
  with_pool, Leaves-if,
}

undo_lease-IsPool :
    (key : Bytes) (p : Option Lease) (a : Allocator) → IsPool a → IsPool (undo_lease key p a)
unfolding undo_lease
undo_lease-IsPool key none a v = remove-IsPool key a v
undo_lease-IsPool key (some item) a v = restore-IsPool item a v

rollback_pair-IsSound :
    (out : Outside) (key : Bytes) (p : PendingPair) (s : Service)
    → IsSound s
    → IsSound (rollback_pair out key p s)
unfolding rollback_pair
rollback_pair-IsSound out key p s v = record {
  pool =
      on_allocator-ArePooled (undo_lease key p.previous) (undo_lease-IsPool key p.previous)
        s.allocator v.pool;
  has_pool =
      λ on. rw (is_some-on_allocator (undo_lease key p.previous) s.allocator) (v.has_pool on);
}

module _ (out : Outside) (key : Bytes) where
  set_peer-IsSound :
      (psk : Bytes) (existing : Bool) (item : Lease) (a : Allocator) (s : Service)
      → IsPool a
      → IsSound (set_peer out key psk existing item a s)
  unfolding set_peer
  set_peer-IsSound psk existing item a s v = with_pool _ a refl v

  attempt-IsSound :
      (room_key : Bytes) (existing : Bool) (item : Lease) (created : Bool) (a : Allocator)
      (s : Service)
      → IsPool a
      → Leaves (attempt out key room_key existing item created a s)
  unfolding attempt
  attempt-IsSound room_key existing item created a s v =
      let peered =
        set_peer-IsSound (pair_psk existing room_key (lookup key s.member_psks) s.host_public key)
          existing item a s v in
      let marked : IsSound (
          mark_pairing key (
            set_peer out key
              (pair_psk existing room_key (lookup key s.member_psks) s.host_public key) existing
              item a s)) =
        record { pool = peered.pool; has_pool = peered.has_pool } in
      if_either Leaves _ (leaves _ _ (rollback_pair-IsSound out key (pair_pending key s) _ peered))
        (if_either Leaves _
          (leaves _ _ (rollback_pair-IsSound out key (pair_pending key s) _ marked))
          (leaves _ _ marked))

  granted-IsSound :
      (room_key : Bytes) (existing : Bool) (s : Service)
      (r : Allocator × Result Lease.Error (Lease × Bool))
      → IsSound s
      → IsPool r.0
      → Leaves (granted out key room_key existing s r)
  unfolding granted
  granted-IsSound room_key existing s (a, err full) v w = leaves _ _ v
  granted-IsSound room_key existing s (a, err invalid) v w = leaves _ _ v
  granted-IsSound room_key existing s (a, ok (item, created)) v w =
      attempt-IsSound room_key existing item created a s w

  grant_member-IsSound :
      (name room_key : Bytes) (existing : Bool) (s : Service) (o : Option Allocator)
      → IsSound s
      → ArePooled o
      → Leaves (grant_member out key name room_key existing s o)
  unfolding grant_member
  grant_member-IsSound name room_key existing s none v w = leaves _ _ v
  grant_member-IsSound name room_key existing s (some a) v w =
      granted-IsSound room_key existing s (assign key name a) v (assign-IsPool key name a w)

  pub assign_member-IsSound :
      (name room_key : Bytes) (existing : Bool) (s : Service)
      → IsSound s
      → Leaves (assign_member out key name room_key existing s)
  unfolding assign_member
  assign_member-IsSound name room_key existing s v =
      let granted = grant_member-IsSound name room_key existing s s.allocator v v.pool in
      let previous = member_lease s.allocator key in
      Leaves-if (not s.running) (leaves _ _ v) (
        Leaves-if (not s.join_enabled && not (is_some previous)) (leaves _ _ v) (
          Leaves-if (is_some (lookup key s.pending)) (leaves _ _ v) (
            Leaves-if
              (existing
                && (not (enabled_member previous) || not (is_some (lookup key s.member_psks))))
              (leaves _ _ v) granted)))

  failed_at-IsSound :
      (o : Option PendingPair) (a : Assignment) (s : Service)
      → IsSound s
      → IsSound (failed_at o out key a s)
  unfolding failed_at
  failed_at-IsSound none a s v = v
  failed_at-IsSound (some p) a s v =
      let dropped = carry s (record s { pending = erase key s.pending }) refl refl v in
      let back =
        rollback_pair-IsSound out key p (record s { pending = erase key s.pending }) dropped in
      let waits =
        carry s
          (record s {
            pending = erase key s.pending;
            timers = insert key (record { revision = a.revision }) s.timers;
          })
          refl refl v in
      elim (Bool-cases (p.token == a.token)) [
        | inr other ↦ rw other v
        | inl same ↦ elim (Bool-cases a.created) [
          | inl new ↦ rw (same, new) waits
          | inr old ↦ rw (same, old) back
        ]
      ]

  pub pairing_failed-IsSound :
      (a : Assignment) (s : Service) → IsSound s → IsSound (pairing_failed out key a s)
  unfolding pairing_failed
  pairing_failed-IsSound a s v = failed_at-IsSound (lookup key s.pending) a s v

  expire_lease-IsSound :
      (o : Option Lease) (revision : ℕ) (a : Allocator) (s : Service)
      → IsSound s
      → IsPool a
      → IsSound (expire_lease o out key revision a s)
  unfolding expire_lease
  expire_lease-IsSound none revision a s v w = v
  expire_lease-IsSound (some item) revision a s v w =
      let gone = remove_if_revision-IsPool key revision a w in
      let kept = carried gone in
      elim (Bool-cases
        (not (item.revision == revision) || is_configured (lookup key s.member_states))) [
          | inl stays ↦ rw stays v
          | inr goes ↦ elim (Bool-cases (remove_if_revision key revision a).1) [
            | inr no_lease ↦ rw (goes, no_lease) kept.0
            | inl removed ↦ rw (goes, removed) kept.1
          ]
        ]
    where
      carried :
          IsPool (remove_if_revision key revision a).0
          → IsSound (record s { allocator = some (remove_if_revision key revision a).0 })
            × IsSound (record s {
              allocator = some (remove_if_revision key revision a).0;
              member_states = erase key s.member_states;
              member_psks = erase key s.member_psks;
              calls = call_remove out.remove_peer key s.calls;
            })
      carried gone = (with_pool _ _ refl gone, with_pool _ _ refl gone)

  expire_in-IsSound :
      (o : Option Allocator) (revision : ℕ) (s : Service)
      → IsSound s
      → ArePooled o
      → IsSound (expire_in o out key revision s)
  unfolding expire_in
  expire_in-IsSound none revision s v w = v
  expire_in-IsSound (some a) revision s v w =
      search
        (if_either IsSound, v, expire_lease-IsSound (member_lease (some a) key) revision a s v w)

  pub expire-IsSound :
      (revision : ℕ) (s : Service) → IsSound s → IsSound (expire out key revision s)
  unfolding expire
  expire-IsSound revision s v =
      let timed = carry s (record s { timers = erase key s.timers }) refl refl v in
      expire_in-IsSound s.allocator revision (record s { timers = erase key s.timers }) timed v.pool

module _ (key : Bytes) where
  acknowledged_at-IsSound :
      (o : Option PendingPair) (a : Assignment) (s : Service)
      → IsSound s
      → IsSound (acknowledged_at o key a s)
  unfolding acknowledged_at
  acknowledged_at-IsSound none a s v = v
  acknowledged_at-IsSound (some p) a s v =
      let done =
        carry s
          (record s {
            pending = erase key s.pending;
            timers = erase key s.timers;
            member_states = insert key configured s.member_states;
          })
          refl refl v in
      search (if_either IsSound, v, done)

  pub acknowledged-IsSound :
      (a : Assignment) (s : Service) → IsSound s → IsSound (pairing_acknowledged key a s)
  unfolding pairing_acknowledged
  acknowledged-IsSound a s v =
      search (if_either IsSound, v, acknowledged_at-IsSound (lookup key s.pending) a s v)

  report_from-IsSound :
      (o : Option Lease) (d : Device) (s : Service) → IsSound s → IsSound (report_from o key d s)
  unfolding report_from
  report_from-IsSound none d s v = v
  report_from-IsSound (some item) d s v =
      let noted =
        carry s
          (record s {
            member_uids = insert key d.uid s.member_uids;
            reported_stats =
                insert key
                  (record {
                    last_handshake = none;
                    rx_bytes = d.rx_bytes;
                    tx_bytes = d.tx_bytes;
                    latency_ms = d.latency_ms;
                  })
                  s.reported_stats;
          })
          refl refl v in
      search (if_either IsSound, v, noted)

  pub report_stats-IsSound : (d : Device) (s : Service) → IsSound s → IsSound (report_stats key d s)
  unfolding report_stats
  report_stats-IsSound d s v = report_from-IsSound (member_lease s.allocator key) d s v
