-- ===== src/Room/Join.antt =====
-- How a member joins (internal/room/room.go): the callbacks that the room hands to its pairing server.
-- A running room has an allocator; where the source would read a nil one, the model answers with an
-- error.
pub mod Outcome
pub mod Rollback
pub mod Undo
use opl_core.Prelude.{
  ℕ, ◌+◌, ◌≡◌, Bool, true, false, not, ◌&&◌, ◌||◌, List, [], ◌∷◌, if◌then◌else◌, ◌==◌, nat_eq,
  bytes_eq, Bytes, Option, some, none, Result, ok, err, is_some,
}
use opl_core.Prelude.Dict.{lookup, insert, erase}
use opl_core.Prelude.Addr.{addr_eq}
use opl_core.Prelude.Binary.{zeroes}
use opl_core.Pairing.Messages.{join_paused, member_disabled, room_full, internal}
use opl_core.Pairing.Messages
use opl_core.Pairing.Auth.{derive_psk}
use opl_core.Pairing.Stats.{Device}
use opl_core.Pairing.Server.{Assignment, ServerConfig}
use opl_core.Lease.{
  Lease, Allocator, assign, remove, restore, remove_if_revision, u64, full, invalid,
}
use opl_core.Lease
use opl_core.Room.{
  Service, Outside, PendingPair, Call, MemberState, pairing, configured, member_lease, put_back,
  apply_ok, call_apply, call_remove, saved, on_allocator, blocked_uid, known_member,
  member_auth_key, enabled_member,
}

-- the lease that was there before, or none
unfoldable pub undo_lease : Bytes → Option Lease → Allocator → Allocator
undo_lease key none a = (remove key a).0
undo_lease key (some previous) a = (restore previous a).0

unfoldable pub rollback_calls :
    Outside → Bytes → Option Lease → Option Bytes → List Call → List Call
rollback_calls out key (some previous) (some psk) calls =
    if is_some out.apply_peer
    then call_apply out.apply_peer previous psk calls
    else call_remove out.remove_peer key calls
rollback_calls out key _ _ calls = call_remove out.remove_peer key calls

unfoldable pub rollback_pair : Outside → Bytes → PendingPair → Service → Service
unfolding undo_lease rollback_calls
rollback_pair out key p s = record s {
  pending = erase key s.pending;
  allocator = on_allocator (undo_lease key p.previous) s.allocator;
  member_psks = put_back key p.previous_psk s.member_psks;
  member_states = put_back key p.state s.member_states;
  calls = rollback_calls out key p.previous p.previous_psk s.calls;
}

-- the key of a peer: the one it had, or the one derived from the room key
unfoldable pub pair_psk : Bool → Bytes → Option Bytes → Bytes → Bytes → Bytes
pair_psk false room_key previous host_public key = derive_psk room_key host_public key
pair_psk true room_key none host_public key = zeroes 32
pair_psk true room_key (some psk) host_public key = psk

-- what is kept of a member while it pairs
unfoldable pub pair_pending : Bytes → Service → PendingPair
unfolding member_lease
pair_pending key s = record {
  token = u64 (s.pair_attempt + 1);
  previous = member_lease s.allocator key;
  previous_psk = lookup key s.member_psks;
  state = lookup key s.member_states;
}

-- The attempt is counted and its peer set.
unfoldable pub set_peer : Outside → Bytes → Bytes → Bool → Lease → Allocator → Service → Service
unfolding pair_pending
set_peer out key psk existing_auth item a s = record s {
  allocator = some a;
  pair_attempt = u64 (s.pair_attempt + 1);
  pending = insert key (pair_pending key s) s.pending;
  member_psks = insert key psk s.member_psks;
  calls = if existing_auth then s.calls else call_apply out.apply_peer item psk s.calls;
}

abbrev pub mark_pairing : Bytes → Service → Service
mark_pairing key s = record s { member_states = insert key pairing s.member_states }

-- The part of `assign` behind the allocator: the attempt, the peer, the state, and saving it.
unfoldable pub attempt :
    Outside
    → Bytes
    → Bytes
    → Bool
    → Lease
    → Bool
    → Allocator
    → Service
    → Service × Result Messages.Error Assignment
unfolding rollback_pair pair_psk set_peer pair_pending
attempt out key room_key existing_auth item created a s =
    let psk = pair_psk existing_auth room_key (lookup key s.member_psks) s.host_public key in
    let peered = set_peer out key psk existing_auth item a s in
    if not existing_auth && not (apply_ok out.apply_peer item psk)
    then (rollback_pair out key (pair_pending key s) peered, err internal)
    else if not (saved out (mark_pairing key peered))
    then (rollback_pair out key (pair_pending key s) (mark_pairing key peered), err internal)
    else (
      mark_pairing key peered,
      ok (record {
        ip = item.ip;
        revision = item.revision;
        created = created;
        token = u64 (s.pair_attempt + 1);
      }),
    )

unfoldable pub granted :
    Outside
    → Bytes
    → Bytes
    → Bool
    → Service
    → Allocator × Result Lease.Error (Lease × Bool)
    → Service × Result Messages.Error Assignment
unfolding attempt
granted out key room_key existing_auth s (a, err full) = (s, err room_full)
granted out key room_key existing_auth s (a, err invalid) = (s, err internal)
granted out key room_key existing_auth s (a, ok (item, created)) =
    attempt out key room_key existing_auth item created a s

unfoldable pub grant_member :
    Outside
    → Bytes
    → Bytes
    → Bytes
    → Bool
    → Service
    → Option Allocator
    → Service × Result Messages.Error Assignment
unfolding granted
grant_member out key name room_key existing_auth s none = (s, err internal)
grant_member out key name room_key existing_auth s (some a) =
    granted out key room_key existing_auth s (assign key name a)

unfoldable pub assign_member :
    Outside → Bytes → Bytes → Bytes → Bool → Service → Service × Result Messages.Error Assignment
unfolding grant_member member_lease
assign_member out key name room_key existing_auth s =
    let previous = member_lease s.allocator key in
    if not s.running
    then (s, err join_paused)
    else if not s.join_enabled && not (is_some previous)
    then (s, err join_paused)
    else if is_some (lookup key s.pending)
    then (s, err internal)
    else if existing_auth
        && (not (enabled_member previous) || not (is_some (lookup key s.member_psks)))
    then (s, err member_disabled)
    else grant_member out key name room_key existing_auth s s.allocator

unfoldable pub failed_at : Option PendingPair → Outside → Bytes → Assignment → Service → Service
unfolding rollback_pair
failed_at none out key assignment s = s
failed_at (some p) out key assignment s =
    let dropped : Service = record s { pending = erase key s.pending } in
    if not (p.token == assignment.token)
    then s
    else if not assignment.created
    then rollback_pair out key p dropped
    else record dropped { timers = insert key (record { revision = assignment.revision }) s.timers }

-- `pairingFailed`; saving the state behind a rollback changes nothing here, its error is dropped
unfoldable pub pairing_failed : Outside → Bytes → Assignment → Service → Service
unfolding failed_at
pairing_failed out key assignment s = failed_at (lookup key s.pending) out key assignment s

abbrev pub is_configured : Option MemberState → Bool
is_configured (some configured) = true
is_configured _ = false

unfoldable pub expire_lease : Option Lease → Outside → Bytes → ℕ → Allocator → Service → Service
expire_lease none out key revision a s = s
expire_lease (some item) out key revision a s =
    let gone = remove_if_revision key revision a in
    if not (item.revision == revision) || is_configured (lookup key s.member_states)
    then s
    else if not gone.1
    then record s { allocator = some gone.0 }
    else record s {
      allocator = some gone.0;
      member_states = erase key s.member_states;
      member_psks = erase key s.member_psks;
      calls = call_remove out.remove_peer key s.calls;
    }

unfoldable pub expire_in : Option Allocator → Outside → Bytes → ℕ → Service → Service
unfolding expire_lease member_lease
expire_in none out key revision s = s
expire_in (some a) out key revision s =
    if not s.running then s else expire_lease (member_lease (some a) key) out key revision a s

-- The timer of a lease that was never acknowledged fires.
unfoldable pub expire : Outside → Bytes → ℕ → Service → Service
unfolding expire_in
expire out key revision s =
    expire_in s.allocator out key revision (record s { timers = erase key s.timers })

unfoldable pub acknowledged_at : Option PendingPair → Bytes → Assignment → Service → Service
acknowledged_at none key assignment s = s
acknowledged_at (some p) key assignment s =
    if not (p.token == assignment.token) then s else record s {
      pending = erase key s.pending;
      timers = erase key s.timers;
      member_states = insert key configured s.member_states;
    }

unfoldable pub pairing_acknowledged : Bytes → Assignment → Service → Service
unfolding acknowledged_at
pairing_acknowledged key assignment s =
    if not s.running || not (is_some s.allocator)
    then s
    else acknowledged_at (lookup key s.pending) key assignment s

unfoldable pub report_from : Option Lease → Bytes → Device → Service → Service
report_from none key device s = s
report_from (some item) key device s = if not (item.ip == device.virtual_ip) then s else record s {
  member_uids = insert key device.uid s.member_uids;
  reported_stats =
      insert key
        (record {
          last_handshake = none;
          rx_bytes = device.rx_bytes;
          tx_bytes = device.tx_bytes;
          latency_ms = device.latency_ms;
        })
        s.reported_stats;
}

unfoldable pub report_stats : Bytes → Device → Service → Service
unfolding report_from member_lease
report_stats key device s = report_from (member_lease s.allocator key) key device s

-- The callbacks, as `listenLocked` hands them to the pairing server.
unfoldable pub server_config : Outside → Bytes → ℕ → ℕ → Device → ServerConfig Service
unfolding assign_member pairing_failed pairing_acknowledged report_stats blocked_uid known_member
    member_auth_key
server_config out host_public wire_guard_port relay_port host_device = record {
  host_public_key = host_public;
  wire_guard_port = wire_guard_port;
  discovery_relay_port = relay_port;
  join_enabled = λ s. s.running && s.join_enabled;
  blocked_uid = some blocked_uid;
  known_member = some known_member;
  member_auth_key = some member_auth_key;
  assign = assign_member out;
  pairing_failed = some (pairing_failed out);
  pairing_acknowledged = some pairing_acknowledged;
  report_stats = some report_stats;
  host_device = host_device;
}
