-- ===== src/Room.antt =====
-- The room of a host (internal/room/room.go): its state, and what its methods share. Every method
-- holds the mutex, so each is one step. What the methods do outside is `Outside`: whether a peer could
-- be set or removed (`none` for a callback that is nil), and whether the state, or the secret alone,
-- could be saved. `calls` is no field of the source: it lists the calls that leave the room, the last one first.
pub mod Find
pub mod Join
pub mod Members
pub mod Start
pub mod Stats
pub mod Reach
mod Tests
use opl_core.Prelude.{
  ℕ, ◌+◌, ◌≡◌, Bool, true, false, not, ◌&&◌, ◌||◌, List, [], ◌∷◌, if◌then◌else◌, ◌==◌, nat_eq,
  bytes_eq, Bytes, length, Option, some, none, Result, ok, err, is_some, all, leb,
}
use opl_core.Prelude.Dict.{Dict, lookup, insert, erase}
use opl_core.Prelude.Addr.{Addr}
use opl_core.Lease.{Lease, Allocator}
use opl_core.Lease

pub data Error : Type 0 where
  running stopped no_member bad_input outside full : Error

pub data MemberState : Type 0 where
  offline pairing configured online : MemberState

pub record NetworkConfig : Type 0 where
  pub private_key : Bytes
  pub public_key : Bytes
  pub local_ip : Addr
  pub listen_port : ℕ
  pub relay_port : ℕ

-- The calls of the four callbacks, and those that start, change and close the pairing server.
pub data Call : Type 0 where
  applied : Lease → Bytes → Call
  removed : Bytes → Call
  server_drops : Bytes → Call
  server_key : Bytes → Call
  network_started : NetworkConfig → Call
  network_stopped server_started server_closed : Call

pub record MemberStats : Type 0 where
  pub last_handshake : Option ℕ
  pub rx_bytes : ℕ
  pub tx_bytes : ℕ
  pub latency_ms : ℕ

pub record PendingPair : Type 0 where
  pub token : ℕ
  pub previous : Option Lease
  pub previous_psk : Option Bytes
  pub state : Option MemberState

-- what the closure of a timer holds
pub record Expiry : Type 0 where
  pub revision : ℕ

-- The paths, the default host id and the callbacks, which no method changes, are not fields here.
pub record Service : Type 0 where
  pub running : Bool
  pub fixed_room : Bool
  pub fixed_host : Bool
  pub join_enabled : Bool
  pub host_uid : Bytes
  pub pair_port : ℕ
  pub wg_port : ℕ
  pub relay_port : ℕ
  pub room_id : Bytes
  pub room_key : Bytes
  pub host_private : Bytes
  pub host_public : Bytes
  pub allocator : Option Allocator
  pub member_states : Dict Bytes MemberState
  pub member_psks : Dict Bytes Bytes
  pub blocked_uids : Dict Bytes Bool
  pub runtime_stats : Dict Bytes MemberStats
  pub reported_stats : Dict Bytes MemberStats
  pub member_uids : Dict Bytes Bytes
  pub pending : Dict Bytes PendingPair
  pub pair_attempt : ℕ
  pub timers : Dict Bytes Expiry
  pub calls : List Call

pub record Outside : Type 0 where
  pub apply_peer : Option (Lease → Bytes → Bool)
  pub remove_peer : Option (Bytes → Bool)
  pub persist : Service → Bool
  pub persist_secret : Service → Bool

unfoldable pub find_lease : List Lease → Bytes → Option Lease
find_lease [] key = none
find_lease (item ∷ items) key = if item.public_key == key then some item else find_lease items key

-- `findLease(s.allocator.Snapshot(), key)`, where an allocator that is nil has no leases
unfoldable pub member_lease : Option Allocator → Bytes → Option Lease
member_lease none key = none
member_lease (some a) key = find_lease (Lease.snapshot a) key

-- `m[key] = value`, or `delete(m, key)` for a key that was missing
abbrev pub put_back {ℓ} : {V : Type ℓ} → Bytes → Option V → Dict Bytes V → Dict Bytes V
put_back key none m = erase key m
put_back key (some v) m = insert key v m

-- a callback that is nil does not fail
abbrev pub apply_ok : Option (Lease → Bytes → Bool) → Lease → Bytes → Bool
apply_ok none item psk = true
apply_ok (some f) item psk = f item psk

abbrev pub remove_ok : Option (Bytes → Bool) → Bytes → Bool
remove_ok none key = true
remove_ok (some f) key = f key

-- `if s.applyPeer != nil { s.applyPeer(item, psk) }`
abbrev pub call_apply {ℓ} : {A : Type ℓ} → Option A → Lease → Bytes → List Call → List Call
call_apply none item psk calls = calls
call_apply (some f) item psk calls = applied item psk ∷ calls

abbrev pub call_remove {ℓ} : {A : Type ℓ} → Option A → Bytes → List Call → List Call
call_remove none key calls = calls
call_remove (some f) key calls = removed key ∷ calls

-- `if s.fixedRoom { err := s.persistLocked() }`
abbrev pub saved : Outside → Service → Bool
saved out s = if s.fixed_room then out.persist s else true

-- the methods of an allocator that is not nil
abbrev pub on_allocator : (Allocator → Allocator) → Option Allocator → Option Allocator
on_allocator f none = none
on_allocator f (some a) = some (f a)

-- `m[key]` of a map to Booleans
abbrev pub holds : Option Bool → Bool
holds none = false
holds (some b) = b

unfoldable pub blocked_uid : Service → Bytes → Bool
blocked_uid s uid = s.running && holds (lookup uid s.blocked_uids)

-- `ok && item.Enabled`
abbrev pub enabled_member : Option Lease → Bool
enabled_member none = false
enabled_member (some item) = item.enabled

unfoldable pub known_member : Service → Bytes → Bool
unfolding member_lease
known_member s key =
    if not s.running || not (is_some s.allocator)
    then false
    else enabled_member (member_lease s.allocator key)

unfoldable pub member_auth_key : Service → Bytes → Option Bytes
unfolding member_lease
member_auth_key s key =
    if not s.running || not (is_some s.allocator)
    then none
    else if enabled_member (member_lease s.allocator key)
    then lookup key s.member_psks
    else none
