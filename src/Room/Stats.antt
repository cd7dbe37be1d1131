-- ===== src/Room/Stats.antt =====
-- What is seen of a room (internal/room/room.go): the traffic of its members, and its snapshot. A time
-- is a number of nanoseconds, `none` for Go's zero time.
use opl_core.Prelude.{
  ℕ, ◌+◌, ◌/◌, Bool, true, false, ◌||◌, List, [], ◌∷◌, if◌then◌else◌, bytes_eq, Bytes, Option, some,
  none, leb,
}
use opl_core.Prelude.Dict.{Dict, lookup, insert}
use opl_core.Prelude.Addr.{Addr, zero_addr, v4, bytes_less}
use opl_core.Prelude.Sort.{sort}
use opl_core.Lease.{Lease, Allocator}
use opl_core.Lease
use opl_core.Room.{Service, MemberState, MemberStats, configured, online}

-- three minutes
abbrev pub online_for : ℕ
online_for = 180000000000

abbrev pub is_online : ℕ → Option ℕ → Bool
is_online now none = false
is_online now (some handshake) = leb now (handshake + online_for)

abbrev pub state_for : Bool → MemberState
state_for true = online
state_for false = configured

unfoldable pub note_stat : Option MemberStats → ℕ → Bytes → Service → Service
note_stat none now key s = s
note_stat (some stat) now key s = record s {
  member_states = insert key (state_for (is_online now stat.last_handshake)) s.member_states;
  runtime_stats = insert key stat s.runtime_stats;
}

-- the loop over the leases
unfoldable pub note_stats : List Lease → Dict Bytes MemberStats → ℕ → Service → Service
unfolding note_stat
note_stats [] stats now s = s
note_stats (item ∷ items) stats now s =
    note_stats items stats now (note_stat (lookup item.public_key stats) now item.public_key s)

unfoldable pub leases_of : Option Allocator → List Lease
leases_of none = []
leases_of (some a) = Lease.snapshot a

unfoldable pub update_member_stats : Dict Bytes MemberStats → ℕ → Service → Service
unfolding note_stats leases_of
update_member_stats stats now s = note_stats (leases_of s.allocator) stats now s

pub record Member : Type 0 where
  pub uid : Option Bytes
  pub public_key : Bytes
  pub ip : Addr
  pub name : Bytes
  pub enabled : Bool
  pub state : Option MemberState
  pub lease_revision : ℕ
  pub last_handshake : ℕ
  pub rx_bytes : ℕ
  pub tx_bytes : ℕ
  pub latency_ms : ℕ

pub record Snapshot : Type 0 where
  pub running : Bool
  pub fixed_room_key : Bool
  pub fixed_host_key : Bool
  pub join_enabled : Bool
  pub host_uid : Bytes
  pub pair_port : ℕ
  pub wire_guard_port : ℕ
  pub relay_port : ℕ
  pub host_ip : Addr
  pub members : List Member
  pub blocked_uids : List Bytes

-- MemberStats{}
abbrev pub no_stats : MemberStats
no_stats = record { last_handshake = none; rx_bytes = 0; tx_bytes = 0; latency_ms = 0 }

abbrev pub stats_or : MemberStats → Option MemberStats → MemberStats
stats_or default none = default
stats_or default (some stats) = stats

-- whole seconds
abbrev pub unix : Option ℕ → ℕ
unix none = 0
unix (some handshake) = handshake / 1000000000

unfoldable pub view_member : Service → Lease → Member
view_member s item =
    let stat = stats_or no_stats (lookup item.public_key s.runtime_stats) in
    let traffic = stats_or stat (lookup item.public_key s.reported_stats) in
    record {
      uid = lookup item.public_key s.member_uids;
      public_key = item.public_key;
      ip = item.ip;
      name = item.name;
      enabled = item.enabled;
      state = lookup item.public_key s.member_states;
      lease_revision = item.revision;
      last_handshake = unix stat.last_handshake;
      rx_bytes = traffic.rx_bytes;
      tx_bytes = traffic.tx_bytes;
      latency_ms = traffic.latency_ms;
    }

unfoldable pub view_members : Service → List Lease → List Member
unfolding view_member
view_members s [] = []
view_members s (item ∷ items) = view_member s item ∷ view_members s items

unfoldable pub enabled_strings : Dict Bytes Bool → List Bytes
enabled_strings [] = []
enabled_strings ((value, enabled) ∷ rest) =
    let kept = enabled_strings rest in if enabled then value ∷ kept else kept

unfoldable pub sorted_strings : Dict Bytes Bool → List Bytes
unfolding enabled_strings sort
sorted_strings set = sort bytes_less (enabled_strings set)

unfoldable pub snapshot : Service → Snapshot
unfolding view_members sorted_strings leases_of
snapshot s =
    let shown = s.running || s.fixed_room in
    record {
      running = s.running;
      fixed_room_key = s.fixed_room;
      fixed_host_key = s.fixed_host;
      join_enabled = s.join_enabled;
      host_uid = if shown then s.host_uid else [];
      pair_port = if shown then s.pair_port else 0;
      wire_guard_port = if shown then s.wg_port else 0;
      relay_port = if shown then s.relay_port else 0;
      host_ip = if shown then v4 10 0 23 1 else zero_addr;
      members = view_members s (leases_of s.allocator);
      blocked_uids = sorted_strings s.blocked_uids;
    }
