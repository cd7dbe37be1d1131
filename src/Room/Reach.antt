-- ===== src/Room/Reach.antt =====
-- The states that a room can be in (internal/room/room.go). Each method and each callback holds the mutex,
-- so a step is one call; what it meets outside is free in every step.
pub mod Sound
pub mod Callbacks
pub mod Methods
pub mod Starts
use opl_core.Prelude.{
  ℕ, ◌≡◌, Bool, true, false, not, ◌&&◌, ◌||◌, List, [], ◌∷◌, if◌then◌else◌, ◌==◌, nat_eq, bytes_eq,
  Bytes, Option, some, none, Result, ok, err, is_some, arith, refl, sym, ◌∙◌, if_either, Bool-cases,
  Option-cases, inl, inr, subst,
}
use opl_core.Prelude.Dict.{Dict, lookup, insert, erase}
use opl_core.Prelude.Addr.{addr_eq}
use opl_core.Pairing.Messages
use opl_core.Pairing.Server.{Assignment}
use opl_core.Pairing.Stats.{Device}
use opl_core.Lease.{
  Lease, Allocator, new, assign, remove, restore, remove_if_revision, full, invalid,
}
use opl_core.Lease
use opl_core.Invite
use opl_core.Lease.Rebuild.{new-snapshot}
use opl_core.Prelude.{ap}
use opl_core.Room.Members.{room_invite}
use opl_core.Pairing.Messages.{valid_name}
use opl_core.Lease.Distinct.{
  IsPool, assign-IsPool, remove-IsPool, restore-IsPool, remove_if_revision-IsPool, new-IsPool,
}
use opl_core.Room.{
  Service, Outside, MemberStats, PendingPair, member_lease, on_allocator, Call, call_remove,
  server_drops, saved, remove_ok, holds, configured,
}
use opl_core.Room.Join.{
  server_config, assign_member, grant_member, granted, attempt, set_peer, mark_pairing,
  pair_pending, rollback_pair, undo_lease, is_configured, pair_psk, pairing_failed, failed_at,
  expire, expire_in, expire_lease, pairing_acknowledged, acknowledged_at, report_stats, report_from,
}
use opl_core.Room.Members.{
  set_join_enabled, text_or_nil, valid_uid, remove_member, remove_key, remove_found, drop_member,
  undo_drop, reapply, decode_public_key, unblock_uid, rename_member, rename_key, rename_in, renamed,
  rebuilt, rotate_key, rotate_to, clear, stop,
}
use opl_core.Lease.{empty, admit_all}
use opl_core.Room.{server_started, server_closed, apply_ok, call_apply, outside}
use opl_core.Room.Start.{exists, not_exist, unknown}
use opl_core.Room.Start.{
  Startup, CreateOptions, Stat, Saved, create, create_on, create_with, created, bring_up, start,
  start_with, start_members, start_leases, start_network, finish_start, apply_all, restored,
  allocator_of, cleared_with,
}
use opl_core.Room.Stats.{update_member_stats, note_stats, note_stat, leases_of}
use opl_core.Room.Reach.Sound.{IsSound}
use opl_core.Room.Reach.Callbacks.{
  assign_member-IsSound, pairing_failed-IsSound, expire-IsSound, acknowledged-IsSound,
  report_stats-IsSound,
}
use opl_core.Room.Reach.Methods.{
  set_join_enabled-IsSound, remove_member-IsSound, unblock_uid-IsSound, rename_member-IsSound,
  rotate_key-IsSound, stop-IsSound,
}
use opl_core.Room.Reach.Starts.{
  create-IsSound, start-IsSound, start_or_create-IsSound, update_member_stats-IsSound,
}
use opl_core.Room.Start.{start_or_create}
use opl_core.Prelude.Binary.{zeroes}

abbrev pub default_wire_guard_port : ℕ
default_wire_guard_port = 25674

abbrev pub default_relay_port : ℕ
default_relay_port = 25675

-- The service that `New` returns for these ports: a port that is not given has its default, every
-- other field is Go's zero value, and the maps are empty.
abbrev pub fresh : ℕ → ℕ → Service
fresh wire_guard_port relay_port = record {
  running = false;
  fixed_room = false;
  fixed_host = false;
  join_enabled = false;
  host_uid = [];
  pair_port = 0;
  wg_port = if wire_guard_port == 0 then default_wire_guard_port else wire_guard_port;
  relay_port = if relay_port == 0 then default_relay_port else relay_port;
  room_id = [];
  room_key = zeroes 12;
  host_private = zeroes 32;
  host_public = zeroes 32;
  allocator = none;
  member_states = [];
  member_psks = [];
  blocked_uids = [];
  runtime_stats = [];
  reported_stats = [];
  member_uids = [];
  pending = [];
  pair_attempt = 0;
  timers = [];
  calls = [];
}

-- A callback of the pairing server, a timer that fires, or a method of the host.
pub data Step (s : Service) : Service → Type 0 where
  assigns :
      (out : Outside) (key name room_key : Bytes) (existing_auth : Bool)
      → Step s (assign_member out key name room_key existing_auth s).0
  fails : (out : Outside) (key : Bytes) (a : Assignment) → Step s (pairing_failed out key a s)
  acknowledges : (key : Bytes) (a : Assignment) → Step s (pairing_acknowledged key a s)
  reports : (key : Bytes) (d : Device) → Step s (report_stats key d s)
  expires : (out : Outside) (key : Bytes) (revision : ℕ) → Step s (expire out key revision s)
  enables : (out : Outside) (enabled : Bool) → Step s (set_join_enabled out enabled s).0
  removes :
      (out : Outside) (block : Bool) (key : Option Bytes) → Step s (remove_member out block key s).0
  unblocks : (out : Outside) (uid : Bytes) → Step s (unblock_uid out uid s).0
  renames :
      (out : Outside) (key : Option Bytes) (name : Bytes) → Step s (rename_member out key name s).0
  rotates : (out : Outside) (next : Option Bytes) → Step s (rotate_key out next s).0
  notes : (stats : Dict Bytes MemberStats) (now : ℕ) → Step s (update_member_stats stats now s)
  creates :
      (out : Outside) (up : Startup) (options : CreateOptions) → Step s (create out up options s).0
  starts : (out : Outside) (up : Startup) → Step s (start out up s).0
  begins :
      (out : Outside) (up : Startup) (stat : Stat) (options : CreateOptions)
      → Step s (start_or_create out up stat options s).0
  stops : Step s (stop s)

pub data Reach : Service → Type 0 where
  made : (wire_guard_port relay_port : ℕ) → Reach (fresh wire_guard_port relay_port)
  next : {s t : Service} → Reach s → Step s t → Reach t

Step-IsSound : (s : Service) {t : Service} → Step s t → IsSound s → IsSound t
Step-IsSound s (assigns out key name room_key existing) v =
    (assign_member-IsSound out key name room_key existing s v).left
Step-IsSound s (fails out key a) v = pairing_failed-IsSound out key a s v
Step-IsSound s (acknowledges key a) v = acknowledged-IsSound key a s v
Step-IsSound s (reports key d) v = report_stats-IsSound key d s v
Step-IsSound s (expires out key revision) v = expire-IsSound out key revision s v
Step-IsSound s (enables out enabled) v = (set_join_enabled-IsSound out enabled s v).left
Step-IsSound s (removes out block key) v = (remove_member-IsSound out block key s v).left
Step-IsSound s (unblocks out uid) v = (unblock_uid-IsSound out uid s v).left
Step-IsSound s (renames out key name) v = (rename_member-IsSound out key name s v).left
Step-IsSound s (rotates out key) v = (rotate_key-IsSound out key s v).left
Step-IsSound s (notes stats now) v = update_member_stats-IsSound stats now s v
Step-IsSound s (creates out up options) v = (create-IsSound out up options s v).left
Step-IsSound s (starts out up) v = (start-IsSound out up s v).left
Step-IsSound s (begins out up stat options) v =
    (start_or_create-IsSound out up stat options s v).left
Step-IsSound s stops v = stop-IsSound s v

-- Whatever calls reach a room, in any order and with any failures outside: its address pool, if it has one, is
-- valid (every lease under its own key at a member address, no address twice, the marked octets
-- exactly the reserved and the held ones) with no key stored twice, and a room that runs has a pool.
pub Reach-IsSound : {s : Service} → Reach s → IsSound s
Reach-IsSound (made wire_guard_port relay_port) = record {
  pool = tt;
  has_pool = λ on. absurd (ground arith);
}
Reach-IsSound (next {s} r t) = Step-IsSound s t (Reach-IsSound r)
