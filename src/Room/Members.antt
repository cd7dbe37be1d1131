-- ===== src/Room/Members.antt =====
-- What the host does with its room (internal/room/room.go): members removed, blocked and renamed, the
-- room opened and closed to joiners, its key rotated, and the room stopped. A public key arrives as
-- text; `decoded` is what base64.StdEncoding.DecodeString makes of it. The snapshot that a method
-- returns is a view of the state it leaves, which stands for it here.
pub mod Undone
use opl_core.Prelude.{
  ℕ, ◌+◌, ◌≡◌, Bool, true, false, not, ◌&&◌, ◌||◌, List, [], ◌∷◌, if◌then◌else◌, ◌==◌, nat_eq,
  bytes_eq, Bytes, length, Option, some, none, Result, ok, err, is_some, leb, ltb,
}
use opl_core.Prelude.Dict.{Dict, lookup, insert, erase}
use opl_core.Prelude.Binary.{zeroes}
use opl_core.Codec.Hex
use opl_core.Invite.{Invite}
use opl_core.Invite
use opl_core.Lease.{Lease, Allocator, assign, remove, restore, new, full, invalid}
use opl_core.Lease
use opl_core.Pairing.Messages.{valid_name}
use opl_core.Room.{
  server_drops, server_key, Service, Outside, Error, stopped, no_member, bad_input, outside, full,
  MemberState, MemberStats, configured, online, member_lease, put_back, call_apply, call_remove,
  saved, remove_ok, on_allocator, holds,
}

-- 16 lower-case hexadecimal digits
abbrev pub is_uid : Option Bytes → Bytes → Bool
is_uid none uid = false
is_uid (some decoded) uid = length decoded == 8 && Hex.encode decoded == uid

unfoldable pub valid_uid : Bytes → Bool
valid_uid uid = is_uid (Hex.decode uid) uid

unfoldable pub decode_public_key : Option Bytes → Option Bytes
decode_public_key none = none
decode_public_key (some decoded) = if not (length decoded == 32) then none else some decoded

-- `m[key]` of a map to strings
abbrev pub text_or_nil : Option Bytes → Bytes
text_or_nil none = []
text_or_nil (some value) = value

unfoldable pub set_join_enabled : Outside → Bool → Service → Service × Result Error (Unit {0})
set_join_enabled out enabled s =
    let changed : Service = record s { join_enabled = enabled } in
    if not s.running
    then (s, err stopped)
    else if not (saved out changed)
    then (record changed { join_enabled = s.join_enabled }, err outside)
    else (changed, ok tt)

-- The room without a member, its id blocked if `block` holds.
unfoldable pub drop_member : Bool → Bytes → Service → Service
drop_member block key s = record s {
  blocked_uids =
      if block
      then insert (text_or_nil (lookup key s.member_uids)) true s.blocked_uids
      else s.blocked_uids;
  allocator = on_allocator (λ a. (remove key a).0) s.allocator;
  timers = erase key s.timers;
  member_states = erase key s.member_states;
  member_psks = erase key s.member_psks;
  runtime_stats = erase key s.runtime_stats;
  reported_stats = erase key s.reported_stats;
  member_uids = erase key s.member_uids;
  pending = erase key s.pending;
}

-- What both error paths of `removeMember` put back. A state or an id that was missing is stored as
-- the empty string there, which reads as a missing one.
unfoldable pub undo_drop : Bool → Bytes → Lease → Service → Service → Service
undo_drop block key previous before s =
    let uid = text_or_nil (lookup key before.member_uids) in
    record s {
      blocked_uids =
          if block && not (holds (lookup uid before.blocked_uids))
          then erase uid s.blocked_uids
          else s.blocked_uids;
      allocator = on_allocator (λ a. (restore previous a).0) s.allocator;
      member_states = put_back key (lookup key before.member_states) s.member_states;
      member_uids = put_back key (lookup key before.member_uids) s.member_uids;
      member_psks = put_back key (lookup key before.member_psks) s.member_psks;
    }

-- `if s.applyPeer != nil && hadPSK { s.applyPeer(previous, previousPSK) }`
unfoldable pub reapply : Outside → Lease → Option Bytes → Service → Service
reapply out previous none s = s
reapply out previous (some psk) s = record s {
  calls = call_apply out.apply_peer previous psk s.calls;
}

unfoldable pub remove_found :
    Outside → Bool → Bytes → Service → Option Lease → Service × Result Error (Unit {0})
unfolding drop_member undo_drop reapply
remove_found out block key s none = (s, err no_member)
remove_found out block key s (some previous) =
    let dropped = drop_member block key s in
    let told : Service = record dropped { calls = call_remove out.remove_peer key s.calls } in
    if block && not (valid_uid (text_or_nil (lookup key s.member_uids)))
    then (s, err bad_input)
    else if not (remove_ok out.remove_peer key)
    then (undo_drop block key previous s told, err outside)
    else if not (saved out told)
    then (
      reapply out previous (lookup key s.member_psks) (undo_drop block key previous s told),
      err outside,
    )
    else (record told { calls = server_drops key ∷ told.calls }, ok tt)

unfoldable pub remove_key :
    Outside → Bool → Option Bytes → Service → Service × Result Error (Unit {0})
unfolding remove_found member_lease
remove_key out block none s = (s, err bad_input)
remove_key out block (some key) s =
    if not s.running
    then (s, err stopped)
    else remove_found out block key s (member_lease s.allocator key)

-- `RemoveMember` and `BlockMember`
unfoldable pub remove_member :
    Outside → Bool → Option Bytes → Service → Service × Result Error (Unit {0})
unfolding remove_key decode_public_key
remove_member out block decoded s = remove_key out block (decode_public_key decoded) s

unfoldable pub unblock_uid : Outside → Bytes → Service → Service × Result Error (Unit {0})
unfolding valid_uid
unblock_uid out uid s =
    let changed : Service = record s { blocked_uids = erase uid s.blocked_uids } in
    if not (valid_uid uid)
    then (s, err bad_input)
    else if not s.running
    then (s, err stopped)
    else if not (holds (lookup uid s.blocked_uids))
    then (s, err no_member)
    else if not (saved out changed)
    then (record changed { blocked_uids = insert uid true changed.blocked_uids }, err outside)
    else (changed, ok tt)

abbrev pub lease_error : Lease.Error → Error
lease_error Lease.full = full
lease_error invalid = bad_input

-- the allocator that `lease.New` makes, nil on its error
abbrev pub rebuilt : Result Lease.Error Allocator → Option Allocator
rebuilt (ok a) = some a
rebuilt (err e) = none

unfoldable pub renamed :
    Outside
    → Allocator
    → Service
    → Allocator × Result Lease.Error (Lease × Bool)
    → Service × Result Error (Unit {0})
renamed out before s (a, err e) = (record s { allocator = some a }, err (lease_error e))
renamed out before s (a, ok item) =
    let changed : Service = record s { allocator = some a } in
    if not (saved out changed)
    then (record changed { allocator = rebuilt (new (Lease.snapshot before)) }, err outside)
    else (changed, ok tt)

unfoldable pub rename_in :
    Outside → Bytes → Bytes → Service → Option Allocator → Service × Result Error (Unit {0})
unfolding renamed member_lease
rename_in out key name s none = (s, err no_member)
rename_in out key name s (some a) =
    if not (is_some (member_lease (some a) key))
    then (s, err no_member)
    else renamed out a s (assign key name a)

unfoldable pub rename_key :
    Outside → Option Bytes → Bytes → Service → Service × Result Error (Unit {0})
unfolding rename_in valid_name
rename_key out none name s = (s, err bad_input)
rename_key out (some key) name s =
    if not (valid_name name)
    then (s, err bad_input)
    else if not s.running
    then (s, err stopped)
    else rename_in out key name s s.allocator

unfoldable pub rename_member :
    Outside → Option Bytes → Bytes → Service → Service × Result Error (Unit {0})
unfolding rename_key decode_public_key
rename_member out decoded name s = rename_key out (decode_public_key decoded) name s

-- the invite for a room key
abbrev pub room_invite : Service → Bytes → Invite
room_invite s room_key = record {
  fixed_room_key = s.fixed_room;
  host_uid = s.host_uid;
  pair_port = s.pair_port;
  room_key = room_key;
}

unfoldable pub rotate_to :
    Outside → Bytes → Service → Result Invite.Error Bytes → Service × Result Error Bytes
rotate_to out next s (err e) = (s, err bad_input)
rotate_to out next s (ok code) =
    let changed : Service = record s { room_key = next } in
    if s.fixed_room && not (out.persist_secret changed)
    then (record changed { room_key = s.room_key }, err outside)
    else (record changed { calls = server_key next ∷ s.calls }, ok code)

-- `next` is what the random source returns: 12 bytes, or `none` for its error.
unfoldable pub rotate_key : Outside → Option Bytes → Service → Service × Result Error Bytes
unfolding rotate_to
rotate_key out none s = (s, err outside)
rotate_key out (some next) s =
    if not s.running
    then (s, err stopped)
    else rotate_to out next s (Invite.encode (room_invite s next))

-- `clearLocked`
unfoldable pub clear : Service → Service
clear s = record s {
  running = false;
  fixed_room = false;
  fixed_host = false;
  join_enabled = false;
  host_uid = [];
  room_id = [];
  pair_port = 0;
  room_key = zeroes 12;
  host_private = zeroes 32;
  host_public = zeroes 32;
  allocator = none;
  member_states = [];
  member_psks = [];
  blocked_uids = [];
  runtime_stats = [];
  reported_stats = [];
  member_uids = [];
  pending = [];
}

-- `Stop`, up to closing the pairing server and the network
unfoldable pub stop : Service → Service
unfolding clear
stop s =
    let halted : Service = record s { running = false; timers = [] } in
    if not s.running then s else if not s.fixed_room then clear halted else halted
