-- ===== src/Discovery/Relay.antt =====
-- The relay of discovery frames at the host (internal/discovery/relay.go). The arithmetic of Go's float64
-- is an interface, `Floats`; a time is a number of nanoseconds. What a call of `members` returns,
-- and whether a packet can be injected and sent, is `Outside`: the members are asked for twice. `calls`
-- is no field of the source: it lists the packets that leave the relay, the last one first.
pub mod Fanout
pub mod Genuine
pub mod Once
pub mod Window
mod Tests
use opl_core.Prelude.{
  ℕ, ◌+◌, ◌-◌, ◌%◌, ◌≡◌, Bool, true, false, not, ◌&&◌, ◌||◌, List, [], ◌∷◌, if◌then◌else◌, ◌==◌,
  nat_eq, Bytes, length, Option, some, none, Result, ok, err,
}
use opl_core.Prelude.Dict.{Dict, lookup, insert}
use opl_core.Prelude.Addr.{Addr, v4, addr_eq, zero_addr}
use opl_core.Discovery.Frame.{Frame, valid_sender, encode, decode, flag_host_origin}
use opl_core.Discovery.Frame
use opl_core.Discovery.Replay.{ReplayWindow, accept, new_window}

pub record Floats (F : Type 0) : Type 0 where
  pub number : ℕ → F
  pub seconds : ℕ → F
  pub add : F → F → F
  pub mul : F → F → F
  pub sub : F → F → F
  pub less : F → F → Bool

-- the host's address
abbrev pub host_ip : Addr
host_ip = v4 10 0 23 1

abbrev pub u64 : ℕ → ℕ
u64 n = n % 18446744073709551616

abbrev pub member_packets : ℕ
member_packets = 128

abbrev pub member_bytes : ℕ
member_bytes = 262144

abbrev pub room_packets : ℕ
room_packets = 2048

abbrev pub room_bytes : ℕ
room_bytes = 1073741824

pub record Bucket (F : Type 0) : Type 0 where
  pub packets : F
  pub bytes : F
  pub last : ℕ

pub data Call : Type 0 where
  injected : Bytes → Call
  sent : Addr → Bytes → Call

pub record RelayStats : Type 0 where
  pub accepted : ℕ
  pub forwarded : ℕ
  pub dropped : ℕ

pub record Relay (F : Type 0) : Type 0 where
  pub replay : ReplayWindow
  pub member_lim : Dict Addr (Bucket F)
  pub room_limit : Bucket F
  pub stats : RelayStats
  pub calls : List Call

pub record Outside : Type 0 where
  pub members : List Addr
  pub members_after : List Addr
  pub injects : Bytes → Bool
  pub sends : Addr → Bytes → Bool

abbrev pub count_accepted : RelayStats → RelayStats
count_accepted t = record t { accepted = u64 (t.accepted + 1) }

abbrev pub count_sent : Bool → RelayStats → RelayStats
count_sent true t = record t { forwarded = u64 (t.forwarded + 1) }
count_sent false t = record t { dropped = u64 (t.dropped + 1) }

unfoldable pub contains_ip : List Addr → Addr → Bool
contains_ip [] target = false
contains_ip (value ∷ values) target = value == target || contains_ip values target

module _ {F : Type 0} (fl : Floats F) where
  abbrev pub min_float : F → F → F
  min_float a b = if fl.less a b then a else b

  abbrev pub full_bucket : ℕ → ℕ → ℕ → Bucket F
  full_bucket packets bytes now = record {
    packets = fl.number packets;
    bytes = fl.number bytes;
    last = now;
  }

  -- `newRelayCore`
  unfoldable pub new_relay : ℕ → Relay F
  unfolding new_window
  new_relay now = record {
    replay = new_window 1024 5000000000;
    member_lim = [];
    room_limit = full_bucket room_packets room_bytes now;
    stats = record { accepted = 0; forwarded = 0; dropped = 0 };
    calls = [];
  }

  -- A time that runs backwards counts as no time.
  unfoldable pub take : ℕ → ℕ → ℕ → ℕ → Bucket F → Bucket F × Bool
  take packet_rate byte_rate size now b =
      let elapsed = fl.seconds (now - b.last) in
      let packets =
        min_float (fl.number packet_rate)
          (fl.add b.packets (fl.mul elapsed (fl.number packet_rate))) in
      let bytes =
        min_float (fl.number byte_rate) (fl.add b.bytes (fl.mul elapsed (fl.number byte_rate))) in
      if fl.less packets (fl.number 1) || fl.less bytes (fl.number size)
      then (record { packets = packets; bytes = bytes; last = now }, false)
      else (
        record {
          packets = fl.sub packets (fl.number 1);
          bytes = fl.sub bytes (fl.number size);
          last = now;
        },
        true,
      )

  abbrev pub bucket_or : Option (Bucket F) → ℕ → Bucket F
  bucket_or none now = full_bucket member_packets member_bytes now
  bucket_or (some b) now = b

  -- the room's bucket is asked only where the member's allows
  unfoldable pub allow : Addr → ℕ → ℕ → Relay F → Relay F × Bool
  unfolding take
  allow sender size now r =
      let (own, own_allows) =
        take member_packets member_bytes size now (bucket_or (lookup sender r.member_lim) now) in
      let (room, room_allows) = take room_packets room_bytes size now r.room_limit in
      let noted : Relay F = record r { member_lim = insert sender own r.member_lim } in
      if not own_allows then (noted, false) else (record noted { room_limit = room }, room_allows)

  -- the loop over the members
  unfoldable pub fanout : Outside → Addr → Bytes → List Addr → Relay F → Relay F
  fanout out sender payload [] r = r
  fanout out sender payload (member ∷ members) r =
      let passed = fanout out sender payload members r in
      let told = fanout out sender payload members (record r {
        stats = count_sent (out.sends member payload) r.stats;
        calls = sent member payload ∷ r.calls;
      }) in
      if member == sender || not (valid_sender member) || member == host_ip then passed else told

  -- A frame that passed the checks: it is encoded again, injected, counted and fanned out.
  unfoldable pub deliver : Outside → Frame → Relay F → Result Frame.Error Bytes → Relay F × Bool
  unfolding fanout
  deliver out frame r (err e) = (r, false)
  deliver out frame r (ok payload) =
      let told : Relay F = record r { calls = injected frame.packet ∷ r.calls } in
      let counted : Relay F = record told { stats = count_accepted r.stats } in
      if not (out.injects frame.packet)
      then (told, false)
      else (fanout out frame.sender_ip payload out.members_after counted, true)

  unfoldable pub deliver_allowed : Outside → Frame → Relay F × Bool → Relay F × Bool
  unfolding deliver encode
  deliver_allowed out frame (r, false) = (r, false)
  deliver_allowed out frame (r, true) = deliver out frame r (encode frame)

  unfoldable pub deliver_new :
      Outside
      → Frame
      → Addr
      → ℕ
      → Relay F
      → ReplayWindow × Result Frame.Error (Unit {0})
      → Relay F × Bool
  unfolding deliver_allowed allow
  deliver_new out frame source now r (w, err e) = (record r { replay = w }, false)
  deliver_new out frame source now r (w, ok done) =
      deliver_allowed out frame (allow source (length frame.packet) now (record r { replay = w }))

  -- A member's frame, and whether it was relayed.
  unfoldable pub member : Outside → Frame → Addr → ℕ → Relay F → Relay F × Bool
  unfolding deliver_new contains_ip accept
  member out frame source now r =
      if not (frame.flags == 0)
        || not (frame.sender_ip == source)
        || not (contains_ip out.members source)
      then (r, false)
      else deliver_new out frame source now r (accept source frame.sequence now r.replay)

  unfoldable pub announce : Outside → Relay F → Result Frame.Error Bytes → Relay F × Bool
  unfolding fanout
  announce out r (err e) = (r, false)
  announce out r (ok payload) = (
    fanout out zero_addr payload out.members_after (record r { stats = count_accepted r.stats }),
    true,
  )

  unfoldable pub announce_allowed : Outside → Frame → Relay F × Bool → Relay F × Bool
  unfolding announce encode
  announce_allowed out frame (r, false) = (r, false)
  announce_allowed out frame (r, true) = announce out r (encode frame)

  -- The host's own frame.
  unfoldable pub host : Outside → Frame → ℕ → Relay F → Relay F × Bool
  unfolding announce_allowed allow
  host out frame now r =
      if not (frame.flags == flag_host_origin) || not (frame.sender_ip == host_ip)
      then (r, false)
      else announce_allowed out frame (allow frame.sender_ip (length frame.packet) now r)

  -- what the two reading loops do with an error
  abbrev pub drop_failed : Relay F × Bool → Relay F
  drop_failed (r, true) = r
  drop_failed (r, false) = record r { stats = count_sent false r.stats }

  unfoldable pub remote_frame : Outside → Addr → ℕ → Relay F → Result Frame.Error Frame → Relay F
  unfolding member
  remote_frame out source now r (err e) = drop_failed (r, false)
  remote_frame out source now r (ok frame) = drop_failed (member out frame source now r)

  -- a round of `readRemote`, on the bytes that were read
  unfoldable pub read_remote : Outside → Bytes → Addr → ℕ → Relay F → Relay F
  unfolding remote_frame decode
  read_remote out b source now r = remote_frame out source now r (decode b)

  -- a round of `readLocal`
  unfoldable pub read_local : Outside → Frame → ℕ → Relay F → Relay F
  unfolding host
  read_local out frame now r = drop_failed (host out frame now r)
