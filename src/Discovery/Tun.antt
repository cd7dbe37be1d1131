-- ===== src/Discovery/Tun.antt =====
-- The tunnel device that wraps and unwraps discovery packets (internal/discovery/tun.go). The
-- device below it is not part of the repository: a batch of packets that it read, or is to write,
-- is a list. The IPv4 packets are their bytes.
pub mod Checksum
pub mod Unwrap
pub mod Wrap
use opl_core.Prelude.{
  ℕ, zero, suc, ◌+◌, ◌-◌, ◌*◌, ◌/◌, ◌%◌, ◌≡◌, Bool, true, false, not, ◌&&◌, ◌||◌, List, [], ◌∷◌,
  ◌++◌, ltb, leb, if◌then◌else◌, ◌==◌, nat_eq, bytes_eq, Bytes, length, drop, Result, ok, err,
  Option, some, none, get_or,
}
use opl_core.Prelude.Addr.{Addr, zero_addr, v4, addr_eq}
use opl_core.Prelude.Binary.{at, put_u16, get_u16}
use opl_core.Discovery.Frame.{
  Error, frame, Frame, valid_packet, valid_sender, encode, decode, as4, addr_at, header_length,
  flag_host_origin,
}
use opl_core.Discovery.Replay.{ReplayWindow, accept, new_window}

-- the words of a header, added up in a uint32; a header has an even length
unfoldable pub sum_words : ℕ → Bytes → ℕ
sum_words sum [] = sum
sum_words sum (hi ∷ []) = sum
sum_words sum (hi ∷ lo ∷ rest) = sum_words ((sum + (hi * 256 + lo)) % 4294967296) rest

-- `for sum > 0xffff { sum = (sum >> 16) + (sum & 0xffff) }`
unfoldable pub fold_carry : ℕ → ℕ → ℕ
fold_carry zero sum = sum
fold_carry (suc fuel) sum =
    let rest = fold_carry fuel (sum / 65536 + sum % 65536) in if ltb 65535 sum then rest else sum

-- Three rounds are enough for a uint32; see `fold_carry-lt` in Tun/Checksum.antt.
unfoldable pub ipv4_checksum : Bytes → ℕ
unfolding sum_words
ipv4_checksum header = 65535 - fold_carry 3 (sum_words 0 header)

-- The IPv4 header with the given checksum field.
unfoldable pub ipv4_header : Addr → Addr → ℕ → ℕ → Bytes
unfolding as4
ipv4_header source destination size checksum =
    69 ∷ 0 ∷ []
    ++ put_u16 size
    ++ 0 ∷ 0 ∷ 0 ∷ 0 ∷ 64 ∷ 17 ∷ []
    ++ put_u16 checksum
    ++ as4 source
    ++ as4 destination

unfoldable pub build_ipv4_udp : Addr → Addr → ℕ → ℕ → Bytes → Bytes
unfolding ipv4_header
build_ipv4_udp source destination source_port destination_port payload =
    let size = 28 + length payload in
    ipv4_header source destination size (ipv4_checksum (ipv4_header source destination size 0))
    ++ put_u16 source_port
    ++ put_u16 destination_port
    ++ put_u16 (8 + length payload)
    ++ 0 ∷ 0 ∷ []
    ++ payload

unfoldable pub relay_payload : Bytes → Addr → Addr → ℕ → Option Bytes
relay_payload packet source destination port =
    let header = header_length packet in
    let udp = drop header packet in
    if ltb (length packet) 28
      || not (at packet 0 / 16 == 4)
      || not (at packet 9 == 17)
      || not (get_u16 packet 6 % 16384 == 0)
    then none
    else if ltb header 20
        || ltb (length packet) (header + 8)
        || not (get_u16 packet 2 == length packet)
    then none
    else if not (addr_at packet 12 == source)
        || not (addr_at packet 16 == destination)
        || not (get_u16 udp 2 == port)
        || not (get_u16 udp 4 == length udp)
    then none
    else some (drop 8 udp)

unfoldable pub packet_source : Bytes → Option Addr
packet_source packet =
    if ltb (length packet) 20 || not (at packet 0 / 16 == 4) then none else some (addr_at packet 12)

pub data Role : Type 0 where
  client host : Role

abbrev pub is_host : Role → Bool
is_host host = true
is_host client = false

pub record DiscoveryTun : Type 0 where
  pub role : Role
  pub local_ip : Addr
  pub relay_port : ℕ
  pub sequence : ℕ
  pub replay : ReplayWindow

abbrev pub host_ip : Addr
host_ip = v4 10 0 23 1

-- `has_callback` says that `onDiscovery` is not nil; the device is there.
unfoldable pub wrap : Role → Addr → ℕ → Bool → Result Error DiscoveryTun
wrap role local_ip relay_port has_callback =
    if not (valid_sender local_ip) || relay_port == 0 || (is_host role && not has_callback)
    then err frame
    else ok (record {
      role = role;
      local_ip = local_ip;
      relay_port = relay_port;
      sequence = 0;
      replay = new_window 1024 5000000000;
    })

-- What a round of `Read` leaves: the packets kept so far, in order, and the frames handed to
-- `onDiscovery`.
pub record Batch : Type 0 where
  pub kept : List Bytes
  pub discovered : List Frame

-- A packet goes to the next buffer if it fits there, and is dropped if it does not. `sizes` are the
-- buffers' lengths.
unfoldable pub keep_packet : List ℕ → ℕ → Bytes → Batch → Batch
keep_packet sizes offset packet out =
    if ltb (get_or sizes (length out.kept) 0) (offset + length packet)
    then out
    else record out { kept = out.kept ++ packet ∷ [] }

-- The frame that `Read` makes of a packet; the counter is a uint64.
unfoldable pub frame_of : DiscoveryTun → Bytes → Frame
frame_of d packet = record {
  flags = if is_host d.role then flag_host_origin else 0;
  sender_ip = d.local_ip;
  sequence = (d.sequence + 1) % 18446744073709551616;
  packet = packet;
}

-- The part of the loop's body behind the first `Encode`.
unfoldable pub route : DiscoveryTun → List ℕ → ℕ → Frame → Result Error Bytes → Batch → Batch
unfolding keep_packet
route d sizes offset v (err e) out = keep_packet sizes offset v.packet out
route d sizes offset v (ok payload) out =
    if is_host d.role
    then record out { discovered = out.discovered ++ v ∷ [] }
    else keep_packet sizes offset
        (build_ipv4_udp d.local_ip host_ip d.relay_port d.relay_port payload) out

-- `for i := 0; i < count; i++` over the packets that the device read.
unfoldable pub read_batch : DiscoveryTun → List ℕ → ℕ → List Bytes → Batch → DiscoveryTun × Batch
unfolding frame_of
read_batch d sizes offset [] out = (d, out)
read_batch d sizes offset (packet ∷ packets) out =
    let v = frame_of d packet in
    read_batch (record d { sequence = v.sequence }) sizes offset packets
      (route d sizes offset v (encode v) out)

abbrev pub if_ok : Result Error (Unit {0}) → Bytes → Option Bytes
if_ok (ok u) packet = some packet
if_ok (err e) packet = none

-- What a client does with one packet that arrived: `none` drops it.
unfoldable pub deliver_frame : ReplayWindow → ℕ → Result Error Frame → ReplayWindow × Option Bytes
deliver_frame w now (err e) = (w, none)
deliver_frame w now (ok v) =
    let (w', passed) = accept v.sender_ip v.sequence now w in (w', if_ok passed v.packet)

unfoldable pub deliver_payload :
    ReplayWindow → ℕ → Bytes → Option Bytes → ReplayWindow × Option Bytes
unfolding deliver_frame
deliver_payload w now packet none = (w, some packet)
deliver_payload w now packet (some payload) = deliver_frame w now (decode payload)

unfoldable pub deliver : DiscoveryTun → ℕ → Bytes → ReplayWindow × Option Bytes
unfolding deliver_payload
deliver d now packet =
    deliver_payload d.replay now packet (relay_payload packet host_ip d.local_ip d.relay_port)

abbrev pub keep_some : Option Bytes → List Bytes → List Bytes
keep_some none rest = rest
keep_some (some packet) rest = packet ∷ rest

-- `Write` of a client: the packets handed to the device below. Each packet comes with the time at
-- which it is looked at.
unfoldable pub write_client : DiscoveryTun → List (Bytes × ℕ) → DiscoveryTun × List Bytes
unfolding deliver
write_client d [] = (d, [])
write_client d ((packet, now) ∷ packets) =
    let (w, out) = deliver d now packet in
    let (d', rest) = write_client (record d { replay = w }) packets in (d', keep_some out rest)

abbrev pub packets_of : List (Bytes × ℕ) → List Bytes
packets_of [] = []
packets_of ((packet, now) ∷ rest) = packet ∷ packets_of rest

-- A host's device takes a batch as it is.
unfoldable pub write : DiscoveryTun → List (Bytes × ℕ) → DiscoveryTun × List Bytes
unfolding write_client
write d packets = if is_host d.role then (d, packets_of packets) else write_client d packets

unfoldable pub injectable : Option Addr → Bytes → Bool
injectable none packet = false
injectable (some sender) packet = valid_packet sender packet

-- The packet that `InjectInbound` hands to the device, if it does.
unfoldable pub inject_inbound : DiscoveryTun → Bytes → Result Error Bytes
unfolding injectable packet_source
inject_inbound d packet =
    if not (is_host d.role) || not (injectable (packet_source packet) packet)
    then err frame
    else ok packet
