-- ===== src/Discovery/Frame.antt =====
-- The relay frame (internal/discovery/frame.go): `Encode`, `Decode` and the checks on the packet
-- inside. A slice or a string is its bytes; `binary.BigEndian` is `put_u16` … `get_u64`.
pub mod RoundTrip
pub mod Canonical
use opl_core.Prelude.{
  ℕ, zero, suc, ◌+◌, ◌-◌, ◌*◌, ◌/◌, ◌%◌, ◌≡◌, Bool, true, false, not, ◌&&◌, ◌||◌, List, [], ◌∷◌,
  ◌++◌, ltb, leb, if◌then◌else◌, ◌==◌, nat_eq, bytes_eq, Bytes, length, drop, Result, ok, err,
}
use opl_core.Prelude.Addr.{Addr, zero_addr, v4, v6, addr_eq}
use opl_core.Prelude.Binary.{at, slice, put_u16, put_u64, get_u16, get_u64}

pub data Error : Type 0 where
  frame duplicate : Error

pub record Frame : Type 0 where
  pub flags : ℕ
  pub sender_ip : Addr
  pub sequence : ℕ
  pub packet : Bytes

abbrev pub version : ℕ
version = 1

abbrev pub flag_host_origin : ℕ
flag_host_origin = 1

abbrev pub max_packet_bytes : ℕ
max_packet_bytes = 1200

abbrev pub header_bytes : ℕ
header_bytes = 20

-- "ODR2"
abbrev pub magic : Bytes
magic = 79 ∷ 68 ∷ 82 ∷ 50 ∷ []

-- `flags &^ FlagHostOrigin`: every bit but the lowest
abbrev pub other_flags : ℕ → ℕ
other_flags flags = flags / 2 * 2

unfoldable pub valid_sender : Addr → Bool
valid_sender (v4 a b c d) = a == 10 && b == 0 && c == 23 && leb 1 d && leb d 254
valid_sender _ = false

unfoldable pub valid_destination : Addr → Bool
valid_destination (v4 a b c d) =
    (a == 255 && b == 255 && c == 255 && d == 255)
    || (a == 10 && b == 0 && c == 23 && d == 255)
    || (leb 224 a && leb a 239)
valid_destination _ = false

-- the length in bytes of an IPv4 packet's header: `int(packet[0]&0x0f) * 4`
abbrev pub header_length : Bytes → ℕ
header_length packet = at packet 0 % 16 * 4

-- netip.AddrFrom4 of the four bytes at an offset
abbrev pub addr_at : Bytes → ℕ → Addr
addr_at b i = v4 (at b i) (at b (i + 1)) (at b (i + 2)) (at b (i + 3))

-- An unfragmented IPv4 packet that carries one UDP datagram from `sender` to a broadcast or
-- multicast address. `x >> 4` is `x / 16`, and `x & 0x3fff` is `x % 16384`.
unfoldable pub valid_packet : Addr → Bytes → Bool
unfolding valid_sender valid_destination
valid_packet sender packet =
    let size = length packet in
    let header = header_length packet in
    if not (valid_sender sender)
      || ltb size 28
      || ltb max_packet_bytes size
      || not (at packet 0 / 16 == 4)
    then false
    else if ltb header 20
        || ltb size (header + 8)
        || not (get_u16 packet 2 == size)
        || not (at packet 9 == 17)
    then false
    else if not (get_u16 packet 6 % 16384 == 0)
    then false
    else if not (addr_at packet 12 == sender) || not (valid_destination (addr_at packet 16))
    then false
    else get_u16 packet (header + 4) == size - header

-- As4 of an IPv4 address; of any other the source panics, which `Encode` rules out by its check
unfoldable pub as4 : Addr → Bytes
as4 (v4 a b c d) = a ∷ b ∷ c ∷ d ∷ []
as4 _ = []

unfoldable pub header_of : Frame → Bytes
unfolding as4
header_of v =
    magic
    ++ version ∷ v.flags ∷ []
    ++ as4 v.sender_ip
    ++ put_u64 v.sequence
    ++ put_u16 (length v.packet)

unfoldable pub encode : Frame → Result Error Bytes
unfolding header_of
encode v =
    if not (other_flags v.flags == 0) || not (valid_packet v.sender_ip v.packet)
    then err frame
    else ok (header_of v ++ v.packet)

-- The frame that the bytes hold, if they hold one.
unfoldable pub read : Bytes → Frame
read b = record {
  flags = at b 5;
  sender_ip = addr_at b 6;
  sequence = get_u64 b 10;
  packet = drop 20 b;
}

unfoldable pub decode : Bytes → Result Error Frame
unfolding read
decode b =
    let packet_length = get_u16 b 18 in
    let v = read b in
    if ltb (length b) header_bytes
      || not (slice b 0 4 == magic)
      || not (at b 4 == version)
      || not (other_flags (at b 5) == 0)
    then err frame
    else if packet_length == 0
        || ltb max_packet_bytes packet_length
        || not (length b == header_bytes + packet_length)
    then err frame
    else if not (valid_packet v.sender_ip v.packet)
    then err frame
    else ok v
