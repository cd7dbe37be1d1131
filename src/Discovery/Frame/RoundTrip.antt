-- ===== src/Discovery/Frame/RoundTrip.antt =====
-- `Decode` undoes `Encode`, and only what `Encode` writes is decoded (internal/discovery/frame.go).
use opl_core.Prelude.{
  ℕ, ◌+◌, ◌<◌, ◌≤◌, ◌≡◌, true, [], ◌∷◌, ◌++◌, Bytes, length, ok, arith, refl, nat_eq, bytes_eq, ap,
  ==_iff,
}
use opl_core.Prelude.Addr.{Addr, v4}
use opl_core.Prelude.Binary.{
  at, slice, put_u16, put_u64, get_u16, get_u64, get_u32, get_u64-put_u64,
}
use opl_core.Discovery.Frame.{
  Frame, valid_sender, valid_packet, header_of, encode, read, decode, other_flags,
}

-- What `encode` demands of a frame.
pub encode_ok :
    (v : Frame) {b : Bytes}
    → encode v ≡ ok b
    → (other_flags v.flags ≡ 0)
      × (valid_packet v.sender_ip v.packet ≡ true)
      × (b ≡ header_of v ++ v.packet)
unfolding encode
encode_ok v h = ground arith

pub valid_packet_bounds :
    (sender : Addr) (packet : Bytes)
    → valid_packet sender packet ≡ true
    → (valid_sender sender ≡ true) × (28 ≤ length packet) × (length packet ≤ 1200)
unfolding valid_packet
valid_packet_bounds sender packet h = ground arith

-- The fields read back from a frame that was laid out.
read-header :
    (v : Frame) (a b c d : ℕ)
    → v.sender_ip ≡ v4 a b c d
    → v.sequence < 18446744073709551616
    → read (header_of v ++ v.packet) ≡ v
unfolding read header_of put_u64 get_u64 get_u32 get_u16 put_u16
read-header v a b c d e h = rw e (
    ap {B = Frame} (λ (n : ℕ). record v { sender_ip = v4 a b c d; sequence = n })
      (get_u64-put_u64 v.sequence [] h))

pub length-header :
    (v : Frame) (a b c d : ℕ)
    → v.sender_ip ≡ v4 a b c d
    → length (header_of v ++ v.packet) ≡ 20 + length v.packet
unfolding header_of put_u64 put_u16
length-header v a b c d e = rw e (omega arith)

pub valid_sender-v4 :
    (ip : Addr) → valid_sender ip ≡ true → (d : ℕ) × (ip ≡ v4 10 0 23 d) × (1 ≤ d) × (d ≤ 254)
unfolding valid_sender
valid_sender-v4 (v4 a b c d) h = (d, ground arith, ground arith, ground arith)
valid_sender-v4 _ h = absurd (ground arith)

-- The first 20 bytes pass the tests of `Decode`.
header_passes :
    (v : Frame) (d : ℕ)
    → v.sender_ip ≡ v4 10 0 23 d
    → length v.packet ≤ 1200
    → (slice (header_of v ++ v.packet) 0 4 ≡ 79 ∷ 68 ∷ 82 ∷ 50 ∷ [])
      × (at (header_of v ++ v.packet) 4 ≡ 1)
      × (at (header_of v ++ v.packet) 5 ≡ v.flags)
      × (get_u16 (header_of v ++ v.packet) 18 ≡ length v.packet)
unfolding header_of put_u64 put_u16 get_u16
header_passes v d e h = rw e (refl, refl, refl, omega arith)

-- A frame that `encode` accepts is decoded to itself, if its sequence number fits 64 bits.
pub decode-encode_frame :
    (v : Frame) {b : Bytes} → v.sequence < 18446744073709551616 → encode v ≡ ok b → decode b ≡ ok v
unfolding decode
decode-encode_frame v h e =
    let (flags, packet, bytes) = encode_ok v e in
    let (sender, small, large) = valid_packet_bounds v.sender_ip v.packet packet in
    let (d, ip, lo, hi) = valid_sender-v4 v.sender_ip sender in
    let (magic_ok, version_ok, flags_ok, size) = header_passes v d ip large in
    rw bytes (
      ground (
        arith,
        read-header v 10 0 23 d ip h,
        length-header v 10 0 23 d ip,
        packet,
        magic_ok,
        version_ok,
        flags_ok,
        size,
        ==_iff (slice (header_of v ++ v.packet) 0 4) (79 ∷ 68 ∷ 82 ∷ 50 ∷ []),
      ))
