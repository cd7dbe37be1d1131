-- ===== src/Discovery/Frame/Canonical.antt =====
-- A relay frame has one encoding (internal/discovery/frame.go).
use opl_core.Prelude.{
  ◌+◌, ◌≤◌, ◌≡◌, true, [], ◌∷◌, ◌++◌, Bytes, length, ok, arith, nat_eq, bytes_eq, drop, ap, sym,
  ◌∙◌, ==_iff, take-append-drop, subst, length-drop,
}
use opl_core.Prelude.Binary.{
  at, ats, take-ats, slice, put_u16, put_u64, get_u16, get_u64, put_u64-get_u64, put_u32-get_u32,
  put_u16-get_u16, IsBytes,
}
use opl_core.Discovery.Frame.{
  Frame, valid_packet, header_of, encode, read, decode, as4, other_flags,
}

-- What `decode` demands of the bytes.
decode_ok :
    (b : Bytes) {v : Frame}
    → decode b ≡ ok v
    → (20 ≤ length b)
      × (slice b 0 4 ≡ 79 ∷ 68 ∷ 82 ∷ 50 ∷ [])
      × (at b 4 ≡ 1)
      × (other_flags (at b 5) ≡ 0)
      × (get_u16 b 18 ≤ 1200)
      × (length b ≡ 20 + get_u16 b 18)
      × (valid_packet (read b).sender_ip (read b).packet ≡ true)
      × (read b ≡ v)
unfolding decode
decode_ok b {v} h = ground (arith, ==_iff (slice b 0 4) (79 ∷ 68 ∷ 82 ∷ 50 ∷ []))

-- The eight bytes of the sequence number and the two of the length, written again.
put_u64-ats : (b : Bytes) → IsBytes b → put_u64 (get_u64 b 10) ≡ ats b 10 8
put_u64-ats b h = rw (
  put_u64-get_u64 b 10 h,
  put_u32-get_u32 b 10 h,
  put_u32-get_u32 b 14 h,
  put_u16-get_u16 b 10 h,
  put_u16-get_u16 b 12 h,
  put_u16-get_u16 b 14 h,
  put_u16-get_u16 b 16 h,
)

put_u16-ats : (b : Bytes) → IsBytes b → put_u16 (get_u16 b 18) ≡ ats b 18 2
put_u16-ats b h = put_u16-get_u16 b 18 h

-- The header of the frame that was read is what stood in front of the packet.
header_of-read :
    (b : Bytes)
    → IsBytes b
    → length (drop 20 b) ≡ get_u16 b 18
    → at b 4 ≡ 1
    → ats b 0 4 ≡ 79 ∷ 68 ∷ 82 ∷ 50 ∷ []
    → header_of (read b) ≡ ats b 0 20
unfolding header_of read as4
header_of-read b h size ver mag = rw (size, put_u64-ats b h, put_u16-ats b h) (ground arith)

-- Bytes that `decode` accepts are the encoding of the frame it returns, so no two inputs decode to
-- the same frame.
pub encode-decode_frame : (b : Bytes) {v : Frame} → IsBytes b → decode b ≡ ok v → encode v ≡ ok b
unfolding encode read
encode-decode_frame b {v} h e =
    let (long, mag, ver, flags, small, size, packet, eq) = decode_ok b e in
    let head =
      header_of-read b h (length-drop 20 b ∙ omega arith) ver
        (sym (take-ats 4 b (omega arith)) ∙ mag) in
    let all : header_of (read b) ++ (read b).packet ≡ b =
      ap (λ r. r ++ drop 20 b) (head ∙ sym (take-ats 20 b long)) ∙ take-append-drop 20 b in
    subst (λ w. encode w ≡ ok b) eq (rw (flags, packet) (ap ok all))
