-- ===== src/Invite/Sound.antt =====
-- Only what `Encode` could have been given is decoded (internal/invite/invite.go).
use opl_core.Prelude.{
  ℕ, ◌+◌, ◌<◌, ◌≤◌, ◌≡◌, ◌≢◌, false, ◌++◌, ==_iff, nat_eq, bytes_eq, Bytes, length, take, drop,
  some, none, ok, arith, length-take, length-drop, ap, ◌∙◌, Option-cases, inl, inr,
}
use opl_core.Prelude.Binary.{
  slice, is_zero, get_u16, IsArray, IsBytes, IsBytes-drop, IsBytes-take, get_u16-lt, put_u32,
}
use opl_core.Codec.Hex
use opl_core.Codec.Base64
use opl_core.Codec.Crc32.{checksum_ieee}
use opl_core.Invite.{Invite, encode, decode, decode_payload, body, prefix}
use opl_core.Invite.RoundTrip.{decode-encode_invite}

decode_payload_ok :
    (payload : Bytes) {v : Invite}
    → decode_payload (some payload) ≡ ok v
    → (length payload ≡ 27)
      × (v.host_uid ≡ Hex.encode (slice payload 1 9))
      × (v.pair_port ≡ get_u16 payload 9)
      × (v.room_key ≡ slice payload 11 23)
      × (v.pair_port ≢ 0)
      × (is_zero v.room_key ≡ false)
unfolding decode_payload
decode_payload_ok payload {v} h =
    (ground arith, ground arith, ground arith, ground arith, ground arith, ground arith)

slice-IsArray : (b : Bytes) (i n : ℕ) → IsBytes b → i + n ≤ length b → IsArray n (take n (drop i b))
slice-IsArray b i n h long = (
  length-take n (drop i b) (omega (arith, length-drop {0} i b)),
  IsBytes-take n (drop i b) (IsBytes-drop i b h),
)

-- The code that `encode` writes for an invite with these fields.
encode_fields :
    (v : Invite) (uid : Bytes)
    → Hex.decode v.host_uid ≡ some uid
    → length uid ≡ 8
    → Hex.to_lower v.host_uid ≡ v.host_uid
    → v.pair_port ≢ 0
    → is_zero v.room_key ≡ false
    → (code : Bytes) × (encode v ≡ ok code)
unfolding encode
encode_fields v uid found size lower port key = (
  prefix ++ Base64.encode (body v uid ++ put_u32 (checksum_ieee (body v uid))),
  ground (arith, ==_iff v.host_uid (Hex.to_lower v.host_uid)),
)

decode_ok :
    (code : Bytes) {v : Invite}
    → decode code ≡ ok v
    → (payload : Bytes) × (Base64.decode (drop 5 code) ≡ some payload)
      × (decode_payload (some payload) ≡ ok v)
unfolding decode
decode_ok code {v} h = elim (Option-cases (Base64.decode (drop 5 code))) [
  | inl e ↦ absurd (decode_none (ground arith))
  | inr (payload, e) ↦ (payload, e, ground arith)
]
  where
    decode_none : decode_payload none ≡ ok v → ⊥
    decode_none p = cc

-- Whatever code is decoded, the invite is one that `encode` accepts, and its fields have the sizes
-- of their types; the code that `encode` writes for it is decoded to the same invite.
pub encode-decode_invite :
    (code : Bytes) {v : Invite}
    → decode code ≡ ok v
    → (again : Bytes) × (encode v ≡ ok again)
      × (decode again ≡ ok v)
      × (v.pair_port < 65536)
      × IsArray 12 v.room_key
encode-decode_invite code {v} h =
    let (payload, raw, read) = decode_ok code h in
    let bytes = Base64.decode-IsBytes (drop 5 code) raw in
    let (size, uid_eq, port_eq, key_eq, port, key) = decode_payload_ok payload read in
    let uid = slice-IsArray payload 1 8 bytes (omega arith) in
    let room = slice-IsArray payload 11 12 bytes (omega arith) in
    let uid_back = ap Hex.decode uid_eq ∙ Hex.decode-encode (slice payload 1 9) uid.1 in
    let lower : Hex.to_lower v.host_uid ≡ v.host_uid =
      rw uid_eq (Hex.to_lower-encode (slice payload 1 9) uid.1) in
    let (again, written) = encode_fields v (slice payload 1 9) uid_back uid.0 lower port key in
    let small : v.pair_port < 65536 = rw port_eq (get_u16-lt payload 9 bytes) in
    let sized : IsArray 12 v.room_key = rw key_eq room in
    (again, written, decode-encode_invite v small sized written, small, sized)
