-- ===== src/Invite/RoundTrip.antt =====
-- `Decode` undoes `Encode` (internal/invite/invite.go).
use opl_core.Prelude.{
  ◌<◌, ◌≡◌, ◌≢◌, false, [], ◌∷◌, ◌++◌, ==_iff, nat_eq, bytes_eq, Bytes, length, take, Option, some,
  none, ok, arith, refl, take-append_front, drop-append_front, length-append, drop-append_past, ap,
  sym, ◌∙◌, if◌then◌else◌, append_assoc, append-nil, subst,
}
use opl_core.Prelude.Binary.{
  slice, is_zero, put_u16, put_u32, get_u16, get_u32, IsArray, IsBytes, IsBytes-append,
  get_u16-put_u16, get_u32-put_u32, put_u16-IsArray, put_u32-IsArray, get_u16-drop, get_u32-drop,
}
use opl_core.Codec.Hex
use opl_core.Codec.Base64
use opl_core.Codec.Crc32.{checksum_ieee}
use opl_core.Invite.{Invite, encode, encode_uid, decode, decode_payload, body, prefix}

-- What `encode` demands of an invite, and what it returns.
encode_uid_ok :
    (v : Invite) (found : Option Bytes) {code : Bytes}
    → encode_uid v found ≡ ok code
    → (uid : Bytes) × (found ≡ some uid)
      × (length uid ≡ 8)
      × (Hex.to_lower v.host_uid ≡ v.host_uid)
      × (v.pair_port ≢ 0)
      × (is_zero v.room_key ≡ false)
      × (prefix ++ Base64.encode (body v uid ++ put_u32 (checksum_ieee (body v uid))) ≡ code)
unfolding encode_uid
encode_uid_ok v none h = absurd (ground arith)
encode_uid_ok v (some uid) h = (
  uid,
  refl,
  ground arith,
  ground (arith, ==_iff v.host_uid (Hex.to_lower v.host_uid)),
  ground arith,
  ground arith,
  ground arith,
)

checksum-lt : (bs : Bytes) → checksum_ieee bs < 4294967296
unfolding checksum_ieee
checksum-lt bs = omega arith

module _ (v : Invite) (uid : Bytes) (u : IsArray 8 uid) (k : IsArray 12 v.room_key) where
  abbrev payload : Bytes
  payload = body v uid ++ put_u32 (checksum_ieee (body v uid))

  length-body : length (body v uid) ≡ 23
  unfolding body put_u16
  length-body = omega (
    arith,
    length-append {0} (uid ++ put_u16 v.pair_port) v.room_key,
    length-append {0} uid (put_u16 v.pair_port),
    u.0,
    k.0,
  )

  abbrev crc : Bytes
  crc = put_u32 (checksum_ieee (body v uid))

  abbrev tail : Bytes
  tail = put_u16 v.pair_port ++ (v.room_key ++ crc)

  layout : payload ≡ (if v.fixed_room_key then 1 else 0) ∷ (uid ++ tail)
  unfolding body
  layout = simp append_assoc

  length-payload : length payload ≡ 27
  length-payload =
      length-append (body v uid) crc
      ∙ omega (arith, length-body, (put_u32-IsArray (checksum_ieee (body v uid))).0)

  take-payload : take 23 payload ≡ body v uid
  take-payload = take-append_front 23 (body v uid) crc length-body

  crc-payload : get_u32 payload 23 ≡ checksum_ieee (body v uid)
  crc-payload =
      sym (get_u32-drop 23 0 payload)
      ∙ ap (λ r. get_u32 r 0)
          (drop-append_front 23 (body v uid) crc length-body ∙ sym (append-nil crc))
      ∙ get_u32-put_u32 (checksum_ieee (body v uid)) [] (checksum-lt (body v uid))

  uid-payload : slice payload 1 9 ≡ uid
  uid-payload = rw layout (take-append_front 8 uid tail u.0)

  port-payload : v.pair_port < 65536 → get_u16 payload 9 ≡ v.pair_port
  port-payload h = rw layout (
      sym (get_u16-drop 9 0 ((if v.fixed_room_key then 1 else 0) ∷ (uid ++ tail)))
      ∙ ap (λ r. get_u16 r 0) (drop-append_front 8 uid tail u.0)
      ∙ get_u16-put_u16 v.pair_port (v.room_key ++ crc) h)

  key-payload : slice payload 11 23 ≡ v.room_key
  unfolding put_u16
  key-payload =
      rw layout
        (ap (take 12) (drop-append_past 8 2 uid tail u.0) ∙ take-append_front 12 v.room_key crc k.0)

  decode_payload-body :
      v.pair_port < 65536
      → v.pair_port ≢ 0
      → is_zero v.room_key ≡ false
      → Hex.encode uid ≡ v.host_uid
      → decode_payload (some payload) ≡ ok v
  unfolding decode_payload
  decode_payload-body port set key id =
      rw
        (
          length-payload,
          take-payload,
          crc-payload,
          uid-payload,
          port-payload port,
          key-payload,
          layout,
        )
        (ground arith)

payload-IsBytes :
    (v : Invite) (uid : Bytes)
    → IsArray 8 uid
    → IsArray 12 v.room_key
    → IsBytes (body v uid ++ put_u32 (checksum_ieee (body v uid)))
unfolding body
payload-IsBytes v uid u k = (
  ground arith,
  IsBytes-append (uid ++ put_u16 v.pair_port ++ v.room_key) _
      (IsBytes-append (uid ++ put_u16 v.pair_port) v.room_key
        (IsBytes-append uid (put_u16 v.pair_port) u.1 (put_u16-IsArray v.pair_port).1) k.1)
      (put_u32-IsArray (checksum_ieee (body v uid))).1,
)

-- An invite that `encode` accepts is decoded to itself from its code, if its fields have the sizes
-- of their types.
pub decode-encode_invite :
    (v : Invite) {code : Bytes}
    → v.pair_port < 65536
    → IsArray 12 v.room_key
    → encode v ≡ ok code
    → decode code ≡ ok v
unfolding encode decode
decode-encode_invite v port k h =
    let (uid, found, size, lower, set, key, eq) = encode_uid_ok v (Hex.decode v.host_uid) h in
    let u : IsArray 8 uid = (size, Hex.decode-IsBytes v.host_uid found) in
    subst (λ c. decode c ≡ ok v) eq
      (rw
        (Base64.decode-encode (body v uid ++ put_u32 (checksum_ieee (body v uid)))
          (payload-IsBytes v uid u k))
        (decode_payload-body v uid u k port set key (Hex.encode-decode v.host_uid found lower)))
