-- ===== src/Invite.antt =====
-- Invite codes (internal/invite/invite.go): `OPL2.` and 27 bytes in URL-safe base64 without padding:
-- a flag, the host's 8-byte id, the pairing port, the 12-byte room key and a CRC-32 of these.
pub mod RoundTrip
pub mod Sound
mod Tests
use opl_core.Prelude.{
  ℕ, ◌+◌, ◌/◌, ◌*◌, ◌≡◌, Bool, true, false, not, ◌&&◌, ◌||◌, [], ◌∷◌, ◌++◌, if◌then◌else◌, ◌==◌,
  nat_eq, bytes_eq, Bytes, length, take, drop, Option, some, none, Result, ok, err,
}
use opl_core.Prelude.Binary.{at, slice, is_zero, put_u16, put_u32, get_u16, get_u32}
use opl_core.Codec.Hex
use opl_core.Codec.Base64
use opl_core.Codec.Crc32.{checksum_ieee}

pub data Error : Type 0 where
  format version : Error

pub record Invite : Type 0 where
  pub fixed_room_key : Bool
  pub host_uid : Bytes
  pub pair_port : ℕ
  pub room_key : Bytes

-- "OPL2."
abbrev pub prefix : Bytes
prefix = 79 ∷ 80 ∷ 76 ∷ 50 ∷ 46 ∷ []

abbrev pub payload_size : ℕ
payload_size = 27

abbrev pub fixed_flag : ℕ
fixed_flag = 1

-- the payload up to its checksum
unfoldable pub body : Invite → Bytes → Bytes
body v uid = (if v.fixed_room_key then fixed_flag else 0) ∷ uid ++ put_u16 v.pair_port ++ v.room_key

unfoldable pub encode_uid : Invite → Option Bytes → Result Error Bytes
unfolding body
encode_uid v none = err format
encode_uid v (some uid) =
    if not (length uid == 8)
      || not (v.host_uid == Hex.to_lower v.host_uid)
      || v.pair_port == 0
      || is_zero v.room_key
    then err format
    else ok (prefix ++ Base64.encode (body v uid ++ put_u32 (checksum_ieee (body v uid))))

unfoldable pub encode : Invite → Result Error Bytes
unfolding encode_uid
encode v = encode_uid v (Hex.decode v.host_uid)

unfoldable pub decode_payload : Option Bytes → Result Error Invite
decode_payload none = err format
decode_payload (some payload) =
    let room_key = slice payload 11 23 in
    let port = get_u16 payload 9 in
    if not (length payload == payload_size) || not (at payload 0 / 2 * 2 == 0)
    then err format
    else if not (checksum_ieee (take 23 payload) == get_u32 payload 23)
    then err format
    else if port == 0 || is_zero room_key
    then err format
    else ok (record {
      fixed_room_key = not (at payload 0 == 0);
      host_uid = Hex.encode (slice payload 1 9);
      pair_port = port;
      room_key = room_key;
    })

unfoldable pub decode : Bytes → Result Error Invite
unfolding decode_payload
decode code =
    if not (take 5 code == prefix)
    then err version
    else decode_payload (Base64.decode (drop 5 code))
