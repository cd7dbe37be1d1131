-- ===== src/Invite/Tests.antt =====
-- The test vector of internal/invite/invite_test.go, and the theorems at it.
use opl_core.Prelude.{◌≡◌, ◌<◌, refl, [], ◌∷◌, ok, err, true, Bytes, arith, text}
use opl_core.Prelude.Binary.{IsArray, is_zero, put_u16, put_u32}
use opl_core.Codec.Hex
use opl_core.Codec.Base64
use opl_core.Codec.Crc32.{checksum_ieee}
use opl_core.Invite.{Invite, encode, decode, version}
use opl_core.Invite.RoundTrip.{decode-encode_invite}
use opl_core.Invite.Sound.{encode-decode_invite}

abbrev sample : Invite
sample = record {
  fixed_room_key = true;
  host_uid = text "0123456789abcdef";
  pair_port = 25673;
  room_key = 0 ∷ 1 ∷ 2 ∷ 3 ∷ 4 ∷ 5 ∷ 6 ∷ 7 ∷ 8 ∷ 9 ∷ 10 ∷ 11 ∷ [];
}

abbrev sample_code : Bytes
sample_code = text "OPL2.AQEjRWeJq83vZEkAAQIDBAUGBwgJCgs_FMSY"

sample_encoded : encode sample ≡ ok sample_code
unfolding encode Hex.decode Hex.to_lower Base64.encode Base64.digit checksum_ieee put_u16 put_u32
    is_zero
sample_encoded = refl

other_prefix : decode (text "OPL1.AQEj") ≡ err version
unfolding decode
other_prefix = refl

decode-encode_invite_example : decode sample_code ≡ ok sample
decode-encode_invite_example =
    decode-encode_invite sample (omega arith) (omega arith) sample_encoded

encode-decode_invite_example :
    (again : Bytes) × (encode sample ≡ ok again)
    × (decode again ≡ ok sample)
    × (sample.pair_port < 65536)
    × IsArray 12 sample.room_key
encode-decode_invite_example =
    encode-decode_invite sample_code {v = sample} decode-encode_invite_example
