-- ===== src/Pairing/Client/Framed.antt =====
-- The messages of a pairing in their frames (internal/pairing/pairing.go).
use opl_core.Prelude.{
  ℕ, ◌+◌, ◌≡◌, ◌≤◌, true, false, [], ◌∷◌, ◌++◌, nat_eq, bytes_eq, Bytes, length, some, ok, arith,
  refl, sym, ap, ◌∙◌, append-nil, length-append,
}
use opl_core.Prelude.Addr.{is4}
use opl_core.Prelude.Binary.{is_zero, put_u32}
use opl_core.Codec.Sha256.{length-hmac}
use opl_core.Pairing.Messages.{
  ServerChallenge, ClientRequest, PairResult, marshal_challenge, parse_server_challenge,
  valid_auth_key, marshal_request, parse_client_request, valid_request, request_bytes,
  marshal_result, parse_pair_result, valid_result, result_without_mac,
}
use opl_core.Pairing.Messages.Frames.{
  write_frame, read_frame, valid_frame_type, read_frame-write_frame,
}
use opl_core.Pairing.Messages.RoundTrip.{
  request_lengths, length-request_bytes, length-marshalled, is4-v4, IsChallenge, IsRequest,
  IsResult, parse-marshal_challenge, parse-marshal_request, parse-marshal_result,
}
use opl_core.Pairing.Auth.{new_client_request, pair_ack, bytes_or_nil}

-- A frame is written if its type is known and it is not too long.
write_frame_total :
    (t : ℕ) (payload : Bytes)
    → valid_frame_type t ≡ true
    → 1 + length payload ≤ 16384
    → write_frame t payload ≡ ok (put_u32 (1 + length payload) ++ t ∷ payload)
unfolding write_frame
write_frame_total t payload v n = ground arith

abbrev pub framed : ℕ → Bytes → Bytes
framed t payload = bytes_or_nil (write_frame t payload)

pub read-framed :
    (t : ℕ) (payload rest : Bytes)
    → valid_frame_type t ≡ true
    → 1 + length payload ≤ 16384
    → (write_frame t payload ≡ ok (framed t payload))
      × (read_frame (framed t payload ++ rest) ≡ ok (t, payload, rest))
read-framed t payload rest v n =
    let w = write_frame_total t payload v n in
    let e : write_frame t payload ≡ ok (framed t payload) = rw w refl in
    (e, read_frame-write_frame t payload rest e)

module _ (challenge : ServerChallenge) (key uid name auth_key nonce : Bytes) where
  pub made_fields :
      {v : ClientRequest}
      → new_client_request challenge key uid name auth_key (some nonce) ≡ ok v
      → (v.client_nonce ≡ nonce)
        × (v.client_public_key ≡ key)
        × (v.uid ≡ uid)
        × (v.name ≡ name)
        × (valid_auth_key auth_key ≡ true)
        × (challenge.version ≡ 2)
        × (is_zero challenge.host_public_key ≡ false)
  unfolding new_client_request
  made_fields h = ground arith

is4_of : (v : PairResult) → valid_result v ≡ true → is4 v.assigned_ip ≡ true
unfolding valid_result
is4_of v h = ground arith

-- The bytes of a valid request fit a frame, and are read back.
pub request-framed :
    (v : ClientRequest) (rest : Bytes)
    → IsRequest v
    → valid_request v ≡ true
    → (write_frame 2 (request_bytes v) ≡ ok (framed 2 (request_bytes v)))
      × (read_frame (framed 2 (request_bytes v) ++ rest) ≡ ok (2, request_bytes v, rest))
      × (marshal_request v ≡ ok (request_bytes v))
      × (parse_client_request (request_bytes v) ≡ ok v)
unfolding marshal_request valid_frame_type
request-framed v rest s good =
    let (uid, name) = request_lengths v good in
    let (w, r) =
      read-framed 2 (request_bytes v) rest refl (omega (arith, length-request_bytes v s)) in
    let m : marshal_request v ≡ ok (request_bytes v) = rw good refl in
    (w, r, m, parse-marshal_request v s m)

pub result-framed :
    (v : PairResult) (rest : Bytes)
    → IsResult v
    → valid_result v ≡ true
    → v.status ≡ 0
    → (write_frame 3 (result_without_mac v ++ v.mac)
        ≡ ok (framed 3 (result_without_mac v ++ v.mac)))
      × (read_frame (framed 3 (result_without_mac v ++ v.mac) ++ rest)
          ≡ ok (3, result_without_mac v ++ v.mac, rest))
      × (marshal_result v ≡ ok (result_without_mac v ++ v.mac))
      × (parse_pair_result (result_without_mac v ++ v.mac) ≡ ok v)
      × (length (result_without_mac v ++ v.mac) ≡ 82)
unfolding marshal_result valid_frame_type
result-framed v rest s good zero_status =
    let (a, b, c, d, ip) = is4-v4 v.assigned_ip (is4_of v good) in
    let n = length-marshalled v s a b c d ip in
    let (w, r) = read-framed 3 (result_without_mac v ++ v.mac) rest refl (omega (arith, n)) in
    let m : marshal_result v ≡ ok (result_without_mac v ++ v.mac) = rw good refl in
    (w, r, m, parse-marshal_result v s zero_status m, n)

pub challenge-framed :
    (v : ServerChallenge) (rest : Bytes)
    → IsChallenge v
    → v.version ≡ 2
    → is_zero v.host_public_key ≡ false
    → (read_frame (framed 1 (marshal_challenge v) ++ rest) ≡ ok (1, marshal_challenge v, rest))
      × (parse_server_challenge (marshal_challenge v) ≡ ok v)
unfolding marshal_challenge valid_frame_type
challenge-framed v rest s two key = (
  (read-framed 1 (marshal_challenge v) rest refl
      (omega (arith, length-append v.server_nonce v.host_public_key, s.nonce, s.key))).1,
  parse-marshal_challenge v s two key,
)

pub ack-framed :
    (auth_key : Bytes) (revision : ℕ)
    → (write_frame 4 (pair_ack auth_key revision) ≡ ok (framed 4 (pair_ack auth_key revision)))
      × (read_frame (framed 4 (pair_ack auth_key revision))
          ≡ ok (4, pair_ack auth_key revision, []))
      × (length (pair_ack auth_key revision) ≡ 32)
unfolding valid_frame_type
ack-framed auth_key revision =
    let n : length (pair_ack auth_key revision) ≡ 32 = unfold pair_ack in length-hmac auth_key _ in
    let (w, r) = read-framed 4 (pair_ack auth_key revision) [] refl (omega (arith, n)) in
    (w, ap read_frame (sym (append-nil (framed 4 (pair_ack auth_key revision)))) ∙ r, n)
