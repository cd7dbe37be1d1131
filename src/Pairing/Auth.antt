-- ===== src/Pairing/Auth.antt =====
-- Who may pair, and with what answer (internal/pairing/pairing.go): the codes over the messages of
-- the handshake. An authentication key is a room key or the pre-shared key of a member.
-- `hmac.Equal` is equality of the codes.
pub mod Binding
use opl_core.Prelude.{
  ℕ, ◌≡◌, ◌<◌, ◌≤◌, ◌%◌, Bool, true, false, not, ◌&&◌, ◌||◌, List, [], ◌∷◌, ◌++◌, if◌then◌else◌,
  ◌==◌, ==_self, nat_eq, bytes_eq, Bytes, length, Option, some, none, Result, ok, err, ltb, leb,
  text, Bool-cases, inl, inr, arith, refl, ok_inj, subst,
}
use opl_core.Prelude.Addr.{Addr, is4}
use opl_core.Prelude.Binary.{is_zero, put_u64}
use opl_core.Codec.Sha256.{sum256, hmac, length-hmac}
use opl_core.Pairing.Messages.{
  Error, protocol, unexpected_eof, ServerChallenge, ClientRequest, PairResult, protocol_version,
  status_ok, valid_name, valid_uid_or_none, valid_auth_key, valid_request, valid_result,
  marshal_challenge, marshal_request, result_without_mac,
}

abbrev pub request_domain : Bytes
request_domain = text "OPL2-PAIR-REQUEST"

abbrev pub result_domain : Bytes
result_domain = text "OPL2-PAIR-RESULT"

abbrev pub ack_domain : Bytes
ack_domain = text "OPL2-PAIR-ACK"

abbrev pub psk_domain : Bytes
psk_domain = text "OPL2-WG-PSK"

-- what `requestMAC` writes to the hash
unfoldable pub request_message : ServerChallenge → ClientRequest → Bytes
request_message challenge request =
    request_domain
    ++ challenge.version
      ∷ (challenge.server_nonce
          ++ (request.client_nonce
              ++ (challenge.host_public_key
                  ++ (request.client_public_key
                      ++ length request.uid % 256
                        ∷ (request.uid ++ length request.name % 256 ∷ request.name)))))

unfoldable pub request_mac : ServerChallenge → ClientRequest → Bytes → Bytes
unfolding request_message
request_mac challenge request auth_key = hmac auth_key (request_message challenge request)

-- `random` is what the random source returns: 32 bytes, or `none` for its error.
unfoldable pub new_client_request :
    ServerChallenge → Bytes → Bytes → Bytes → Bytes → Option Bytes → Result Error ClientRequest
unfolding request_mac
new_client_request challenge client_public_key uid name auth_key random =
    if not (valid_uid_or_none uid)
      || not (valid_name name)
      || not (valid_auth_key auth_key)
      || is_zero client_public_key
      || not (challenge.version == protocol_version)
      || is_zero challenge.host_public_key
    then err protocol
    else elim random [
      | none ↦ err unexpected_eof
      | some nonce ↦
          let v : ClientRequest = record {
            client_nonce = nonce;
            client_public_key = client_public_key;
            uid = uid;
            name = name;
            mac = [];
          } in
          ok (record v { mac = request_mac challenge v auth_key })
    ]

unfoldable pub verify_client_request : ServerChallenge → ClientRequest → Bytes → Bool
unfolding request_mac
verify_client_request challenge request auth_key =
    if not (challenge.version == protocol_version)
      || is_zero challenge.host_public_key
      || is_zero request.client_public_key
      || not (valid_uid_or_none request.uid)
      || not (valid_auth_key auth_key)
      || not (valid_name request.name)
    then false
    else request_mac challenge request auth_key == request.mac

-- `b, _ := request.MarshalBinary()`
abbrev pub bytes_or_nil : Result Error Bytes → Bytes
bytes_or_nil (ok b) = b
bytes_or_nil (err e) = []

unfoldable pub result_mac : ServerChallenge → ClientRequest → PairResult → Bytes → Bytes
result_mac challenge request result auth_key =
    let transcript =
      sum256 (marshal_challenge challenge ++ bytes_or_nil (marshal_request request)) in
    hmac auth_key (result_domain ++ (transcript ++ result_without_mac result))

unfoldable pub new_pair_result :
    ServerChallenge → ClientRequest → Addr → ℕ → ℕ → ℕ → ℕ → Bytes → Result Error PairResult
unfolding result_mac
new_pair_result challenge request assigned_ip prefix wire_guard_port relay_port revision auth_key =
    let v : PairResult = record {
      status = status_ok;
      assigned_ip = assigned_ip;
      prefix_length = prefix;
      wire_guard_port = wire_guard_port;
      discovery_relay_port = relay_port;
      host_public_key = challenge.host_public_key;
      lease_revision = revision;
      mac = [];
    } in
    if not (is4 assigned_ip)
      || ltb 32 prefix
      || wire_guard_port == 0
      || relay_port == 0
      || not (valid_auth_key auth_key)
    then err protocol
    else ok (record v { mac = result_mac challenge request v auth_key })

unfoldable pub verify_pair_result : ServerChallenge → ClientRequest → PairResult → Bytes → Bool
unfolding result_mac
verify_pair_result challenge request result auth_key =
    if not (result.status == status_ok)
      || not (is4 result.assigned_ip)
      || ltb 32 result.prefix_length
      || result.wire_guard_port == 0
      || result.discovery_relay_port == 0
      || not (result.host_public_key == challenge.host_public_key)
      || not (valid_auth_key auth_key)
    then false
    else result_mac challenge request result auth_key == result.mac

unfoldable pub pair_ack : Bytes → ℕ → Bytes
pair_ack auth_key revision = hmac auth_key (ack_domain ++ put_u64 revision)

unfoldable pub verify_pair_ack : Bytes → ℕ → Bytes → Bool
unfolding pair_ack
verify_pair_ack auth_key revision mac =
    if not (valid_auth_key auth_key) then false else pair_ack auth_key revision == mac

unfoldable pub derive_psk : Bytes → Bytes → Bytes → Bytes
derive_psk room_key host_public_key client_public_key =
    hmac room_key (psk_domain ++ (host_public_key ++ client_public_key))

-- A request that a client makes is one that its server takes, if both hold the same key; it can be
-- marshalled, and its code fills its field.
pub verify-new_client_request :
    (challenge : ServerChallenge) (key uid name auth_key nonce : Bytes) {v : ClientRequest}
    → new_client_request challenge key uid name auth_key (some nonce) ≡ ok v
    → (verify_client_request challenge v auth_key ≡ true)
      × (valid_request v ≡ true)
      × (length v.mac ≡ 32)
unfolding new_client_request verify_client_request valid_request request_mac request_message
verify-new_client_request challenge key uid name auth_key nonce {v} h =
    ground (arith, ==_self v.mac, length-hmac auth_key (request_message challenge v))

-- A result that the server makes is one that the client takes, if both hold the same key.
pub verify-new_pair_result :
    (challenge : ServerChallenge) (request : ClientRequest) (ip : Addr)
    (prefix wire_guard_port relay_port revision : ℕ) (auth_key : Bytes) {v : PairResult}
    → new_pair_result challenge request ip prefix wire_guard_port relay_port revision auth_key
      ≡ ok v
    → (verify_pair_result challenge request v auth_key ≡ true)
      × (valid_result v ≡ true)
      × (v.status ≡ 0)
      × (v.assigned_ip ≡ ip)
      × (v.lease_revision ≡ revision)
unfolding new_pair_result verify_pair_result valid_result result_mac result_without_mac
verify-new_pair_result challenge request ip prefix wg relay revision auth_key {v} h =
    ground (arith, ==_self v.mac, ==_self challenge.host_public_key)
