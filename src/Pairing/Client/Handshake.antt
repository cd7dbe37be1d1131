-- ===== src/Pairing/Client/Handshake.antt =====
-- A member and a host that talk to each other (internal/pairing/network.go): what `pairWithSession`
-- sends is what `pair` reads, and the other way round.
use opl_core.Prelude.{
  ◌≡◌, ◌≤◌, ◌<◌, Bool, true, false, not, ◌&&◌, [], ◌++◌, ◌==◌, ==_self, nat_eq, bytes_eq, Bytes,
  length, Option, some, ok, arith, refl, sym, ap, ◌∙◌, subst, append-nil,
}
use opl_core.Prelude.Addr.{is4}
use opl_core.Prelude.Binary.{is_zero}
use opl_core.Codec.Sha256.{length-hmac}
use opl_core.Pairing.Messages.{
  ServerChallenge, ClientRequest, PairResult, new_server_challenge, marshal_challenge,
  valid_auth_key, valid_request, request_bytes, valid_result, result_without_mac,
}
use opl_core.Pairing.Messages.Frames.{read_frame}
use opl_core.Pairing.Messages.RoundTrip.{IsRequest, IsResult}
use opl_core.Pairing.Auth.{
  new_client_request, verify_client_request, new_pair_result, verify_pair_result, pair_ack,
  verify_pair_ack, result_mac, verify-new_client_request, verify-new_pair_result,
}
use opl_core.Pairing.Server.{
  Assignment, ServerConfig, Connection, pair, challenge_client, read_request, admit_request,
  assigned, answer_member, settle, acknowledged, asked, auth_key_of,
}
use opl_core.Pairing.Client.{
  Link, pair_with_session, on_challenge_frame, on_challenge, on_request, send_request,
  on_result_frame, on_result, send_ack, configure_fails,
}
use opl_core.Pairing.Client.Framed.{
  framed, made_fields, challenge-framed, request-framed, result-framed, ack-framed,
}

-- The challenge of a host, and connections on which everything that is written arrives.
abbrev pub host_challenge : {S : Type 0} → ServerConfig S → Bytes → ServerChallenge
host_challenge config nonce = record {
  version = 2;
  server_nonce = nonce;
  host_public_key = config.host_public_key;
}

abbrev pub host_side : Bytes → Bytes → Connection
host_side nonce stream = record {
  random = some nonce;
  challenge_written = true;
  idle_deadline_set = true;
  stream = stream;
  result_written = true;
  configure_deadline_set = true;
}

abbrev pub member_side : Bytes → Option (PairResult → Bool) → Bytes → Link
member_side random configure stream = record {
  random = some random;
  stream = stream;
  request_written = true;
  configure_deadline_set = true;
  configure = configure;
  ack_written = true;
}

-- A host and a member that hold one room key, a room that takes the member, and an assignment that can
-- be written into a result.
pub record CanPair {S : Type 0} (config : ServerConfig S)
    (room_key nonce key uid name random : Bytes) (configure : Option (PairResult → Bool))
    (request : ClientRequest) (a : Assignment) (s s' : S) : Type 0 where
  pub host_key : length config.host_public_key ≡ 32
  pub nonce_size : length nonce ≡ 32
  pub key_size : length key ≡ 32
  pub random_size : length random ≡ 32
  pub made :
      new_client_request (host_challenge config nonce) key uid name room_key (some random)
      ≡ ok request
  pub unblocked : (not (uid == []) && asked config config.blocked_uid s uid) ≡ false
  pub allowed :
      (not (config.join_enabled s) && not (asked config config.known_member s key)) ≡ false
  pub assigns : config.assign key name room_key false s ≡ (s', ok a)
  pub ip : is4 a.ip ≡ true
  pub wire_guard_port : (1 ≤ config.wire_guard_port) × (config.wire_guard_port < 65536)
  pub relay_port : (1 ≤ config.discovery_relay_port) × (config.discovery_relay_port < 65536)
  pub revision : a.revision < 18446744073709551616
  pub configures :
      (r : PairResult) → configure_fails (member_side random configure []) configure r ≡ false

module _ {S : Type 0} (config : ServerConfig S) (room_key nonce key uid name random : Bytes)
    (configure : Option (PairResult → Bool)) (request : ClientRequest) (a : Assignment) (s s' : S)
    (can : CanPair config room_key nonce key uid name random configure request a s s') where
  abbrev challenge : ServerChallenge
  challenge = host_challenge config nonce

  abbrev unsigned : PairResult
  unsigned = record {
    status = 0;
    assigned_ip = a.ip;
    prefix_length = 24;
    wire_guard_port = config.wire_guard_port;
    discovery_relay_port = config.discovery_relay_port;
    host_public_key = config.host_public_key;
    lease_revision = a.revision;
    mac = [];
  }

  abbrev result : PairResult
  result = record unsigned { mac = result_mac challenge request unsigned room_key }

  abbrev answer : Bytes
  answer = result_without_mac result ++ result.mac

  checks :
      (verify_client_request challenge request room_key ≡ true)
      × (valid_request request ≡ true)
      × (length request.mac ≡ 32)
  checks = verify-new_client_request challenge key uid name room_key random can.made

  shape : IsRequest request
  shape =
      let (nonce_is, key_is, uid_is, name_is, auth, version, host) =
        made_fields challenge key uid name room_key random can.made in
      record { nonce = rw nonce_is can.random_size; key = rw key_is can.key_size; code = checks.2 }

  host_valid : is_zero config.host_public_key ≡ false
  host_valid =
      let (nonce_is, key_is, uid_is, name_is, auth, version, host) =
        made_fields challenge key uid name room_key random can.made in
      host

  auth_valid : valid_auth_key room_key ≡ true
  auth_valid =
      let (nonce_is, key_is, uid_is, name_is, auth, version, host) =
        made_fields challenge key uid name room_key random can.made in
      auth

  new_result :
      new_pair_result challenge request a.ip 24 config.wire_guard_port config.discovery_relay_port
        a.revision room_key
      ≡ ok result
  unfolding new_pair_result
  new_result = ground (arith, can.ip, auth_valid, can.wire_guard_port, can.relay_port)

  result_checks :
      (verify_pair_result challenge request result room_key ≡ true) × (valid_result result ≡ true)
  result_checks =
      let (v, good, status, ip, revision) =
        verify-new_pair_result challenge request a.ip 24 config.wire_guard_port
          config.discovery_relay_port a.revision room_key new_result in
      (v, good)

  result_shape : IsResult result
  unfolding result_mac
  result_shape = record {
    key = can.host_key;
    code = length-hmac room_key _;
    wire_guard_port = can.wire_guard_port.1;
    discovery_relay_port = can.relay_port.1;
    lease_revision = can.revision;
  }

  abbrev sent : Bytes
  sent = framed 2 (request_bytes request) ++ framed 4 (pair_ack room_key a.revision)

  abbrev received : Bytes
  received = framed 1 (marshal_challenge challenge) ++ framed 3 answer

  member_done :
      pair_with_session (member_side random configure received) room_key key uid name
      ≡ record { sent = sent; outcome = ok result }
  unfolding pair_with_session on_challenge_frame on_challenge on_request send_request
      on_result_frame on_result send_ack
  member_done =
      let (read_c, parse_c) =
        challenge-framed challenge (framed 3 answer)
          (record { nonce = can.nonce_size; key = can.host_key }) refl host_valid in
      let (write_r, read_r, marshal_r, parse_r) = request-framed request [] shape checks.1 in
      let (write_a, read_a, marshal_a, parse_a, size) =
        result-framed result [] result_shape result_checks.1 refl in
      let (write_k, read_k, ack_size) = ack-framed room_key a.revision in
      let read_a' : read_frame (framed 3 answer) ≡ ok (3, answer, []) =
        ap read_frame (sym (append-nil (framed 3 answer))) ∙ read_a in
      rw
        (
          read_c,
          parse_c,
          can.made,
          marshal_r,
          write_r,
          read_a',
          size,
          parse_a,
          result_checks.0,
          can.configures result,
          write_k,
        )
        refl

  unblocked : (not (request.uid == []) && asked config config.blocked_uid s request.uid) ≡ false
  unblocked =
      let (nonce_is, key_is, uid_is, name_is, auth, version, host) =
        made_fields challenge key uid name room_key random can.made in
      subst (λ u. (not (u == []) && asked config config.blocked_uid s u) ≡ false) (sym uid_is)
        can.unblocked

  allowed :
      (not (config.join_enabled s)
        && not (asked config config.known_member s request.client_public_key))
      ≡ false
  allowed =
      let (nonce_is, key_is, uid_is, name_is, auth, version, host) =
        made_fields challenge key uid name room_key random can.made in
      subst
        (λ k. (not (config.join_enabled s) && not (asked config config.known_member s k)) ≡ false)
        (sym key_is) can.allowed

  assigns : config.assign request.client_public_key request.name room_key false s ≡ (s', ok a)
  assigns =
      let (nonce_is, key_is, uid_is, name_is, auth, version, host) =
        made_fields challenge key uid name room_key random can.made in
      ap (λ k. config.assign k request.name room_key false s) key_is
      ∙ ap (λ n. config.assign key n room_key false s) name_is
      ∙ can.assigns

  ack_valid : verify_pair_ack room_key a.revision (pair_ack room_key a.revision) ≡ true
  unfolding verify_pair_ack
  ack_valid = ground (arith, auth_valid, ==_self (pair_ack room_key a.revision))

  settled :
      answer_member config
        (host_side nonce sent)
        request
        room_key
        a
        (framed 4 (pair_ack room_key a.revision))
        s'
        (ok result)
      ≡ record {
        answer = some answer;
        state = acknowledged config request.client_public_key a s';
        member = some (request, a);
      }
  unfolding answer_member settle
  settled =
      let (write_a, read_a, marshal_a, parse_a, size) =
        result-framed result [] result_shape result_checks.1 refl in
      let (write_k, read_k, ack_size) = ack-framed room_key a.revision in
      rw (marshal_a, read_k, ack_size, ack_valid) refl

  taken :
      admit_request config
        (host_side nonce sent)
        challenge
        room_key
        (framed 4 (pair_ack room_key a.revision))
        s
        (ok request)
      ≡ record {
        answer = some answer;
        state = acknowledged config request.client_public_key a s';
        member = some (request, a);
      }
  unfolding admit_request auth_key_of assigned
  taken = rw (checks.0, checks.0, unblocked, allowed, assigns, new_result) settled

  host_done : pair config (host_side nonce sent) room_key s ≡ record {
    answer = some answer;
    state = acknowledged config request.client_public_key a s';
    member = some (request, a);
  }
  unfolding pair new_server_challenge challenge_client read_request
  host_done =
      let (write_r, read_r, marshal_r, parse_r) =
        request-framed request (framed 4 (pair_ack room_key a.revision)) shape checks.1 in
      let c : new_server_challenge config.host_public_key (some nonce) ≡ ok challenge =
        rw host_valid refl in
      rw (c, read_r, parse_r) taken

-- A member and a host with one room key that can pair do: the bytes that the one sends are those that
-- the other reads, the member ends with a result that carries the address and the revision of its
-- assignment, and the host ends with the member and the state that acknowledging it leaves.
pub handshake_completes :
    {S : Type 0} (config : ServerConfig S) (room_key nonce key uid name random : Bytes)
    (configure : Option (PairResult → Bool)) (request : ClientRequest) (a : Assignment) (s s' : S)
    → CanPair config room_key nonce key uid name random configure request a s s'
    → (from_host from_member answer : Bytes) × (r : PairResult) × (from_host
        ≡ framed 1 (marshal_challenge (host_challenge config nonce)) ++ framed 3 answer)
      × (pair_with_session (member_side random configure from_host) room_key key uid name
          ≡ record { sent = from_member; outcome = ok r })
      × (pair config (host_side nonce from_member) room_key s ≡ record {
        answer = some answer;
        state = acknowledged config request.client_public_key a s';
        member = some (request, a);
      })
      × (r.assigned_ip ≡ a.ip)
      × (r.lease_revision ≡ a.revision)
handshake_completes config room_key nonce key uid name random configure request a s s' can = (
  received config room_key nonce key uid name random configure request a s s' can,
  sent config room_key nonce key uid name random configure request a s s' can,
  answer config room_key nonce key uid name random configure request a s s' can,
  result config room_key nonce key uid name random configure request a s s' can,
  refl,
  member_done config room_key nonce key uid name random configure request a s s' can,
  host_done config room_key nonce key uid name random configure request a s s' can,
  refl,
  refl,
)
