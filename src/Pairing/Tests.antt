-- ===== src/Pairing/Tests.antt =====
-- Pairing at concrete inputs: the shared vectors (testdata/protocol-v2.json), and the theorems.
use opl_core.Prelude.{
  List, ℕ, ◌≡◌, ◌+◌, refl, true, [], ◌∷◌, ◌++◌, some, none, ok, Bytes, length, text, arith, map,
  bytes_eq,
}
use opl_core.Prelude.Addr.{v4, addr_eq}
use opl_core.Prelude.Binary.{zeroes, is_zero, put_u16, put_u32, put_u64, get_u16, get_u32}
use opl_core.Codec.Hex
use opl_core.Codec.Sha256.{sum256, hmac}
use opl_core.Codec.Utf8.{runes, is_space}
use opl_core.Pairing.Messages.{
  ServerChallenge, ClientRequest, PairResult, valid_name, valid_uid, valid_auth_key,
  marshal_challenge, marshal_request, parse_client_request, marshal_result, valid_request,
  valid_result, request_bytes, result_without_mac,
}
use opl_core.Pairing.Messages.RoundTrip.{parse-marshal_request}
use opl_core.Pairing.Messages.Frames.{
  write_frame, read_frame, read_frame-write_frame, write_frame-read_frame,
}
use opl_core.Pairing.Auth.{
  new_client_request, new_pair_result, request_mac, result_mac, pair_ack, derive_psk,
  request_message,
}
use opl_core.Prelude.{ℕ, ◌≤◌, true, err}
use opl_core.Prelude.Dict.{insert, lookup}
use opl_core.Pairing.Messages.{protocol}
use opl_core.Pairing.Server.{Assignment, acknowledged}
use opl_core.Pairing.Client.{pair_with_session, sync_answer, with_latency}
use opl_core.Pairing.Client.Framed.{framed}
use opl_core.Pairing.Client.Handshake.{
  host_challenge, host_side, member_side, CanPair, handshake_completes,
}
use opl_core.Pairing.Stats.RoundTrip.{IsListed}
use opl_core.Pairing.Control.{Server, answer_report, device_of, values}
use opl_core.Pairing.Control.Listing.{sync_answer-answer_report, all_devices, IsListing}
use opl_core.Pairing.Auth.Binding.{request_message_inj}
use opl_core.Pairing.Server.{ServerConfig, Connection, pair}
use opl_core.Pairing.Server.Settles.{Settled, pair-Settled}
use opl_core.Pairing.Stats.{
  Device, StatsReport, marshal_stats_report, parse_stats_report, marshal_devices, parse_devices,
}
use opl_core.Pairing.Stats.RoundTrip.{parse-marshal_stats_report, parse-marshal_devices}

abbrev room_key : Bytes
room_key = text "room-key-123"

abbrev key : ℕ → Bytes
key n = n ∷ zeroes 31

abbrev challenge : ServerChallenge
challenge = record { version = 2; server_nonce = key 1; host_public_key = key 7 }

abbrev unsigned : ClientRequest
unsigned = record {
  client_nonce = key 2;
  client_public_key = key 9;
  uid = text "uid-0001";
  name = text "bob";
  mac = [];
}

abbrev request : ClientRequest
request = record unsigned { mac = request_mac challenge unsigned room_key }

abbrev unsigned_result : PairResult
unsigned_result = record {
  status = 0;
  assigned_ip = v4 10 0 23 2;
  prefix_length = 24;
  wire_guard_port = 25674;
  discovery_relay_port = 25675;
  host_public_key = key 7;
  lease_revision = 1;
  mac = [];
}

abbrev result : PairResult
result = record unsigned_result { mac = result_mac challenge request unsigned_result room_key }

abbrev fixed_request : ClientRequest
fixed_request = record unsigned { mac = key 5 }

abbrev fixed_result : PairResult
fixed_result = record unsigned_result { mac = key 5 }

psk_vector :
    Hex.encode (derive_psk room_key (sum256 (text "host")) (sum256 (text "client")))
    ≡ text "7d6418a046ae5001403840d7c11b815fb90547e83a1dbea0d8f6a746da62d681"
unfolding derive_psk hmac sum256 Hex.encode put_u16 put_u32 put_u64 get_u32 get_u16
psk_vector = refl

ack_vector :
    Hex.encode (pair_ack room_key 1)
    ≡ text "f0eb8c057254ed358bd41753fd85fefcaefb19ea046cc05e67ee350b43b6b294"
unfolding pair_ack hmac sum256 Hex.encode put_u16 put_u32 put_u64 get_u32 get_u16
ack_vector = refl

abbrev byte_key : ℕ → Bytes
byte_key n = map (λ z. z + n) (zeroes 32)

abbrev vector_challenge : ServerChallenge
vector_challenge = record {
  version = 2;
  server_nonce = byte_key 1;
  host_public_key = sum256 (text "host");
}

-- the name in UTF-8
abbrev vector_request : ClientRequest
vector_request = record {
  client_nonce = byte_key 2;
  client_public_key = sum256 (text "client");
  uid = [];
  name = 231 ∷ 142 ∷ 169 ∷ 229 ∷ 174 ∷ 182 ∷ 228 ∷ 184 ∷ 128 ∷ [];
  mac = [];
}

request_vector :
    Hex.encode (request_mac vector_challenge vector_request room_key)
    ≡ text "ad80b72f890795293da494f12fa5811811a4f3daa6fe668376ba087e433a104b"
unfolding request_mac request_message hmac sum256 Hex.encode put_u16 put_u32 put_u64 get_u32 get_u16
request_vector = refl

made :
    new_client_request challenge (key 9) (text "uid-0001") (text "bob") room_key (some (key 2))
    ≡ ok request
unfolding new_client_request valid_uid valid_name valid_auth_key is_zero runes request_mac is_space
made = refl

answered : new_pair_result challenge request (v4 10 0 23 2) 24 25674 25675 1 room_key ≡ ok result
unfolding new_pair_result valid_auth_key is_zero result_mac request_mac
answered = refl

request_marshalled : marshal_request fixed_request ≡ ok (request_bytes fixed_request)
unfolding marshal_request valid_request valid_uid valid_name is_zero runes is_space
request_marshalled = refl

parse-marshal_request_example :
    parse_client_request (request_bytes fixed_request) ≡ ok fixed_request
parse-marshal_request_example =
    parse-marshal_request fixed_request (record { nonce = refl; key = refl; code = refl })
      request_marshalled

result_marshalled : marshal_result fixed_result ≡ ok (result_without_mac fixed_result ++ key 5)
unfolding marshal_result valid_result
result_marshalled = refl

abbrev ack_frame : Bytes
ack_frame = 0 ∷ 0 ∷ 0 ∷ 3 ∷ 4 ∷ 8 ∷ 9 ∷ []

frame_written : write_frame 4 (8 ∷ 9 ∷ []) ≡ ok ack_frame
unfolding write_frame put_u32 put_u16
frame_written = refl

read_frame-write_frame_example :
    read_frame (0 ∷ 0 ∷ 0 ∷ 3 ∷ 4 ∷ 8 ∷ 9 ∷ 1 ∷ []) ≡ ok (4, 8 ∷ 9 ∷ [], 1 ∷ [])
read_frame-write_frame_example = read_frame-write_frame 4 (8 ∷ 9 ∷ []) (1 ∷ []) frame_written

write_frame-read_frame_example :
    (b : Bytes) × (write_frame 4 (8 ∷ 9 ∷ []) ≡ ok b) × (b ++ [] ≡ ack_frame)
write_frame-read_frame_example =
    write_frame-read_frame ack_frame {r = (4, 8 ∷ 9 ∷ [], [])} (omega arith)
      (read_frame-write_frame 4 (8 ∷ 9 ∷ []) [] frame_written)

request_message_inj_example :
    (challenge ≡ challenge)
    × (fixed_request.client_nonce ≡ fixed_request.client_nonce)
    × (fixed_request.client_public_key ≡ fixed_request.client_public_key)
    × (fixed_request.uid ≡ fixed_request.uid)
    × (fixed_request.name ≡ fixed_request.name)
request_message_inj_example =
    request_message_inj challenge challenge fixed_request fixed_request
      (record { nonce = refl; key = refl }) (record { nonce = refl; key = refl })
      (record { nonce = refl; key = refl; code = refl })
      (record { nonce = refl; key = refl; code = refl }) (omega arith) (omega arith) refl

abbrev report : StatsReport
report = record { timestamp_ms = 1700000000000; uid = text "uid-0001"; rx_bytes = 5; tx_bytes = 6 }

abbrev report_bytes : Bytes
report_bytes = 8 ∷ (text "uid-0001" ++ (put_u64 5 ++ (put_u64 6 ++ put_u64 1700000000000)))

report_marshalled : marshal_stats_report report ≡ ok report_bytes
unfolding marshal_stats_report valid_uid runes is_space
report_marshalled = refl

parse-marshal_stats_report_example : parse_stats_report report_bytes ≡ ok report
parse-marshal_stats_report_example =
    parse-marshal_stats_report report
      (record { rx = omega arith; tx = omega arith; timestamp = omega arith }) report_marshalled

abbrev device : Device
device = record {
  latency_ms = 12;
  uid = text "uid-0001";
  virtual_ip = v4 10 0 23 2;
  rx_bytes = 5;
  tx_bytes = 6;
}

parse-marshal_devices_example : parse_devices (marshal_devices (device ∷ [])) ≡ ok (device ∷ [])
parse-marshal_devices_example =
    parse-marshal_devices (device ∷ [])
      (
        record {
          uid = unfold valid_uid runes is_space in refl;
          ip = refl;
          rx = omega arith;
          tx = omega arith;
          latency = omega arith;
        },
        tt,
      )
      (omega arith)

-- a room that counts the members it was asked to take
abbrev counting : ServerConfig ℕ
counting = record {
  host_public_key = key 7;
  wire_guard_port = 25674;
  discovery_relay_port = 25675;
  join_enabled = λ n. true;
  blocked_uid = none;
  known_member = none;
  member_auth_key = none;
  assign = λ k name r old n.
      (n + 1, ok (record { ip = v4 10 0 23 2; revision = 1; created = true; token = n }));
  pairing_failed = none;
  pairing_acknowledged = none;
  report_stats = none;
  host_device = device;
}

abbrev connection : Connection
connection = record {
  random = some (key 1);
  challenge_written = true;
  idle_deadline_set = true;
  stream =
      put_u32 110 ++ (2 ∷ (request_bytes request ++ (put_u32 33 ++ (4 ∷ pair_ack room_key 1))));
  result_written = true;
  configure_deadline_set = true;
}

pair-Settled_example : Settled counting connection room_key 0 (pair counting connection room_key 0)
pair-Settled_example = pair-Settled counting connection room_key 0

abbrev assignment : Assignment
assignment = record { ip = v4 10 0 23 2; revision = 1; created = true; token = 0 }

can_pair :
    CanPair counting room_key
      (key 1)
      (key 9)
      (text "uid-0001")
      (text "bob")
      (key 2)
      none
      request
      assignment
      0
      1
can_pair = record {
  host_key = refl;
  nonce_size = refl;
  key_size = refl;
  random_size = refl;
  made = made;
  unblocked = refl;
  allowed = refl;
  assigns = refl;
  ip = refl;
  wire_guard_port = (omega arith, omega arith);
  relay_port = (omega arith, omega arith);
  revision = omega arith;
  configures = λ r. refl;
}

handshake_completes_example :
    (from_host from_member answer : Bytes) × (r : PairResult) × (from_host
      ≡ framed 1 (marshal_challenge (host_challenge counting (key 1))) ++ framed 3 answer)
    × (pair_with_session
          (member_side (key 2) none from_host)
          room_key
          (key 9)
          (text "uid-0001")
          (text "bob")
        ≡ record { sent = from_member; outcome = ok r })
    × (pair counting (host_side (key 1) from_member) room_key 0 ≡ record {
      answer = some answer;
      state = acknowledged counting request.client_public_key assignment 1;
      member = some (request, assignment);
    })
    × (r.assigned_ip ≡ v4 10 0 23 2)
    × (r.lease_revision ≡ 1)
handshake_completes_example =
    handshake_completes counting room_key (key 1) (key 9) (text "uid-0001") (text "bob") (key 2)
      none request assignment 0 1 can_pair

device-IsListed : IsListed device
device-IsListed = record {
  uid = unfold valid_uid runes is_space in refl;
  ip = refl;
  rx = omega arith;
  tx = omega arith;
  latency = omega arith;
}

abbrev no_devices : Server
no_devices = record { devices = []; member_uids = []; device_owners = []; room_key = room_key }

own_device-IsListed : IsListed (device_of no_devices (key 9) (v4 10 0 23 3) 1700000000005 report)
unfolding device_of lookup
own_device-IsListed = record {
  uid = unfold valid_uid runes is_space in refl;
  ip = refl;
  rx = omega arith;
  tx = omega arith;
  latency = omega arith;
}

abbrev own_device : Device
own_device = device_of no_devices (key 9) (v4 10 0 23 3) 1700000000005 report

abbrev both_devices : List Device
both_devices = device ∷ own_device ∷ []

both_are_all : both_devices ≡ all_devices device (insert (key 9) own_device [])
unfolding insert values
both_are_all = refl

sync_answer-answer_report_example :
    (frame : Bytes) × (ds : List Device) × ((answer_report counting 1
        (key 9)
        (v4 10 0 23 3)
        1700000000005
        no_devices
        0
        report).written
      ≡ some frame)
    × IsListing both_devices ds
    × (length both_devices ≤ 253 → sync_answer 3 (read_frame frame) ≡ ok (with_latency 3 ds))
    × (length both_devices ≡ 254 → sync_answer 3 (read_frame frame) ≡ err protocol)
unfolding values
sync_answer-answer_report_example =
    sync_answer-answer_report counting 1 (key 9) (v4 10 0 23 3) 1700000000005 3 no_devices 0 report
      both_devices both_are_all refl device-IsListed tt own_device-IsListed (omega arith)
