-- ===== src/Pairing/Server.antt =====
-- The host's pairing server (internal/pairing/network.go): what `pair` and `control` do with one
-- connection. `S` is the state behind the server's callbacks, which the room owns; a callback that is
-- nil is `none`. The mutexes make the accesses to the tables single steps.
pub mod Settles
use opl_core.Prelude.{
  ℕ, ◌≡◌, Bool, true, false, not, ◌&&◌, ◌||◌, List, [], ◌∷◌, ◌++◌, if◌then◌else◌, ◌==◌, nat_eq,
  bytes_eq, Bytes, length, Option, some, none, Result, ok, err, is_some,
}
use opl_core.Prelude.Dict.{Dict, lookup, insert, erase}
use opl_core.Prelude.Addr.{Addr}
use opl_core.Pairing.Messages.{
  Error, room_full, member_disabled, ServerChallenge, ClientRequest, PairResult,
  new_server_challenge, marshal_challenge, parse_client_request, marshal_result,
}
use opl_core.Pairing.Messages.Frames.{frame_client_request, frame_pair_ack, read_frame}
use opl_core.Pairing.Auth.{verify_client_request, new_pair_result, verify_pair_ack, bytes_or_nil}
use opl_core.Pairing.Stats.{Device}

pub record Assignment : Type 0 where
  pub ip : Addr
  pub revision : ℕ
  pub created : Bool
  pub token : ℕ

pub record ServerConfig (S : Type 0) : Type 0 where
  pub host_public_key : Bytes
  pub wire_guard_port : ℕ
  pub discovery_relay_port : ℕ
  pub join_enabled : S → Bool
  pub blocked_uid : Option (S → Bytes → Bool)
  pub known_member : Option (S → Bytes → Bool)
  pub member_auth_key : Option (S → Bytes → Option Bytes)
  pub assign : Bytes → Bytes → Bytes → Bool → S → S × Result Error Assignment
  pub pairing_failed : Option (Bytes → Assignment → S → S)
  pub pairing_acknowledged : Option (Bytes → Assignment → S → S)
  pub report_stats : Option (Bytes → Device → S → S)
  pub host_device : Device

-- What one connection brings: the nonce, whether writes and deadlines succeed, and the bytes that
-- the client sends.
pub record Connection : Type 0 where
  pub random : Option Bytes
  pub challenge_written : Bool
  pub idle_deadline_set : Bool
  pub stream : Bytes
  pub result_written : Bool
  pub configure_deadline_set : Bool

-- The frame `PairResult` that the server writes last, if any, the state of the room, and the member.
pub record PairRun (S : Type 0) : Type 0 where
  pub answer : Option Bytes
  pub state : S
  pub member : Option (ClientRequest × Assignment)

abbrev pub status_auth_failed : ℕ
status_auth_failed = 1

abbrev pub status_join_paused : ℕ
status_join_paused = 2

abbrev pub status_member_disabled : ℕ
status_member_disabled = 5

-- the status for an error of `Assign`
unfoldable pub assign_status : Error → ℕ
assign_status room_full = 3
assign_status member_disabled = 5
assign_status _ = 4

module _ {S : Type 0} (config : ServerConfig S) where
  -- a callback that is not nil and answers yes
  abbrev pub asked : Option (S → Bytes → Bool) → S → Bytes → Bool
  asked none s x = false
  asked (some f) s x = f s x

  abbrev pub member_key : Option (S → Bytes → Option Bytes) → S → Bytes → Option Bytes
  member_key none s key = none
  member_key (some f) s key = f s key

  unfoldable pub failed : Bytes → Assignment → S → S
  failed key assignment s = elim config.pairing_failed [ none ↦ s | some f ↦ f key assignment s ]

  unfoldable pub acknowledged : Bytes → Assignment → S → S
  acknowledged key assignment s = elim config.pairing_acknowledged [
    | none ↦ s
    | some f ↦ f key assignment s
  ]

  abbrev pub ended : S → PairRun S
  ended s = record { answer = none; state = s; member = none }

  abbrev pub refused : ℕ → S → PairRun S
  refused status s = record { answer = some (status ∷ []); state = s; member = none }

  -- The key that the request is authenticated under, and whether it is the member's own.
  unfoldable pub auth_key_of : ServerChallenge → ClientRequest → Bytes → S → Bytes × Bool
  auth_key_of challenge request room_key s =
      if verify_client_request challenge request room_key
      then (room_key, false)
      else elim (member_key config.member_auth_key s request.client_public_key) [
        | none ↦ (room_key, false)
        | some key ↦
            if verify_client_request challenge request key then (key, true) else (room_key, false)
      ]

  -- The acknowledgement, after the result has been written.
  unfoldable pub settle :
      Bytes → ClientRequest → Assignment → Bytes → S → Result Error (ℕ × Bytes × Bytes) → PairRun S
  unfolding failed acknowledged
  settle auth_key request assignment answer s (err e) = record {
    answer = some answer;
    state = failed request.client_public_key assignment s;
    member = none;
  }
  settle auth_key request assignment answer s (ok frame) =
      let gave_up : PairRun S = record {
        answer = some answer;
        state = failed request.client_public_key assignment s;
        member = none;
      } in
      if not (frame.0 == frame_pair_ack) || not (length frame.1 == 32)
      then gave_up
      else if not (verify_pair_ack auth_key assignment.revision frame.1)
      then gave_up
      else record {
        answer = some answer;
        state = acknowledged request.client_public_key assignment s;
        member = some (request, assignment);
      }

  -- The result for a member that has its assignment.
  unfoldable pub answer_member :
      Connection
      → ClientRequest
      → Bytes
      → Assignment
      → Bytes
      → S
      → Result Error PairResult
      → PairRun S
  unfolding settle failed
  answer_member connection request auth_key assignment stream s (err e) = record {
    answer = none;
    state = failed request.client_public_key assignment s;
    member = none;
  }
  answer_member connection request auth_key assignment stream s (ok result) =
      let answer = bytes_or_nil (marshal_result result) in
      if not connection.result_written || not connection.configure_deadline_set
      then record {
        answer = some answer;
        state = failed request.client_public_key assignment s;
        member = none;
      }
      else settle auth_key request assignment answer s (read_frame stream)

  unfoldable pub assigned :
      Connection
      → ServerChallenge
      → ClientRequest
      → Bytes
      → Bytes
      → S × Result Error Assignment
      → PairRun S
  unfolding answer_member assign_status
  assigned connection challenge request auth_key stream (s, err e) = refused (assign_status e) s
  assigned connection challenge request auth_key stream (s, ok assignment) =
      answer_member connection request auth_key assignment stream s (
        new_pair_result challenge request assignment.ip 24 config.wire_guard_port
          config.discovery_relay_port assignment.revision auth_key)

  -- What the server does with a request that it could read.
  unfoldable pub admit_request :
      Connection → ServerChallenge → Bytes → Bytes → S → Result Error ClientRequest → PairRun S
  unfolding auth_key_of assigned
  admit_request connection challenge room_key stream s (err e) = refused status_auth_failed s
  admit_request connection challenge room_key stream s (ok request) =
      let auth = auth_key_of challenge request room_key s in
      let key = request.client_public_key in
      if not (verify_client_request challenge request auth.0)
      then refused status_auth_failed s
      else if not (request.uid == []) && asked config.blocked_uid s request.uid
      then refused status_member_disabled s
      else if not (config.join_enabled s) && not (asked config.known_member s key)
      then refused status_join_paused s
      else assigned connection challenge request auth.0 stream
          (config.assign key request.name room_key auth.1 s)

  unfoldable pub read_request :
      Connection → ServerChallenge → Bytes → S → Result Error (ℕ × Bytes × Bytes) → PairRun S
  unfolding admit_request
  read_request connection challenge room_key s (err e) = ended s
  read_request connection challenge room_key s (ok frame) =
      if not (frame.0 == frame_client_request)
      then ended s
      else admit_request connection challenge room_key frame.2 s (parse_client_request frame.1)

  unfoldable pub challenge_client :
      Connection → Bytes → S → Result Error ServerChallenge → PairRun S
  unfolding read_request
  challenge_client connection room_key s (err e) = ended s
  challenge_client connection room_key s (ok challenge) =
      if not connection.challenge_written || not connection.idle_deadline_set
      then ended s
      else read_request connection challenge room_key s (read_frame connection.stream)

  unfoldable pub pair : Connection → Bytes → S → PairRun S
  unfolding challenge_client
  pair connection room_key s =
      challenge_client connection room_key s
        (new_server_challenge config.host_public_key connection.random)
