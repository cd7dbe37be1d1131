-- ===== src/Pairing/Client.antt =====
-- The member's side of a pairing (internal/pairing/network.go, `pairWithSession`), and how its control
-- session reads the host's answers (`Sync`).
pub mod Framed
pub mod Handshake
use opl_core.Prelude.{
  ℕ, zero, suc, ◌+◌, ◌≡◌, Bool, true, false, not, ◌&&◌, ◌||◌, List, [], ◌∷◌, ◌++◌, if◌then◌else◌,
  ◌==◌, nat_eq, bytes_eq, Bytes, length, Option, some, none, Result, ok, err, ltb,
}
use opl_core.Prelude.Addr.{Addr, v4, addr_eq}
use opl_core.Prelude.Binary.{at}
use opl_core.Pairing.Messages.{
  Error, protocol, auth_failed, join_paused, room_full, member_disabled, eof, outside,
  ServerChallenge, ClientRequest, PairResult, parse_server_challenge, marshal_request,
  parse_pair_result,
}
use opl_core.Pairing.Messages.Frames.{
  frame_server_challenge, frame_client_request, frame_pair_result, frame_pair_ack,
  frame_stats_report, frame_device_snapshot, write_frame, read_frame, valid_failure_status,
}
use opl_core.Pairing.Auth.{new_client_request, verify_pair_result, pair_ack, bytes_or_nil}
use opl_core.Pairing.Stats.{Device, StatsReport, marshal_stats_report, parse_devices}

unfoldable pub status_error : ℕ → Error
status_error status =
    if status == 1
    then auth_failed
    else if status == 2
    then join_paused
    else if status == 3
    then room_full
    else if status == 5
    then member_disabled
    else protocol

-- of an error that is not nil
unfoldable pub protocol_or_io : Error → Error
protocol_or_io eof = protocol
protocol_or_io e = e

-- What the connection gives to the member: the nonce, the bytes that the host sends, whether the
-- member's writes succeed, and what configuring its adapter answers (`none` for no callback).
pub record Link : Type 0 where
  pub random : Option Bytes
  pub stream : Bytes
  pub request_written : Bool
  pub configure_deadline_set : Bool
  pub configure : Option (PairResult → Bool)
  pub ack_written : Bool

-- The bytes that the member sent, and the result or the error.
pub record ClientRun : Type 0 where
  pub sent : Bytes
  pub outcome : Result Error PairResult

abbrev pub fail : Bytes → Error → ClientRun
fail sent e = record { sent = sent; outcome = err e }

-- `configure != nil`, and its deadline or the call itself fails
abbrev pub configure_fails : Link → Option (PairResult → Bool) → PairResult → Bool
configure_fails link none result = false
configure_fails link (some f) result = not link.configure_deadline_set || not (f result)

unfoldable pub send_ack : Link → Bytes → PairResult → Result Error Bytes → ClientRun
send_ack link sent result (err e) = fail sent e
send_ack link sent result (ok out) =
    if not link.ack_written
    then fail sent outside
    else record { sent = sent ++ out; outcome = ok result }

unfoldable pub on_result :
    Link → Bytes → ServerChallenge → ClientRequest → Bytes → Result Error PairResult → ClientRun
unfolding send_ack
on_result link auth_key challenge request sent (err e) = fail sent auth_failed
on_result link auth_key challenge request sent (ok result) =
    if not (verify_pair_result challenge request result auth_key)
    then fail sent auth_failed
    else if configure_fails link link.configure result
    then fail sent outside
    else send_ack link sent result
        (write_frame frame_pair_ack (pair_ack auth_key result.lease_revision))

unfoldable pub on_result_frame :
    Link
    → Bytes
    → ServerChallenge
    → ClientRequest
    → Bytes
    → Result Error (ℕ × Bytes × Bytes)
    → ClientRun
unfolding on_result status_error protocol_or_io
on_result_frame link auth_key challenge request sent (err e) = fail sent (protocol_or_io e)
on_result_frame link auth_key challenge request sent (ok frame) =
    if not (frame.0 == frame_pair_result)
    then fail sent protocol
    else if length frame.1 == 1 && valid_failure_status (at frame.1 0)
    then fail sent (status_error (at frame.1 0))
    else on_result link auth_key challenge request sent (parse_pair_result frame.1)

unfoldable pub send_request :
    Link → Bytes → ServerChallenge → ClientRequest → Bytes → Result Error Bytes → ClientRun
unfolding on_result_frame
send_request link auth_key challenge request rest (err e) = fail [] e
send_request link auth_key challenge request rest (ok out) =
    if not link.request_written
    then fail [] outside
    else on_result_frame link auth_key challenge request out (read_frame rest)

unfoldable pub on_request :
    Link → Bytes → ServerChallenge → Bytes → Result Error ClientRequest → ClientRun
unfolding send_request
on_request link auth_key challenge rest (err e) = fail [] e
on_request link auth_key challenge rest (ok request) =
    send_request link auth_key challenge request rest
      (write_frame frame_client_request (bytes_or_nil (marshal_request request)))

unfoldable pub on_challenge :
    Link → Bytes → Bytes → Bytes → Bytes → Bytes → Result Error ServerChallenge → ClientRun
unfolding on_request
on_challenge link auth_key public_key uid name rest (err e) = fail [] e
on_challenge link auth_key public_key uid name rest (ok challenge) =
    on_request link auth_key challenge rest
      (new_client_request challenge public_key uid name auth_key link.random)

unfoldable pub on_challenge_frame :
    Link → Bytes → Bytes → Bytes → Bytes → Result Error (ℕ × Bytes × Bytes) → ClientRun
unfolding on_challenge protocol_or_io
on_challenge_frame link auth_key public_key uid name (err e) = fail [] (protocol_or_io e)
on_challenge_frame link auth_key public_key uid name (ok frame) =
    if not (frame.0 == frame_server_challenge)
    then fail [] protocol
    else on_challenge link auth_key public_key uid name frame.2 (parse_server_challenge frame.1)

unfoldable pub pair_with_session : Link → Bytes → Bytes → Bytes → Bytes → ClientRun
unfolding on_challenge_frame
pair_with_session link auth_key public_key uid name =
    on_challenge_frame link auth_key public_key uid name (read_frame link.stream)

-- the host's own latency is measured by the member
unfoldable pub with_latency : ℕ → List Device → List Device
with_latency elapsed [] = []
with_latency elapsed (device ∷ devices) =
    (if device.virtual_ip == v4 10 0 23 1 then record device { latency_ms = elapsed } else device)
    ∷ with_latency elapsed devices

unfoldable pub devices_of : ℕ → Result Error (List Device) → Result Error (List Device)
unfolding with_latency
devices_of elapsed (err e) = err e
devices_of elapsed (ok devices) = ok (with_latency elapsed devices)

unfoldable pub sync_answer : ℕ → Result Error (ℕ × Bytes × Bytes) → Result Error (List Device)
unfolding devices_of status_error protocol_or_io
sync_answer elapsed (err e) = err (protocol_or_io e)
sync_answer elapsed (ok frame) =
    if frame.0 == frame_pair_result && length frame.1 == 1
    then err (status_error (at frame.1 0))
    else if not (frame.0 == frame_device_snapshot)
    then err protocol
    else devices_of elapsed (parse_devices frame.1)

unfoldable pub sync_report :
    Bool → ℕ → Bytes → Result Error Bytes → Result Error Bytes × Result Error (List Device)
unfolding sync_answer
sync_report written elapsed stream (err e) = (err e, err e)
sync_report written elapsed stream (ok out) =
    if not written
    then (err outside, err outside)
    else (ok out, sync_answer elapsed (read_frame stream))

unfoldable pub sync_payload :
    Bool → ℕ → Bytes → Result Error Bytes → Result Error Bytes × Result Error (List Device)
unfolding sync_report
sync_payload written elapsed stream (err e) = (err e, err e)
sync_payload written elapsed stream (ok payload) =
    sync_report written elapsed stream (write_frame frame_stats_report payload)

-- One exchange of the control session: the bytes that the member sends, if any, and the devices that
-- it gets. `started` is the clock at the call, `elapsed` the time until the answer.
unfoldable pub sync :
    Bool → ℕ → ℕ → StatsReport → Bytes → Result Error Bytes × Result Error (List Device)
unfolding sync_payload
sync written started elapsed report stream =
    sync_payload written elapsed stream
      (marshal_stats_report (record report { timestamp_ms = started }))
