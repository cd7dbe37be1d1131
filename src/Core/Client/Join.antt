-- ===== src/Core/Client/Join.antt =====
-- The attempts of a join, and the join as a whole (internal/core/runtime.go, `Join`).
use opl_core.Prelude.{
  ℕ, Bool, true, false, not, ◌&&◌, ◌||◌, List, [], ◌∷◌, if◌then◌else◌, nat_eq, Bytes, Option, some,
  none, Result, ok, err,
}
use opl_core.Invite.{Invite}
use opl_core.Invite
use opl_core.Pairing.Messages.{PairResult, auth_failed, member_disabled}
use opl_core.Pairing.Messages
use opl_core.Pairing.Auth.{derive_psk}
use opl_core.Core.{
  Runtime, Outside, Error, not_ready, network_active, canceled, bad_input, outside, pair_failed,
  joining, online, client, internal_set, internal_cleared, control_closed, canceled_control,
  membership_saved, call, set_lifecycle, settle, terminal_pair_error, load_membership_key,
  SecretFile,
}
use opl_core.Core.Ordinary.{restart_openp2p}
use opl_core.Prelude.{bytes_eq}
use opl_core.OpenP2P.{pairing_app, wire_guard_app}
use opl_core.Core.Client.{leave, claim_client, configure, Joining, is_done}

-- One attempt to pair, as it goes outside: the result that `configure` is called with, if it comes
-- to that, the control session or the error that pairing ends with where `configure` does not fail,
-- and whether the join is canceled then, or while the timer runs.
pub record Attempt : Type 0 where
  pub offered : Option PairResult
  pub outcome : Result Messages.Error ℕ
  pub is_canceled : Bool
  pub canceled_waiting : Bool
  pub out : Outside

-- what the loop is left with: whether the membership key was used, the key, and the session
pub record Paired : Type 0 where
  pub using_membership : Bool
  pub member_psk : Bytes
  pub configured : Bool
  pub session : Result Error ℕ

abbrev pub pair_outcome : Result Messages.Error ℕ → Result Error ℕ
pair_outcome (ok control) = ok control
pair_outcome (err e) = err (pair_failed e)

abbrev pub error_of : Result Messages.Error ℕ → Option Messages.Error
error_of (ok control) = none
error_of (err e) = some e

abbrev pub member_key : Bool → Joining → PairResult → Bytes → Bytes
member_key using_membership j result psk =
    if using_membership
    then psk
    else derive_psk j.invitation.room_key result.host_public_key j.public_key

-- what `configure` gave, where pairing came to it
unfoldable pub configured_pair :
    Attempt
    → Joining
    → Bool
    → Bytes
    → PairResult
    → Runtime × Result Error (Unit {0})
    → Runtime × Paired
configured_pair a j using psk result (s, ok done) = (
  s,
  record {
    using_membership = using;
    member_psk = member_key using j result psk;
    configured = true;
    session = pair_outcome a.outcome;
  },
)
configured_pair a j using psk result (s, err e) =
    (s, record { using_membership = using; member_psk = psk; configured = false; session = err e })

-- The attempt with its call of `configure`. An error of `configure` is what pairing returns; the key that it
-- may have derived before is not read again.
unfoldable pub attempt_pair :
    Attempt → Joining → Bool → Bytes → Option PairResult → Runtime → Runtime × Paired
unfolding configure configured_pair
attempt_pair a j using psk none r = (
  r,
  record {
    using_membership = using;
    member_psk = psk;
    configured = false;
    session = pair_outcome a.outcome;
  },
)
attempt_pair a j using psk (some result) r =
    configured_pair a j using psk result (configure a.out j result r)

abbrev pub is_auth_failed : Result Error ℕ → Bool
is_auth_failed (err (pair_failed auth_failed)) = true
is_auth_failed _ = false

abbrev pub is_terminal : Result Error ℕ → Bool
is_terminal (ok control) = terminal_pair_error none
is_terminal (err (pair_failed e)) = terminal_pair_error (some e)
is_terminal (err _) = false

abbrev pub note_error : Result Error ℕ → Runtime → Runtime
note_error (ok control) r = r
note_error (err e) r = record r { join_error = some e }

-- The loop of `Join`, on the attempts that it makes; where they end, the join was canceled.
unfoldable pub pair_loop : List Attempt → Joining → Paired → Runtime → Runtime × Paired
unfolding attempt_pair
pair_loop [] j p r = (r, record p { session = err canceled })
pair_loop (a ∷ rest) j p r =
    let (s, tried) = attempt_pair a j p.using_membership p.member_psk a.offered r in
    let q : Paired = record tried { configured = p.configured || tried.configured } in
    let noted = note_error q.session s in
    let falls_back = pair_loop rest j (record q { using_membership = false }) s in
    let retries = pair_loop rest j q noted in
    if q.using_membership && is_auth_failed q.session
    then falls_back
    else if q.configured || is_terminal q.session || a.is_canceled
    then (s, q)
    else if a.canceled_waiting
    then (noted, record q { session = err canceled })
    else retries

-- the part under the mutex that ends a join
unfoldable pub install_control : ℕ → ℕ → Runtime → Runtime × Result Error (Unit {0})
install_control control cancel r =
    if not r.client_session
    then (call (control_closed control) (call (canceled_control cancel) r), err canceled)
    else (
      record r {
        client_control = some control;
        client_cancel = some cancel;
        join_cancel = none;
        join_error = none;
      },
      ok tt,
    )

-- the part behind the loop, by the session that the loop ended with
unfoldable pub finish_session :
    Outside → Joining → ℕ → Runtime → Paired → Result Error ℕ → Runtime × Result Error (Unit {0})
unfolding install_control
finish_session out j cancel r p (err e) = (record r { join_error = some e }, err e)
finish_session out j cancel r p (ok control) =
    let saved =
      if j.fixed_device_key && not p.using_membership
      then call (membership_saved p.member_psk) r
      else r in
    if j.fixed_device_key && not p.using_membership && not out.membership_saves
    then (saved, err outside)
    else install_control control cancel saved

unfoldable pub finish_join :
    Outside → Joining → ℕ → Runtime × Paired → Runtime × Result Error (Unit {0})
unfolding finish_session
finish_join out j cancel (r, p) = finish_session out j cancel r p p.session

-- Both ends of the deferred function: a join that fails leaves the room again.
unfoldable pub conclude_join :
    Outside → Runtime × Result Error (Unit {0}) → Runtime × Result Error (Unit {0})
unfolding leave
conclude_join out (r, err e) = ((leave out r).0, err e)
conclude_join out (r, ok done) = (set_lifecycle online r, ok tt)

-- What `Join` reads before it opens the pairing tunnel: the invite, whether the configuration loads, the public
-- key of the device, the membership key, two free ports.
pub record Prepared : Type 0 where
  pub code : Bytes
  pub config_loads : Bool
  pub public_key : Option Bytes
  pub membership : SecretFile
  pub pair_port : Option ℕ
  pub wire_guard_port : Option ℕ

unfoldable pub open_tunnel :
    Outside
    → List Attempt
    → ℕ
    → Bytes × Bool
    → Joining
    → Runtime
    → Runtime × Result Error (Unit {0})
unfolding pair_loop finish_join restart_openp2p
open_tunnel out attempts cancel (psk, has_membership) j r =
    let set = call (internal_set (j.pairing_app ∷ [])) r in
    let (restarted, result) = restart_openp2p out set in
    let start : Paired = record {
      using_membership = has_membership;
      member_psk = psk;
      configured = false;
      session = err canceled;
    } in
    if not out.internal_sets
    then (set, err not_ready)
    else if not (is_done result)
    then (call internal_cleared restarted, err not_ready)
    else finish_join out j cancel (pair_loop attempts j start restarted)

-- the keys and the ports, or the first of them that could not be had
unfoldable pub with_keys :
    Outside
    → List Attempt
    → ℕ
    → Bool
    → Runtime
    → Invite
    → Option Bytes
    → Result Error (Bytes × Bool)
    → Option ℕ
    → Option ℕ
    → Runtime × Result Error (Unit {0})
unfolding open_tunnel pairing_app wire_guard_app
with_keys out attempts cancel fixed r invitation (some public_key) (ok membership) (some pair_port)
      (some wire_guard_port) =
    open_tunnel out attempts cancel membership
      (record {
        invitation = invitation;
        fixed_device_key = fixed;
        public_key = public_key;
        pairing_app = pairing_app invitation.host_uid invitation.pair_port pair_port;
        wire_guard_app =
            λ destination. wire_guard_app invitation.host_uid destination wire_guard_port;
      })
      r
with_keys out attempts cancel fixed r invitation _ _ _ _ = (r, err outside)

unfoldable pub prepare_join :
    Outside
    → List Attempt
    → ℕ
    → Bool
    → Prepared
    → Runtime
    → Result Invite.Error Invite
    → Runtime × Result Error (Unit {0})
unfolding with_keys load_membership_key
prepare_join out attempts cancel fixed p r (err e) = (r, err bad_input)
prepare_join out attempts cancel fixed p r (ok invitation) =
    if not p.config_loads
    then (r, err outside)
    else with_keys out attempts cancel fixed r invitation p.public_key
        (load_membership_key p.membership fixed) p.pair_port p.wire_guard_port

unfoldable pub join_claimed :
    Outside
    → List Attempt
    → ℕ
    → Bool
    → Prepared
    → Runtime × Bool
    → Runtime × Result Error (Unit {0})
unfolding prepare_join conclude_join
join_claimed out attempts cancel fixed p (r, false) = (r, err network_active)
join_claimed out attempts cancel fixed p (r, true) =
    conclude_join out
      (prepare_join out attempts cancel fixed p (settle client joining r) (Invite.decode p.code))

-- A join that no other operation interrupts; `fixed` is the option for a fixed device key.
unfoldable pub join :
    Outside → List Attempt → ℕ → Bool → Prepared → Runtime → Runtime × Result Error (Unit {0})
unfolding join_claimed claim_client
join out attempts cancel fixed p r =
    if out.room_running
    then (r, err outside)
    else join_claimed out attempts cancel fixed p (claim_client cancel r)
