-- ===== src/Core/Client.antt =====
-- A member's side of a room (internal/core/runtime.go): joining, keeping the list of devices, leaving.
pub mod Join
use opl_core.Prelude.{
  ℕ, ◌≡◌, Bool, true, false, not, ◌&&◌, ◌||◌, List, [], ◌∷◌, if◌then◌else◌, ◌==◌, nat_eq, Bytes,
  Option, some, none, Result, ok, err, is_some,
}
use opl_core.Prelude.Addr.{Addr, v4}
use opl_core.Invite.{Invite}
use opl_core.Invite
use opl_core.OpenP2P.{App}
use opl_core.Pairing.Messages.{PairResult, auth_failed, member_disabled}
use opl_core.Pairing.Messages
use opl_core.Pairing.Auth.{derive_psk}
use opl_core.Pairing.Stats.{Device}
use opl_core.Core.{
  Runtime, Outside, Error, Call, not_ready, wire_guard_failed, wire_guard_update, network_active,
  canceled, bad_input, outside, pair_failed, idle, faulted, stopping, joining, online, mode_idle,
  client, engine_stopped, internal_set, internal_cleared, app_added, manager_started,
  manager_closed, control_closed, canceled_join, canceled_control, peer_set, membership_saved, call,
  set_lifecycle, settle, terminal_pair_error, load_membership_key, SecretFile,
}
use opl_core.Core.Ordinary.{restart_openp2p}
use opl_core.Core.Network.{close, closed_well}

-- What `Leave` takes out of the runtime: the manager, the control session, the two cancel functions,
-- and whether there was a session.
pub record Left : Type 0 where
  pub manager : Option ℕ
  pub control : Option ℕ
  pub cancel_control : Option ℕ
  pub cancel_join : Option ℕ
  pub active : Bool

-- the part of `Leave` under the mutex
unfoldable pub take_client : Runtime → Runtime × Left
take_client r = (
  record r {
    client_manager = none;
    client_control = none;
    client_cancel = none;
    join_cancel = none;
    client_devices = [];
    client_ip = none;
    client_session = false;
  },
  record {
    manager = r.client_manager;
    control = r.client_control;
    cancel_control = r.client_cancel;
    cancel_join = r.join_cancel;
    active = r.client_session;
  },
)

unfoldable pub close_left : Left → Runtime → Runtime
close_left l r = close manager_closed l.manager (
    close control_closed l.control
      (close canceled_control l.cancel_control (close canceled_join l.cancel_join r)))

abbrev pub is_done : Result Error (Unit {0}) → Bool
is_done (ok done) = true
is_done (err e) = false

-- the engine runs on for the ordinary tunnels, or stops
unfoldable pub leave_engine : Outside → Runtime → Runtime × Bool
unfolding restart_openp2p
leave_engine out r =
    let (restarted, result) = restart_openp2p out r in
    if out.apps_read && r.ordinary_running
    then (restarted, is_done result)
    else (call engine_stopped r, out.engine_stops)

unfoldable pub finish_leave :
    Outside → Option ℕ → Runtime × Bool → Runtime × Result Error (Unit {0})
finish_leave out manager (r, engine_well) =
    if closed_well out.manager_closes manager && out.internal_clears && out.apps_read && engine_well
    then (settle mode_idle idle r, ok tt)
    else (settle mode_idle faulted r, err outside)

-- the part of `Leave` behind the mutex
unfoldable pub close_client : Outside → Runtime × Left → Runtime × Result Error (Unit {0})
unfolding close_left leave_engine finish_leave
close_client out (r, l) =
    if not l.active
    then (r, ok tt)
    else finish_leave out l.manager
        (leave_engine out (call internal_cleared (close_left l (set_lifecycle stopping r))))

unfoldable pub leave : Outside → Runtime → Runtime × Result Error (Unit {0})
unfolding close_client take_client
leave out r = close_client out (take_client r)

-- the part of `Join` under the mutex that starts the session, the number naming its cancel function
unfoldable pub claim_client : ℕ → Runtime → Runtime × Bool
claim_client cancel r =
    if r.client_session || r.ordinary_running
    then (r, false)
    else (record r { client_session = true; join_cancel = some cancel; join_error = none }, true)

-- what a join has in hand once the pairing tunnel is open: the invite, the keys, the two apps
pub record Joining : Type 0 where
  pub invitation : Invite
  pub fixed_device_key : Bool
  pub public_key : Bytes
  pub pairing_app : App
  pub wire_guard_app : ℕ → App

-- the part of the callback under the mutex
unfoldable pub install_client : ℕ → Addr → Runtime → Runtime × Result Error (Unit {0})
install_client manager ip r =
    if not r.client_session
    then (call (manager_closed manager) r, err canceled)
    else (record r { client_manager = some manager; client_ip = some ip }, ok tt)

unfoldable pub set_host_peer :
    Outside → PairResult → Option ℕ → Runtime → Runtime × Result Error (Unit {0})
unfolding install_client
set_host_peer out result none r = (r, err wire_guard_failed)
set_host_peer out result (some manager) r =
    let told = call (peer_set manager result.host_public_key) (call (manager_started manager) r) in
    if not out.peer_sets
    then (call (manager_closed manager) told, err wire_guard_update)
    else install_client manager result.assigned_ip told

-- `configure`, which pairing calls with the result
unfoldable pub configure :
    Outside → Joining → PairResult → Runtime → Runtime × Result Error (Unit {0})
unfolding set_host_peer
configure out j result r =
    let app = j.wire_guard_app result.wire_guard_port in
    let set = call (internal_set (j.pairing_app ∷ app ∷ [])) r in
    let added = call (app_added app) set in
    if not out.internal_sets
    then (set, err outside)
    else if not out.app_adds
    then (added, err not_ready)
    else set_host_peer out result out.manager_starts added

-- `r.clientControl == session`
abbrev pub same_handle : Option ℕ → ℕ → Bool
same_handle none session = false
same_handle (some control) session = control == session

-- The state of `syncDevices` between two parts: the session it holds.
-- Its parts under the mutex, first the one after a round that failed.
unfoldable pub drop_control : ℕ → Error → Runtime → Runtime
drop_control session e r = record r {
  client_control = if same_handle r.client_control session then none else r.client_control;
  join_error = some e;
}

unfoldable pub reinstall_control : ℕ → Runtime → Runtime × Bool
reinstall_control session r =
    if not r.client_session then (call (control_closed session) r, false) else (
      set_lifecycle online (record r { client_control = some session; join_error = none }),
      true,
    )

unfoldable pub note_devices : List Device → Runtime → Runtime × Bool
note_devices devices r =
    if not r.client_session then (r, false) else (record r { client_devices = devices }, true)

-- A round of `syncDevices`: what the exchange with the host gives, whether the context ends before and
-- while the ticker is awaited, and what reconnecting gives where it comes to that.
pub record Round : Type 0 where
  pub synced : Result Messages.Error (List Device)
  pub ends : Bool
  pub ends_waiting : Bool
  pub reconnected : Result Messages.Error ℕ
  pub out : Outside

-- the part of a round that reconnects: the runtime, and the session to go on with
unfoldable pub reconnect : Outside → ℕ → Result Messages.Error ℕ → Runtime → Runtime × Option ℕ
unfolding reinstall_control leave
reconnect out session (err e) r =
    let noted : Runtime = record r { join_error = some (pair_failed e) } in
    if terminal_pair_error (some e) then ((leave out noted).0, none) else (noted, some session)
reconnect out session (ok next) r =
    let (s, goes_on) = reinstall_control next r in (s, if goes_on then some next else none)

abbrev pub is_disabled : Messages.Error → Bool
is_disabled member_disabled = true
is_disabled _ = false

unfoldable pub sync_round : ℕ → Round → Runtime → Runtime × Option ℕ
unfolding drop_control note_devices reconnect leave
sync_round session round r = answered round.synced
  where
    answered : Result Messages.Error (List Device) → Runtime × Option ℕ
    answered (ok devices) =
        let (s, goes_on) = note_devices devices r in
        (s, if not goes_on || round.ends_waiting then none else some session)
    answered (err e) =
        let dropped = call (control_closed session) (drop_control session (pair_failed e) r) in
        if round.ends
        then (dropped, none)
        else if is_disabled e
        then ((leave round.out dropped).0, none)
        else if round.ends_waiting
        then (set_lifecycle joining dropped, none)
        else reconnect round.out session round.reconnected (set_lifecycle joining dropped)
