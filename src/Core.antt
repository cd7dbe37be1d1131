-- ===== src/Core.antt =====
-- The runtime that ties the room, the tunnel engine and WireGuard together (internal/core/runtime.go).
-- An operation holds the mutex only in parts, so it is cut at the places where it takes and gives up the
-- mutex: each part is a function, and the operation is their composition. What an operation meets
-- outside (the engine, the store, WireGuard, the sockets) is `Outside`. A pointer or a cancel function is a
-- number, `none` for nil. `calls` is no field of the source: it lists the calls that leave the runtime,
-- the last one first.
pub mod Ordinary
pub mod Network
pub mod Client
pub mod Reach
pub mod Closes
mod Tests
use opl_core.Prelude.{
  ℕ, ◌≡◌, Bool, true, false, not, ◌&&◌, ◌||◌, List, [], ◌∷◌, if◌then◌else◌, ◌==◌, bytes_eq, nat_eq,
  Bytes, length, Option, some, none, Result, ok, err, is_some, text,
}
use opl_core.Prelude.Addr.{Addr}
use opl_core.Prelude.Binary.{zeroes}
use opl_core.OpenP2P.{App, Config, pos}
use opl_core.Pairing.Messages
use opl_core.Pairing.Messages.{auth_failed, join_paused, room_full, member_disabled}
use opl_core.Pairing.Stats.{Device}
use opl_core.Room
use opl_core.Room.Stats.{Member, Snapshot}

pub data Error : Type 0 where
  not_ready wire_guard_failed wire_guard_update network_active : Error
  canceled bad_input outside : Error
  pair_failed : Messages.Error → Error

pub data Lifecycle : Type 0 where
  idle starting_openp2p starting_wireguard listening joining online stopping faulted : Lifecycle

pub data NetworkMode : Type 0 where
  mode_idle host client ordinary : NetworkMode

-- what the engine reports
pub data ProcessState : Type 0 where
  process_stopped process_starting process_online process_faulted : ProcessState

pub data Call : Type 0 where
  engine_started engine_stopped internal_cleared : Call
  internal_set : List App → Call
  app_added : App → Call
  manager_started manager_closed relay_started relay_closed control_closed : ℕ → Call
  canceled_join canceled_control : ℕ → Call
  peer_set peer_removed : ℕ → Bytes → Call
  membership_saved : Bytes → Call

-- The room service, the store and the paths, which no operation replaces, are not fields here, and
-- neither is the time of the last statistics.
pub record Runtime : Type 0 where
  pub manager : Option ℕ
  pub relay : Option ℕ
  pub client_manager : Option ℕ
  pub client_control : Option ℕ
  pub client_cancel : Option ℕ
  pub join_cancel : Option ℕ
  pub join_error : Option Error
  pub client_devices : List Device
  pub client_ip : Option Addr
  pub client_session : Bool
  pub ordinary_running : Bool
  pub process_state : ProcessState
  pub lifecycle_state : Lifecycle
  pub network_mode : NetworkMode
  pub calls : List Call

-- What an operation meets: what the room's snapshot says, whether the engine starts and stops, whether the
-- internal apps can be set and cleared, whether the user's apps can be read, the manager and the relay
-- that are started, and whether a peer can be set or removed and the handles closed.
pub record Outside : Type 0 where
  pub room_running : Bool
  pub engine_starts : Bool
  pub engine_stops : Bool
  pub internal_sets : Bool
  pub internal_clears : Bool
  pub apps_read : Bool
  pub app_adds : Bool
  pub manager_starts : Option ℕ
  pub relay_starts : Option ℕ
  pub peer_sets : Bool
  pub peer_removes : Bool
  pub manager_closes : Bool
  pub relay_closes : Bool
  pub membership_saves : Bool

-- `New`
abbrev pub fresh : Runtime
fresh = record {
  manager = none;
  relay = none;
  client_manager = none;
  client_control = none;
  client_cancel = none;
  join_cancel = none;
  join_error = none;
  client_devices = [];
  client_ip = none;
  client_session = false;
  ordinary_running = false;
  process_state = process_stopped;
  lifecycle_state = idle;
  network_mode = mode_idle;
  calls = [];
}

abbrev pub call : Call → Runtime → Runtime
call c r = record r { calls = c ∷ r.calls }

abbrev pub set_lifecycle : Lifecycle → Runtime → Runtime
set_lifecycle value r = record r { lifecycle_state = value }

abbrev pub set_mode : NetworkMode → Runtime → Runtime
set_mode value r = record r { network_mode = value }

-- both at once, as most operations end
abbrev pub settle : NetworkMode → Lifecycle → Runtime → Runtime
settle mode value r = record r { network_mode = mode; lifecycle_state = value }

-- the configuration of a new installation
unfoldable pub default_config : Bytes → Config
default_config uid = record {
  network = record {
    token = 11602319472897248650;
    node = uid;
    user = text "gldoffice";
    share_bandwidth = pos 10;
    server_host = text "api.openp2p.cn";
    server_port = pos 27183;
    public_ip_port = pos 0;
  };
  apps = [];
  log_level = pos 1;
}

-- an error that ends the attempts to pair, or none
unfoldable pub terminal_pair_error : Option Messages.Error → Bool
terminal_pair_error none = true
terminal_pair_error (some auth_failed) = true
terminal_pair_error (some join_paused) = true
terminal_pair_error (some room_full) = true
terminal_pair_error (some member_disabled) = true
terminal_pair_error (some _) = false

-- what reading a secret gives
pub data SecretFile : Type 0 where
  content : Bytes → SecretFile
  no_file unreadable : SecretFile

unfoldable pub load_membership_key : SecretFile → Bool → Result Error (Bytes × Bool)
load_membership_key file false = ok (zeroes 32, false)
load_membership_key no_file true = ok (zeroes 32, false)
load_membership_key unreadable true = err outside
load_membership_key (content data') true =
    if not (length data' == 32) then err outside else ok (data', true)

pub data JoinState : Type 0 where
  no_join connected retrying connecting failed : JoinState

-- the `joinState` of `State`
unfoldable pub join_state : Runtime → JoinState
join_state r =
    if r.client_session
    then (if is_some r.client_control
        then connected
        else if is_some r.join_error
        then retrying
        else connecting)
    else if is_some r.join_error
    then failed
    else no_join

abbrev pub lifecycle_is : Lifecycle → Lifecycle → Bool
lifecycle_is idle idle = true
lifecycle_is starting_openp2p starting_openp2p = true
lifecycle_is starting_wireguard starting_wireguard = true
lifecycle_is listening listening = true
lifecycle_is joining joining = true
lifecycle_is online online = true
lifecycle_is stopping stopping = true
lifecycle_is faulted faulted = true
lifecycle_is _ _ = false

-- The two switches of `onProcessState`: the lifecycle that a report of the engine leads to.
unfoldable pub process_lifecycle : ProcessState → NetworkMode → Lifecycle → Lifecycle
process_lifecycle process_online host current =
    if lifecycle_is current starting_openp2p || lifecycle_is current starting_wireguard
    then current
    else listening
process_lifecycle process_online client current =
    if lifecycle_is current joining then current else online
process_lifecycle process_online ordinary current = online
process_lifecycle process_online mode_idle current = current
process_lifecycle process_faulted mode current = faulted
process_lifecycle process_starting mode current =
    if lifecycle_is current joining || lifecycle_is current starting_wireguard
    then current
    else starting_openp2p
process_lifecycle process_stopped mode current = current

unfoldable pub on_process_state : ProcessState → Runtime → Runtime
unfolding process_lifecycle
on_process_state value r =
    let current = r.lifecycle_state in
    let reported : Runtime = record r { process_state = value } in
    if lifecycle_is current stopping || lifecycle_is current idle
    then reported
    else set_lifecycle (process_lifecycle value r.network_mode current) reported

abbrev pub is_reachable : Option Room.MemberState → Bool
is_reachable (some Room.configured) = true
is_reachable (some Room.online) = true
is_reachable _ = false

-- the loop of `memberIPs`; every address of a snapshot is one
unfoldable pub reachable_ips : List Member → List Addr
reachable_ips [] = []
reachable_ips (member ∷ members) =
    let rest = reachable_ips members in
    if not member.enabled || not (is_reachable member.state) then rest else member.ip ∷ rest

unfoldable pub member_ips : Snapshot → List Addr
unfolding reachable_ips
member_ips snapshot = reachable_ips snapshot.members
