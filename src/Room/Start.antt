-- ===== src/Room/Start.antt =====
-- How a room starts (internal/room/room.go): `Create`, `Start` and `StartOrCreate`.
use opl_core.Prelude.{
  ℕ, Bool, true, false, not, ◌&&◌, List, [], ◌∷◌, if◌then◌else◌, ◌==◌, nat_eq, bytes_eq, Bytes,
  Option, some, none, Result, ok, err, is_some,
}
use opl_core.Prelude.Dict.{Dict, lookup, insert}
use opl_core.Prelude.Addr.{v4}
use opl_core.Prelude.Binary.{zeroes}
use opl_core.Invite.{Invite}
use opl_core.Invite
use opl_core.Lease.{Lease, Allocator, new}
use opl_core.Lease
use opl_core.Pairing.Auth.{derive_psk}
use opl_core.Room.{
  Service, Outside, Error, running, bad_input, outside, NetworkConfig, Call, network_started,
  network_stopped, server_started, server_closed, MemberState, offline, apply_ok, call_apply,
}
use opl_core.Room.Members.{clear}

pub record CreateOptions : Type 0 where
  pub host_uid : Bytes
  pub pair_port : ℕ
  pub wire_guard_port : ℕ
  pub fixed_room_key : Bool
  pub fixed_host_key : Bool

-- the state that was saved, its members as leases (`none` if one of them cannot be read)
pub record Saved : Type 0 where
  pub room_id : Bytes
  pub host_uid : Bytes
  pub pair_port : ℕ
  pub wire_guard_port : ℕ
  pub relay_port : ℕ
  pub join_enabled : Bool
  pub members : Option (List Lease)
  pub blocked_uids : List Bytes

-- What starting a room gets from outside: free ports, a new identity, the host's key pair, the callbacks
-- of the network (`none` for one that is nil), whether the pairing server listens, whether the saved
-- state exists, and what is read of it and of the secret.
pub record Startup : Type 0 where
  pub default_host_uid : Bytes
  pub free_pair_port : Option ℕ
  pub free_wire_guard_port : Option ℕ
  pub identity : Option (Bytes × Bytes)
  pub host_key : Option (Bytes × Bytes)
  pub start_network : Option (NetworkConfig → Bool)
  pub has_stop_network : Bool
  pub listens : Bool
  pub saved : Option Saved
  pub secret : Option (Bytes × Dict Bytes Bytes)

abbrev pub network_config : Service → NetworkConfig
network_config s = record {
  private_key = s.host_private;
  public_key = s.host_public;
  local_ip = v4 10 0 23 1;
  listen_port = s.wg_port;
  relay_port = s.relay_port;
}

abbrev pub network_ok : Option (NetworkConfig → Bool) → NetworkConfig → Bool
network_ok none config = true
network_ok (some f) config = f config

abbrev pub call_network : Startup → NetworkConfig → List Call → List Call
call_network up config calls =
    if is_some up.start_network then network_started config ∷ calls else calls

abbrev pub call_stop : Startup → List Call → List Call
call_stop up calls = if up.has_stop_network then network_stopped ∷ calls else calls

abbrev pub cleared_with : (List Call → List Call) → Service → Service
cleared_with f s = record (clear s) { calls = f s.calls }

abbrev pub port_or : ℕ → Option ℕ → Option ℕ
port_or port free = if port == 0 then free else some port

abbrev pub is_ok {ℓ κ} : {E : Type ℓ} {A : Type κ} → Result E A → Bool
is_ok (ok a) = true
is_ok (err e) = false

abbrev pub allocator_of : Result Lease.Error Allocator → Option Allocator
allocator_of (ok a) = some a
allocator_of (err e) = none

-- the fields that `Create` sets
unfoldable pub created :
    CreateOptions → Bytes → ℕ → ℕ → Bytes × Bytes → Bytes × Bytes → Service → Service
created options host_uid pair_port wg_port (room_id, room_key) (private, public) s = record s {
  fixed_room = options.fixed_room_key;
  fixed_host = options.fixed_host_key;
  join_enabled = true;
  host_uid = host_uid;
  pair_port = pair_port;
  wg_port = wg_port;
  room_id = room_id;
  room_key = room_key;
  host_private = private;
  host_public = public;
  allocator = allocator_of (new []);
  member_states = [];
  member_psks = [];
  blocked_uids = [];
  runtime_stats = [];
  reported_stats = [];
  member_uids = [];
  pending = [];
}

-- The network is started, the server listens, and a fixed room is saved; each failure undoes what came
-- before it.
unfoldable pub bring_up : Outside → Startup → Service → Service × Result Error (Unit {0})
bring_up out up s =
    let config = network_config s in
    let networked : Service = record s { calls = call_network up config s.calls } in
    let listening : Service = record networked { calls = server_started ∷ networked.calls } in
    if not (network_ok up.start_network config)
    then (clear networked, err outside)
    else if not up.listens
    then (cleared_with (call_stop up) networked, err outside)
    else if s.fixed_room && not (out.persist listening)
    then (cleared_with (λ calls. call_stop up (server_closed ∷ calls)) listening, err outside)
    else (record listening { running = true }, ok tt)

unfoldable pub create_with :
    Outside
    → Startup
    → CreateOptions
    → Bytes
    → ℕ
    → ℕ
    → Option (Bytes × Bytes)
    → Option (Bytes × Bytes)
    → Service
    → Service × Result Error (Unit {0})
unfolding bring_up created
create_with out up options host_uid pair_port wg_port (some identity) (some host_key) s =
    bring_up out up (created options host_uid pair_port wg_port identity host_key s)
create_with out up options host_uid pair_port wg_port _ _ s = (s, err outside)

-- an invite for this host could be written
abbrev pub valid_host : Bytes → ℕ → Bool
valid_host host_uid pair_port = is_ok (
    Invite.encode (record {
      fixed_room_key = false;
      host_uid = host_uid;
      pair_port = pair_port;
      room_key = 1 ∷ zeroes 11;
    }))

unfoldable pub create_on :
    Outside
    → Startup
    → CreateOptions
    → Option ℕ
    → Option ℕ
    → Service
    → Service × Result Error (Unit {0})
unfolding create_with
create_on out up options (some pair_port) (some wg_port) s =
    let host_uid = if options.host_uid == [] then up.default_host_uid else options.host_uid in
    if not (valid_host host_uid pair_port)
    then (s, err bad_input)
    else if options.fixed_room_key && not options.fixed_host_key
    then (s, err bad_input)
    else create_with out up options host_uid pair_port wg_port up.identity up.host_key s
create_on out up options _ _ s = (s, err outside)

unfoldable pub create :
    Outside → Startup → CreateOptions → Service → Service × Result Error (Unit {0})
unfolding create_on
create out up options s =
    if s.running
    then (s, err running)
    else create_on out up options (port_or options.pair_port up.free_pair_port)
        (port_or options.wire_guard_port up.free_wire_guard_port) s

-- `memberStates[item.PublicKey] = "offline"` for each lease
unfoldable pub all_offline : List Lease → Dict Bytes MemberState → Dict Bytes MemberState
all_offline [] states = states
all_offline (item ∷ items) states = all_offline items (insert item.public_key offline states)

unfoldable pub string_set : List Bytes → Dict Bytes Bool → Dict Bytes Bool
string_set [] set = set
string_set (item ∷ items) set = string_set items (insert item true set)

-- the fields that `Start` sets
unfoldable pub restored :
    Saved → List Lease → Allocator → Bytes × Dict Bytes Bytes → Bytes × Bytes → Service → Service
unfolding all_offline string_set
restored saved leases a (room_key, psks) (private, public) s = record s {
  fixed_room = true;
  fixed_host = true;
  join_enabled = saved.join_enabled;
  host_uid = saved.host_uid;
  pair_port = saved.pair_port;
  wg_port = saved.wire_guard_port;
  relay_port = saved.relay_port;
  room_id = saved.room_id;
  room_key = room_key;
  host_private = private;
  host_public = public;
  allocator = some a;
  member_states = all_offline leases [];
  member_psks = psks;
  blocked_uids = string_set saved.blocked_uids [];
  runtime_stats = [];
  reported_stats = [];
  member_uids = [];
  pending = [];
}

-- the key of a peer, derived if none was saved
abbrev pub peer_psk : Option Bytes → Service → Bytes → Bytes
peer_psk none s key = derive_psk s.room_key s.host_public key
peer_psk (some psk) s key = psk

-- The loop over the leases: the room, and whether every peer could be set.
unfoldable pub apply_all : Outside → List Lease → Service → Service × Bool
apply_all out [] s = (s, true)
apply_all out (item ∷ items) s =
    let psk = peer_psk (lookup item.public_key s.member_psks) s item.public_key in
    let set : Service = record s {
      member_psks = insert item.public_key psk s.member_psks;
      calls = call_apply out.apply_peer item psk s.calls;
    } in
    let rest = apply_all out items s in
    let rest_set = apply_all out items set in
    if not (item.enabled && is_some out.apply_peer)
    then rest
    else if not (apply_ok out.apply_peer item psk)
    then (set, false)
    else rest_set

-- the secret is saved, and the server listens
unfoldable pub finish_start : Outside → Startup → Service × Bool → Service × Result Error (Unit {0})
finish_start out up (s, false) = (cleared_with (call_stop up) s, err outside)
finish_start out up (s, true) =
    if not (out.persist_secret s)
    then (cleared_with (call_stop up) s, err outside)
    else if not up.listens
    then (cleared_with (call_stop up) s, err outside)
    else (record s { calls = server_started ∷ s.calls; running = true }, ok tt)

unfoldable pub start_network :
    Outside → Startup → List Lease → Service → Service × Result Error (Unit {0})
unfolding apply_all finish_start
start_network out up leases s =
    let config = network_config s in
    let networked : Service = record s { calls = call_network up config s.calls } in
    if not (network_ok up.start_network config)
    then (clear networked, err outside)
    else finish_start out up (apply_all out leases networked)

unfoldable pub start_leases :
    Outside
    → Startup
    → Saved
    → List Lease
    → Bytes × Dict Bytes Bytes
    → Bytes × Bytes
    → Service
    → Result Lease.Error Allocator
    → Service × Result Error (Unit {0})
unfolding start_network restored
start_leases out up saved leases secret host_key s (err e) = (s, err bad_input)
start_leases out up saved leases secret host_key s (ok a) =
    start_network out up leases (restored saved leases a secret host_key s)

unfoldable pub start_members :
    Outside
    → Startup
    → Saved
    → Bytes × Dict Bytes Bytes
    → Bytes × Bytes
    → Service
    → Option (List Lease)
    → Service × Result Error (Unit {0})
unfolding start_leases
start_members out up saved secret host_key s none = (s, err bad_input)
start_members out up saved secret host_key s (some leases) =
    start_leases out up saved leases secret host_key s (new leases)

unfoldable pub start_with :
    Outside
    → Startup
    → Option Saved
    → Option (Bytes × Dict Bytes Bytes)
    → Option (Bytes × Bytes)
    → Service
    → Service × Result Error (Unit {0})
unfolding start_members
start_with out up (some saved) (some secret) (some host_key) s =
    start_members out up saved secret host_key s saved.members
start_with out up _ _ _ s = (s, err outside)

unfoldable pub start : Outside → Startup → Service → Service × Result Error (Unit {0})
unfolding start_with
start out up s =
    if s.running then (s, err running) else start_with out up up.saved up.secret up.host_key s

-- what `os.Stat` answers: the file is there, is not, or some other error
pub data Stat : Type 0 where
  exists not_exist unknown : Stat

unfoldable pub start_or_create :
    Outside → Startup → Stat → CreateOptions → Service → Service × Result Error (Unit {0})
unfolding start create
start_or_create out up exists options s = start out up s
start_or_create out up not_exist options s = create out up options s
start_or_create out up unknown options s = (s, err outside)
