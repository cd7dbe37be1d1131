-- ===== src/Core/Network.antt =====
-- The network of a room that this host runs (internal/core/runtime.go): the callbacks that the runtime hands
-- to its room service. `startNetwork`, `applyPeer` and `removePeer` hold the mutex throughout.
use opl_core.Prelude.{
  ℕ, Bool, true, not, ◌&&◌, ◌||◌, if◌then◌else◌, Bytes, Option, some, none, Result, ok, err,
  is_some,
}
use opl_core.Core.{
  Runtime, Outside, Error, Call, not_ready, wire_guard_failed, wire_guard_update, network_active,
  outside, idle, faulted, stopping, starting_openp2p, starting_wireguard, listening, mode_idle,
  host, engine_started, engine_stopped, internal_cleared, manager_started, manager_closed,
  relay_started, relay_closed, peer_set, peer_removed, call, set_lifecycle, settle,
}

abbrev pub failing : Error → Runtime → Runtime × Result Error (Unit {0})
failing e r = (settle mode_idle faulted r, err e)

-- the relay, once the manager runs
unfoldable pub start_relay : ℕ → Option ℕ → Runtime → Runtime × Result Error (Unit {0})
start_relay manager none r =
    failing wire_guard_failed (call engine_stopped (call (manager_closed manager) r))
start_relay manager (some relay) r = (
  set_lifecycle listening
      (call (relay_started relay) (record r { manager = some manager; relay = some relay })),
  ok tt,
)

unfoldable pub start_manager : Option ℕ → Option ℕ → Runtime → Runtime × Result Error (Unit {0})
unfolding start_relay
start_manager none relay r = failing wire_guard_failed (call engine_stopped r)
start_manager (some manager) relay r = start_relay manager relay (call (manager_started manager) r)

unfoldable pub start_network : Outside → Runtime → Runtime × Result Error (Unit {0})
unfolding start_manager
start_network out r =
    let cleared = call internal_cleared (settle host starting_openp2p r) in
    let launched = call engine_started cleared in
    if is_some r.manager
    then (r, err outside)
    else if r.client_session
    then (r, err outside)
    else if r.ordinary_running
    then (r, err network_active)
    else if not out.internal_clears
    then failing not_ready cleared
    else if not out.engine_starts
    then failing not_ready launched
    else start_manager out.manager_starts out.relay_starts
        (set_lifecycle starting_wireguard launched)

-- `if handle != nil { handle.Close() }`
abbrev pub close : (ℕ → Call) → Option ℕ → Runtime → Runtime
close f none r = r
close f (some handle) r = call (f handle) r

abbrev pub closed_well : Bool → Option ℕ → Bool
closed_well b none = true
closed_well b (some handle) = b

-- The part of `stopNetwork` that takes the handles out.
unfoldable pub take_network : Runtime → Runtime × Option ℕ × Option ℕ
take_network r = (record r { manager = none; relay = none }, r.manager, r.relay)

-- and the part behind it
unfoldable pub close_network :
    Outside → Runtime × Option ℕ × Option ℕ → Runtime × Result Error (Unit {0})
close_network out (r, manager, relay) =
    let closed = close manager_closed manager (close relay_closed relay r) in
    let stops = not out.apps_read || not r.ordinary_running in
    let ended = if stops then call engine_stopped closed else closed in
    if closed_well out.relay_closes relay
      && closed_well out.manager_closes manager
      && out.apps_read
      && (not stops || out.engine_stops)
    then (settle mode_idle idle ended, ok tt)
    else (settle mode_idle faulted ended, err outside)

unfoldable pub stop_network : Outside → Runtime → Runtime × Result Error (Unit {0})
unfolding close_network take_network
stop_network out r = close_network out (take_network (set_lifecycle stopping r))

unfoldable pub apply_peer_in :
    Option ℕ → Outside → Bytes → Runtime → Runtime × Result Error (Unit {0})
apply_peer_in none out key r = (r, err outside)
apply_peer_in (some manager) out key r =
    (call (peer_set manager key) r, if out.peer_sets then ok tt else err wire_guard_update)

unfoldable pub apply_peer : Outside → Bytes → Runtime → Runtime × Result Error (Unit {0})
unfolding apply_peer_in
apply_peer out key r = apply_peer_in r.manager out key r

unfoldable pub remove_peer_in :
    Option ℕ → Outside → Bytes → Runtime → Runtime × Result Error (Unit {0})
remove_peer_in none out key r = (r, err outside)
remove_peer_in (some manager) out key r =
    (call (peer_removed manager key) r, if out.peer_removes then ok tt else err wire_guard_update)

unfoldable pub remove_peer : Outside → Bytes → Runtime → Runtime × Result Error (Unit {0})
unfolding remove_peer_in
remove_peer out key r = remove_peer_in r.manager out key r
