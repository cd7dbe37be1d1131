-- ===== src/Core/Ordinary.antt =====
-- The tunnels without a room (internal/core/runtime.go): starting and stopping the engine, and changing
-- what it is configured with.
use opl_core.Prelude.{
  Bool, true, false, not, ◌||◌, if◌then◌else◌, Option, some, none, Result, ok, err,
}
use opl_core.Core.{
  Runtime, Outside, Error, not_ready, network_active, outside, idle, faulted, stopping,
  starting_openp2p, mode_idle, ordinary, engine_started, engine_stopped, call, set_lifecycle,
  settle,
}

-- The part of `StartOpenP2P` under the mutex. `room_running` was read before.
unfoldable pub claim_ordinary : Bool → Runtime → Runtime × Bool
claim_ordinary room_running r =
    if room_running || r.client_session || r.ordinary_running
    then (r, false)
    else (record r { ordinary_running = true }, true)

unfoldable pub drop_ordinary : Runtime → Runtime
drop_ordinary r = record r { ordinary_running = false }

-- the part behind it
unfoldable pub launch_ordinary : Outside → Runtime × Bool → Runtime × Result Error (Unit {0})
unfolding drop_ordinary
launch_ordinary out (r, false) = (r, err network_active)
launch_ordinary out (r, true) =
    let launching = call engine_started (settle ordinary starting_openp2p r) in
    if not out.engine_starts
    then (settle mode_idle faulted (drop_ordinary launching), err not_ready)
    else (launching, ok tt)

unfoldable pub start_openp2p : Outside → Runtime → Runtime × Result Error (Unit {0})
unfolding launch_ordinary claim_ordinary
start_openp2p out r = launch_ordinary out (claim_ordinary out.room_running r)

unfoldable pub stop_openp2p : Outside → Runtime → Runtime × Result Error (Unit {0})
unfolding drop_ordinary
stop_openp2p out r =
    let stopped = call engine_stopped (set_lifecycle stopping r) in
    if out.room_running || r.client_session
    then (r, err network_active)
    else if not r.ordinary_running
    then (r, ok tt)
    else if not out.engine_stops
    then (set_lifecycle faulted stopped, err outside)
    else (settle mode_idle idle (drop_ordinary stopped), ok tt)

unfoldable pub restart_openp2p : Outside → Runtime → Runtime × Result Error (Unit {0})
restart_openp2p out r =
    let stopped = call engine_stopped r in
    if not out.engine_stops
    then (stopped, err outside)
    else (call engine_started stopped, if out.engine_starts then ok tt else err outside)

-- `same_network` compares the new network with the stored one (`none` if that cannot be read),
-- and `replaced` says whether the store takes the new configuration.
unfoldable pub replace_config :
    Outside → Option Bool → Bool → Runtime → Runtime × Result Error (Unit {0})
unfolding restart_openp2p
replace_config out same_network replaced r =
    let active = out.room_running || r.client_session in
    let stored =
      if not replaced
      then (r, err outside)
      else if r.ordinary_running || active
      then restart_openp2p out r
      else (r, ok tt) in
    if not active then stored else checked same_network stored
  where
    checked : Option Bool → Runtime × Result Error (Unit {0}) → Runtime × Result Error (Unit {0})
    checked none stored = (r, err outside)
    checked (some same) stored = if not same then (r, err network_active) else stored

unfoldable pub replace_tunnels : Outside → Bool → Runtime → Runtime × Result Error (Unit {0})
replace_tunnels out replaced r =
    let stopped = call engine_stopped r in
    if not replaced
    then (r, err outside)
    else if not out.engine_stops
    then (stopped, err outside)
    else if out.room_running || (r.ordinary_running || r.client_session)
    then (call engine_started stopped, if out.engine_starts then ok tt else err outside)
    else (stopped, ok tt)
