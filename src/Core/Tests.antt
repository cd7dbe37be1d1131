-- ===== src/Core/Tests.antt =====
-- The runtime at concrete inputs (internal/core/runtime_test.go).
use opl_core.Prelude.{◌≡◌, true, false, [], ◌⊎◌, some, none, err, is_some, refl}
use opl_core.Prelude.Addr.{v4}
use opl_core.Invite
use opl_core.Core.{
  Runtime, Outside, fresh, wire_guard_failed, bad_input, no_file, join_state, connected,
}
use opl_core.Core.Ordinary.{claim_ordinary}
use opl_core.Core.Network.{start_network}
use opl_core.Core.Client.{leave, claim_client, install_client}
use opl_core.Core.Client.Join.{Prepared, join, install_control}
use opl_core.Core.Reach.{
  Reach, made, next, claims_client, installs_client, installs_control, Reach-IsConsistent,
  join_state-Reach,
}
use opl_core.Core.Reach.Consistent.{IsConsistent}
use opl_core.Core.Closes.{Closes, leave-Closes}
use opl_core.Core.Closes.Joins.{IsRefused, IsUndone, join-error}
use opl_core.Core.Closes.Network.{Undoes, start_network-error}

abbrev fine : Outside
fine = record {
  room_running = false;
  engine_starts = true;
  engine_stops = true;
  internal_sets = true;
  internal_clears = true;
  apps_read = true;
  app_adds = true;
  manager_starts = some 4;
  relay_starts = some 5;
  peer_sets = true;
  peer_removes = true;
  manager_closes = true;
  relay_closes = true;
  membership_saves = true;
}

abbrev no_relay : Outside
no_relay = record fine { relay_starts = none }

-- A member that has joined: the session is claimed, the manager and the control session installed.
abbrev claimed : Runtime
claimed = record fresh { client_session = true; join_cancel = some 1 }

abbrev installed : Runtime
installed = record claimed { client_manager = some 2; client_ip = some (v4 10 0 23 2) }

abbrev joined : Runtime
joined = record installed { client_control = some 3; client_cancel = some 6; join_cancel = none }

joins : Reach joined
unfolding install_control install_client claim_client
joins =
    next (next (next made (claims_client 1)) (installs_client 2 (v4 10 0 23 2)))
      (installs_control 3 6)

Reach-IsConsistent_example : IsConsistent joined
Reach-IsConsistent_example = Reach-IsConsistent joins

join_state-Reach_example :
    (join_state joined ≡ connected → is_some joined.client_control ≡ true)
    × (is_some joined.client_control ≡ true → join_state joined ≡ connected)
join_state-Reach_example = join_state-Reach joins

leave-Closes_example : Closes joined (leave fine joined).0
leave-Closes_example = leave-Closes joins fine

abbrev no_invite : Prepared
no_invite = record {
  code = [];
  config_loads = true;
  public_key = some [];
  membership = no_file;
  pair_port = some 1;
  wire_guard_port = some 2;
}

refused :
    join fine [] 1 false no_invite fresh ≡ ((join fine [] 1 false no_invite fresh).0, err bad_input)
unfolding join Invite.decode
refused = refl

join-error_example :
    IsRefused fine [] 1 false no_invite fresh (join fine [] 1 false no_invite fresh).0 bad_input
    ⊎ IsUndone fine [] 1 false no_invite fresh (join fine [] 1 false no_invite fresh).0
join-error_example =
    join-error fine [] 1 false no_invite fresh (join fine [] 1 false no_invite fresh).0 bad_input
      refused

relay_refused :
    start_network no_relay fresh ≡ ((start_network no_relay fresh).0, err wire_guard_failed)
unfolding start_network
relay_refused = refl

start_network-error_example : Undoes fresh (start_network no_relay fresh).0
start_network-error_example =
    start_network-error no_relay fresh (start_network no_relay fresh).0 wire_guard_failed
      relay_refused

-- The room starts between the two halves of `StartOpenP2P`: both run then.
both_run :
    let r = (claim_ordinary false (start_network fine fresh).0).0 in
    (r.ordinary_running ≡ true) × (r.manager ≡ some 4)
unfolding start_network claim_ordinary
both_run = (refl, refl)
