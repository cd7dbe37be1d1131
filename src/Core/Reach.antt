-- ===== src/Core/Reach.antt =====
-- What holds of the runtime whatever its operations do, and in whatever order (internal/core/runtime.go). A
-- step is one part under the mutex, or one write of an atomic or one call between two of them, with any
-- local values: every interleaving of the operations is a sequence of such steps.
pub mod Consistent
mod Parts
use opl_core.Prelude.{
  ℕ, ◌≡◌, Bool, true, false, not, ◌||◌, List, [], ◌∷◌, if◌then◌else◌, Option, some, none, is_some,
  arith, refl, sym, ◌∙◌, Bool-cases, if_either, inl, inr,
}
use opl_core.Prelude.Addr.{Addr}
use opl_core.Pairing.Stats.{Device}
use opl_core.Core.{
  manager_started, relay_started, listening, online, stopping, idle, lifecycle_is, Runtime, Outside,
  Error, Call, Lifecycle, NetworkMode, ProcessState, fresh, call, settle, on_process_state,
  connected, join_state,
}
use opl_core.Core.Ordinary.{claim_ordinary, drop_ordinary}
use opl_core.Core.Network.{start_network, start_manager, start_relay, take_network}
use opl_core.Core.Client.{
  take_client, claim_client, install_client, drop_control, reinstall_control, note_devices,
}
use opl_core.Core.Client.Join.{install_control}
use opl_core.Core.Reach.Consistent.{IsConsistent, fresh-IsConsistent, aside}
use opl_core.Core.Reach.Parts.{
  claim_ordinary-IsConsistent, drop_ordinary-IsConsistent, claim_client-IsConsistent,
  install_client-IsConsistent, install_control-IsConsistent, take_client-IsConsistent,
  drop_control-IsConsistent, reinstall-IsConsistent, note_devices-IsConsistent,
  take_network-IsConsistent, start_relay-IsConsistent, start_manager-IsConsistent,
  start_network-IsConsistent, on_process_state-IsConsistent,
}

pub data Step (r : Runtime) : Runtime → Type 0 where
  claims_ordinary : (room_running : Bool) → Step r (claim_ordinary room_running r).0
  drops_ordinary : Step r (drop_ordinary r)
  claims_client : (cancel : ℕ) → Step r (claim_client cancel r).0
  installs_client : (manager : ℕ) (ip : Addr) → Step r (install_client manager ip r).0
  installs_control : (control cancel : ℕ) → Step r (install_control control cancel r).0
  takes_client : Step r (take_client r).0
  drops_control : (session : ℕ) (e : Error) → Step r (drop_control session e r)
  reinstalls : (session : ℕ) → Step r (reinstall_control session r).0
  notes_devices : (devices : List Device) → Step r (note_devices devices r).0
  notes_error : (e : Error) → Step r (record r { join_error = some e })
  starts_network : (out : Outside) → Step r (start_network out r).0
  takes_network : Step r (take_network r).0
  settles : (mode : NetworkMode) (value : Lifecycle) → Step r (settle mode value r)
  reported : (value : ProcessState) → Step r (on_process_state value r)
  calls_out : (c : Call) → Step r (call c r)

pub data Reach : Runtime → Type 0 where
  made : Reach fresh
  next : {r s : Runtime} → Reach r → Step r s → Reach s

Step-IsConsistent : (r : Runtime) {s : Runtime} → Step r s → IsConsistent r → IsConsistent s
Step-IsConsistent r (claims_ordinary room_running) v =
    (claim_ordinary-IsConsistent r v room_running).kept
Step-IsConsistent r drops_ordinary v = drop_ordinary-IsConsistent r v
Step-IsConsistent r (claims_client cancel) v = (claim_client-IsConsistent r v cancel).kept
Step-IsConsistent r (installs_client manager ip) v =
    (install_client-IsConsistent r v manager ip).kept
Step-IsConsistent r (installs_control control cancel) v =
    (install_control-IsConsistent r v control cancel).kept
Step-IsConsistent r takes_client v = take_client-IsConsistent r v
Step-IsConsistent r (drops_control session e) v = drop_control-IsConsistent r v session e
Step-IsConsistent r (reinstalls session) v = (reinstall-IsConsistent r v session).kept
Step-IsConsistent r (notes_devices devices) v = (note_devices-IsConsistent r v devices).kept
Step-IsConsistent r (notes_error e) v = aside r v
Step-IsConsistent r (starts_network out) v = (start_network-IsConsistent out r v).kept
Step-IsConsistent r takes_network v = take_network-IsConsistent r v
Step-IsConsistent r (settles mode value) v = aside r v
Step-IsConsistent r (reported value) v = on_process_state-IsConsistent value r v
Step-IsConsistent r (calls_out c) v = aside r v

-- In whatever order the parts of the operations run, and whatever they meet outside: a member's session
-- and the ordinary tunnels never run at once; without a session the runtime holds no manager, control session,
-- cancel function, device or address of one; and the host has a manager exactly when it has a relay.
pub Reach-IsConsistent : {r : Runtime} → Reach r → IsConsistent r
Reach-IsConsistent made = fresh-IsConsistent
Reach-IsConsistent (next {r} h t) = Step-IsConsistent r t (Reach-IsConsistent h)

-- What the state that is shown says of a member's session: it is shown as connected exactly when the
-- runtime has a control session, whatever the operations did before.
pub join_state-Reach :
    {r : Runtime}
    → Reach r
    → (join_state r ≡ connected → is_some r.client_control ≡ true)
      × (is_some r.client_control ≡ true → join_state r ≡ connected)
join_state-Reach {r} h = (
  says r,
  elim (Bool-cases r.client_session) [
    | inl on ↦ λ held. unfold join_state in rw (on, held) refl
    | inr off ↦ λ held.
        absurd (let l = (Reach-IsConsistent h).left_behind off in ground (arith, l.no_control))
  ],
)
  where
    says : (r : Runtime) → join_state r ≡ connected → is_some r.client_control ≡ true
    says r e = unfold join_state in ground arith
