-- ===== src/Core/Reach/Parts.antt =====
-- Each part of an operation keeps the runtime consistent (internal/core/runtime.go).
use opl_core.Prelude.{
  ℕ, ◌≡◌, Bool, true, false, not, ◌||◌, List, ◌∷◌, Option, some, none, is_some, arith, refl,
  if_either,
}
use opl_core.Prelude.Addr.{Addr}
use opl_core.Pairing.Stats.{Device}
use opl_core.Core.{
  manager_started, relay_started, listening, online, stopping, idle, lifecycle_is, Runtime, Outside,
  Error, ProcessState, call, on_process_state,
}
use opl_core.Core.Ordinary.{claim_ordinary, drop_ordinary}
use opl_core.Core.Network.{start_network, start_manager, start_relay, take_network}
use opl_core.Core.Client.{
  take_client, claim_client, install_client, drop_control, reinstall_control, note_devices,
}
use opl_core.Core.Client.Join.{install_control}
use opl_core.Core.Reach.Consistent.{IsConsistent, Keeps, keeps, Keeps-if, aside}

module _ (r : Runtime) (v : IsConsistent r) where
  -- with a session, nothing has to be empty
  in_session :
      (s : Runtime)
      → s.client_session ≡ true
      → s.ordinary_running ≡ false
      → is_some s.manager ≡ is_some s.relay
      → IsConsistent s
  in_session s on off both = record {
    exclusive = λ h. off;
    left_behind = λ h. absurd (ground arith);
    both = both;
  }

  unless_session : (not r.client_session) ≡ false → r.client_session ≡ true
  unless_session h = ground arith

  pub claim_ordinary-IsConsistent : (room_running : Bool) → Keeps (claim_ordinary room_running r)
  unfolding claim_ordinary
  claim_ordinary-IsConsistent room_running =
      Keeps-if (room_running || r.client_session || r.ordinary_running) (λ h. keeps _ _ v)
        λ h. keeps _ _ (record {
          exclusive = λ on. absurd (ground arith);
          left_behind = λ off.
              let l = v.left_behind off in
              record {
                no_manager = l.no_manager;
                no_control = l.no_control;
                no_cancel = l.no_cancel;
                no_join = l.no_join;
                no_devices = l.no_devices;
                no_ip = l.no_ip;
              };
          both = v.both;
        })

  pub drop_ordinary-IsConsistent : IsConsistent (drop_ordinary r)
  unfolding drop_ordinary
  drop_ordinary-IsConsistent = record {
    exclusive = λ on. refl;
    left_behind = λ off.
        let l = v.left_behind off in
        record {
          no_manager = l.no_manager;
          no_control = l.no_control;
          no_cancel = l.no_cancel;
          no_join = l.no_join;
          no_devices = l.no_devices;
          no_ip = l.no_ip;
        };
    both = v.both;
  }

  pub claim_client-IsConsistent : (cancel : ℕ) → Keeps (claim_client cancel r)
  unfolding claim_client
  claim_client-IsConsistent cancel =
      Keeps-if (r.client_session || r.ordinary_running) (λ h. keeps _ _ v)
        λ h. keeps _ _ (
          in_session
            (record r { client_session = true; join_cancel = some cancel; join_error = none }) refl
            (ground arith) v.both)

  pub install_client-IsConsistent : (manager : ℕ) (ip : Addr) → Keeps (install_client manager ip r)
  unfolding install_client
  install_client-IsConsistent manager ip =
      Keeps-if (not r.client_session) (λ h. keeps _ _ (aside r v))
        λ h. keeps _ _ (
          in_session (record r { client_manager = some manager; client_ip = some ip })
            (unless_session h) (v.exclusive (unless_session h)) v.both)

  pub install_control-IsConsistent : (control cancel : ℕ) → Keeps (install_control control cancel r)
  unfolding install_control
  install_control-IsConsistent control cancel =
      Keeps-if (not r.client_session) (λ h. keeps _ _ (aside r v))
        λ h. keeps _ _ (
          in_session
            (record r {
              client_control = some control;
              client_cancel = some cancel;
              join_cancel = none;
              join_error = none;
            })
            (unless_session h) (v.exclusive (unless_session h)) v.both)

  pub take_client-IsConsistent : IsConsistent (take_client r).0
  unfolding take_client
  take_client-IsConsistent = record {
    exclusive = λ on. absurd (ground arith);
    left_behind = λ off. record {
      no_manager = refl;
      no_control = refl;
      no_cancel = refl;
      no_join = refl;
      no_devices = refl;
      no_ip = refl;
    };
    both = v.both;
  }

  pub drop_control-IsConsistent :
      (session : ℕ) (e : Error) → IsConsistent (drop_control session e r)
  unfolding drop_control
  drop_control-IsConsistent session e = record {
    exclusive = v.exclusive;
    left_behind = λ off.
        let l = v.left_behind off in
        record {
          no_manager = l.no_manager;
          no_control = rw l.no_control refl;
          no_cancel = l.no_cancel;
          no_join = l.no_join;
          no_devices = l.no_devices;
          no_ip = l.no_ip;
        };
    both = v.both;
  }

  pub reinstall-IsConsistent : (session : ℕ) → Keeps (reinstall_control session r)
  unfolding reinstall_control
  reinstall-IsConsistent session =
      Keeps-if (not r.client_session) (λ h. keeps _ _ (aside r v))
        λ h. keeps _ _ (
          in_session
            (record r {
              client_control = some session;
              join_error = none;
              lifecycle_state = online;
            })
            (unless_session h) (v.exclusive (unless_session h)) v.both)

  pub note_devices-IsConsistent : (devices : List Device) → Keeps (note_devices devices r)
  unfolding note_devices
  note_devices-IsConsistent devices =
      Keeps-if (not r.client_session) (λ h. keeps _ _ v)
        λ h. keeps _ _ (
          in_session (record r { client_devices = devices }) (unless_session h)
            (v.exclusive (unless_session h)) v.both)

  -- the network's handles change together
  with_network :
      (m l : Option ℕ) (s : Runtime)
      → is_some m ≡ is_some l
      → IsConsistent s
      → IsConsistent (record s { manager = m; relay = l })
  with_network m l s e w = record {
    exclusive = w.exclusive;
    left_behind = λ off.
        let n = w.left_behind off in
        record {
          no_manager = n.no_manager;
          no_control = n.no_control;
          no_cancel = n.no_cancel;
          no_join = n.no_join;
          no_devices = n.no_devices;
          no_ip = n.no_ip;
        };
    both = e;
  }

  pub take_network-IsConsistent : IsConsistent (take_network r).0
  unfolding take_network
  take_network-IsConsistent = with_network none none r refl v

  pub start_relay-IsConsistent : (m : ℕ) (l : Option ℕ) → Keeps (start_relay m l r)
  unfolding start_relay
  start_relay-IsConsistent m none = keeps _ _ (aside r v)
  start_relay-IsConsistent m (some l) = keeps _ _ (
      with_network (some m) (some l)
        (record r { calls = relay_started l ∷ r.calls; lifecycle_state = listening }) refl
        (aside r v))

pub start_manager-IsConsistent :
    (m l : Option ℕ) (r : Runtime) → IsConsistent r → Keeps (start_manager m l r)
unfolding start_manager
start_manager-IsConsistent none l r v = keeps _ _ (aside r v)
start_manager-IsConsistent (some m) l r v =
    start_relay-IsConsistent (call (manager_started m) r) (aside r v) m l

pub start_network-IsConsistent :
    (out : Outside) (r : Runtime) → IsConsistent r → Keeps (start_network out r)
unfolding start_network
start_network-IsConsistent out r v =
    Keeps-if (is_some r.manager) (λ h. keeps _ _ v)
      λ h.
        Keeps-if r.client_session (λ h. keeps _ _ v)
          λ h.
            Keeps-if r.ordinary_running (λ h. keeps _ _ v)
              λ h.
                Keeps-if (not out.internal_clears) (λ h. keeps _ _ (aside r v))
                  λ h.
                    Keeps-if (not out.engine_starts) (λ h. keeps _ _ (aside r v))
                      λ h.
                        start_manager-IsConsistent out.manager_starts out.relay_starts _ (aside r v)

pub on_process_state-IsConsistent :
    (value : ProcessState) (r : Runtime) → IsConsistent r → IsConsistent (on_process_state value r)
unfolding on_process_state
on_process_state-IsConsistent value r v =
    if_either IsConsistent
      (lifecycle_is r.lifecycle_state stopping || lifecycle_is r.lifecycle_state idle) (aside r v)
      (aside r v)
