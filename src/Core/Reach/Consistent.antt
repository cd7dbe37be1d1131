-- ===== src/Core/Reach/Consistent.antt =====
-- What holds of the runtime between the parts of its operations (internal/core/runtime.go).
use opl_core.Prelude.{
  ◌≡◌, Bool, true, false, List, [], if◌then◌else◌, Option, none, is_some, refl, sym, ◌∙◌,
}
use opl_core.Core.{Runtime, Error, Call, Lifecycle, NetworkMode, ProcessState, fresh}

-- the fields of a member's session are empty
pub record IsLeft (r : Runtime) : Type 0 where
  pub no_manager : r.client_manager ≡ none
  pub no_control : r.client_control ≡ none
  pub no_cancel : r.client_cancel ≡ none
  pub no_join : r.join_cancel ≡ none
  pub no_devices : r.client_devices ≡ []
  pub no_ip : r.client_ip ≡ none

pub record IsConsistent (r : Runtime) : Type 0 where
  pub exclusive : r.client_session ≡ true → r.ordinary_running ≡ false
  pub left_behind : r.client_session ≡ false → IsLeft r
  pub both : is_some r.manager ≡ is_some r.relay

pub fresh-IsConsistent : IsConsistent fresh
fresh-IsConsistent = record {
  exclusive = λ h. refl;
  left_behind = λ h. record {
    no_manager = refl;
    no_control = refl;
    no_cancel = refl;
    no_join = refl;
    no_devices = refl;
    no_ip = refl;
  };
  both = refl;
}

-- A state with the same fields but the lifecycle, the mode, the error, the process and the calls.
pub record Agrees (r s : Runtime) : Type 0 where
  pub manager : s.manager ≡ r.manager
  pub relay : s.relay ≡ r.relay
  pub client_manager : s.client_manager ≡ r.client_manager
  pub client_control : s.client_control ≡ r.client_control
  pub client_cancel : s.client_cancel ≡ r.client_cancel
  pub join_cancel : s.join_cancel ≡ r.join_cancel
  pub client_devices : s.client_devices ≡ r.client_devices
  pub client_ip : s.client_ip ≡ r.client_ip
  pub client_session : s.client_session ≡ r.client_session
  pub ordinary_running : s.ordinary_running ≡ r.ordinary_running

pub agree-IsConsistent : (r s : Runtime) → Agrees r s → IsConsistent r → IsConsistent s
agree-IsConsistent r s e v = record {
  exclusive = λ h. e.ordinary_running ∙ v.exclusive (sym e.client_session ∙ h);
  left_behind = λ h.
      let l = v.left_behind (sym e.client_session ∙ h) in
      record {
        no_manager = e.client_manager ∙ l.no_manager;
        no_control = e.client_control ∙ l.no_control;
        no_cancel = e.client_cancel ∙ l.no_cancel;
        no_join = e.join_cancel ∙ l.no_join;
        no_devices = e.client_devices ∙ l.no_devices;
        no_ip = e.client_ip ∙ l.no_ip;
      };
  both = rw (e.manager, e.relay) v.both;
}

-- What a part with a result leaves.
pub record Keeps {ℓ} {R : Type ℓ} (x : Runtime × R) : Type 0 where
  pub kept : IsConsistent x.0

pub keeps {ℓ} : {R : Type ℓ} (r : Runtime) (result : R) → IsConsistent r → Keeps (r, result)
keeps r result v = record { kept = v }

pub Keeps-if {ℓ} :
    {R : Type ℓ} (b : Bool) {x y : Runtime × R}
    → (b ≡ true → Keeps x)
    → (b ≡ false → Keeps y)
    → Keeps (if b then x else y)
Keeps-if true h g = h refl
Keeps-if false h g = g refl

-- The other fields are free.
pub aside :
    (r : Runtime) {e : Option Error} {p : ProcessState} {l : Lifecycle} {m : NetworkMode}
    {cs : List Call}
    → IsConsistent r
    → IsConsistent (record r {
      join_error = e;
      process_state = p;
      lifecycle_state = l;
      network_mode = m;
      calls = cs;
    })
aside r v =
    agree-IsConsistent r _
      (record {
        manager = refl;
        relay = refl;
        client_manager = refl;
        client_control = refl;
        client_cancel = refl;
        join_cancel = refl;
        client_devices = refl;
        client_ip = refl;
        client_session = refl;
        ordinary_running = refl;
      })
      v
