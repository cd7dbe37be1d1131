-- ===== src/Core/Closes.antt =====
-- What the runtime opens for a room or a join, it closes again (internal/core/runtime.go): leaving a room.
pub mod Calls
pub mod Joins
pub mod Network
pub mod Started
use opl_core.Prelude.{
  ℕ, ◌≡◌, Bool, true, false, not, ◌&&◌, ◌||◌, List, ◌∷◌, ◌⊎◌, if◌then◌else◌, Option, some, none,
  Result, ok, err, is_some, arith, refl, Bool-cases, inl, inr, if_either, subst, ap,
}
use opl_core.Core.{
  NetworkMode, Lifecycle, Runtime, Outside, Error, Call, call, settle, set_lifecycle,
  manager_started, manager_closed, control_closed, canceled_control, canceled_join, engine_started,
  engine_stopped, internal_cleared, stopping, outside, network_active, not_ready, wire_guard_failed,
}
use opl_core.Core.Ordinary.{restart_openp2p}
use opl_core.Core.Network.{close, start_network, start_manager, start_relay}
use opl_core.Core.Client.{
  take_client, close_left, leave_engine, finish_leave, close_client, leave, Left, claim_client,
}
use opl_core.Core.Client.Join.{Attempt, Prepared, conclude_join, join_claimed, join}
use opl_core.Core.Reach.Consistent.{IsLeft}
use opl_core.Core.Reach.{Reach, Reach-IsConsistent}
use opl_core.Core.Closes.Calls.{IsCalled, last, earlier, IsCalled-cases}

-- The calls of one list are calls of the other.
abbrev Within : Runtime → Runtime → Type 0
Within r s = (c : Call) → IsCalled c r.calls → IsCalled c s.calls

close-Within : (f : ℕ → Call) (h : Option ℕ) (r : Runtime) → Within r (close f h r)
close-Within f none r c m = m
close-Within f (some x) r c m = earlier m

close-closes :
    (f : ℕ → Call) (h : Option ℕ) (r : Runtime) (x : ℕ)
    → h ≡ some x
    → IsCalled (f x) (close f h r).calls
close-closes f none r x e = absurd (ground arith)
close-closes f (some y) r x e = last (ground arith)

restart-Within : (out : Outside) (r : Runtime) → Within r (restart_openp2p out r).0
unfolding restart_openp2p
restart-Within out r c m =
    if_either (λ (x : Runtime × Result Error (Unit {0})). IsCalled c x.0.calls)
      (not out.engine_stops) (earlier m) (earlier (earlier m))

leave_engine-Within : (out : Outside) (r : Runtime) → Within r (leave_engine out r).0
unfolding leave_engine
leave_engine-Within out r c m =
    if_either (λ (x : Runtime × Bool). IsCalled c x.0.calls) (out.apps_read && r.ordinary_running)
      (restart-Within out r c m) (earlier m)

finish_leave-Within :
    (out : Outside) (h : Option ℕ) (x : Runtime × Bool) → Within x.0 (finish_leave out h x).0
unfolding finish_leave
finish_leave-Within out h (r, b) c m =
    if_either (λ (x : Runtime × Result Error (Unit {0})). IsCalled c x.0.calls) _ m m

-- Every handle that was taken out is closed.
record ClosesLeft (l : Left) (r : Runtime) : Type 0 where
  manager : (h : ℕ) → l.manager ≡ some h → IsCalled (manager_closed h) r.calls
  control : (h : ℕ) → l.control ≡ some h → IsCalled (control_closed h) r.calls
  cancel_control : (h : ℕ) → l.cancel_control ≡ some h → IsCalled (canceled_control h) r.calls
  cancel_join : (h : ℕ) → l.cancel_join ≡ some h → IsCalled (canceled_join h) r.calls

ClosesLeft-Within : (l : Left) (r s : Runtime) → Within r s → ClosesLeft l r → ClosesLeft l s
ClosesLeft-Within l r s w v = record {
  manager = λ h e. w _ (v.manager h e);
  control = λ h e. w _ (v.control h e);
  cancel_control = λ h e. w _ (v.cancel_control h e);
  cancel_join = λ h e. w _ (v.cancel_join h e);
}

close_left-ClosesLeft : (l : Left) (r : Runtime) → ClosesLeft l (close_left l r)
unfolding close_left
close_left-ClosesLeft l r =
    let r1 = close canceled_join l.cancel_join r in
    let r2 = close canceled_control l.cancel_control r1 in
    let r3 = close control_closed l.control r2 in
    record {
      manager = λ h e. close-closes manager_closed l.manager r3 h e;
      control = λ h e.
          close-Within manager_closed l.manager r3 _ (close-closes control_closed l.control r2 h e);
      cancel_control = λ h e. close-Within manager_closed l.manager r3 _ (
          close-Within control_closed l.control r2 _
            (close-closes canceled_control l.cancel_control r1 h e));
      cancel_join = λ h e. close-Within manager_closed l.manager r3 _ (
          close-Within control_closed l.control r2 _ (
            close-Within canceled_control l.cancel_control r1 _
              (close-closes canceled_join l.cancel_join r h e)));
    }

-- a guard that does not hold
passes {ℓ κ} :
    {A : Type ℓ} (P : A → Type κ) (b : Bool) (x : A) {y : A}
    → b ≡ true
    → P y
    → P (if not b then x else y)
passes P true x e h = h
passes P false x e h = absurd (ground arith)

close_client-ClosesLeft :
    (out : Outside) (r : Runtime) (l : Left)
    → l.active ≡ true
    → ClosesLeft l (close_client out (r, l)).0
unfolding close_client
close_client-ClosesLeft out r l on =
    let closed = close_left l (set_lifecycle stopping r) in
    let cleared = call internal_cleared closed in
    let ended = leave_engine out cleared in
    let w : Within closed (finish_leave out l.manager ended).0 = λ c m.
      finish_leave-Within out l.manager ended c (leave_engine-Within out cleared c (earlier m)) in
    passes (λ (x : Runtime × Result Error (Unit {0})). ClosesLeft l x.0) l.active _ on
      (ClosesLeft-Within l closed (finish_leave out l.manager ended).0 w
        (close_left-ClosesLeft l (set_lifecycle stopping r)))

-- What the runtime `r` holds of a member's session, its manager, its control session and its two cancel
-- functions, is closed or called in `s`.
pub record Closes (r s : Runtime) : Type 0 where
  pub manager : (h : ℕ) → r.client_manager ≡ some h → IsCalled (manager_closed h) s.calls
  pub control : (h : ℕ) → r.client_control ≡ some h → IsCalled (control_closed h) s.calls
  pub cancel_control : (h : ℕ) → r.client_cancel ≡ some h → IsCalled (canceled_control h) s.calls
  pub cancel_join : (h : ℕ) → r.join_cancel ≡ some h → IsCalled (canceled_join h) s.calls

-- Leaving closes what the runtime holds, where there is a session.
pub leave_session-Closes :
    (out : Outside) (r : Runtime) → r.client_session ≡ true → Closes r (leave out r).0
unfolding take_client leave
leave_session-Closes out r on =
    let c = close_client-ClosesLeft out (take_client r).0 (take_client r).1 on in
    record {
      manager = c.manager;
      control = c.control;
      cancel_control = c.cancel_control;
      cancel_join = c.cancel_join;
    }

-- Leaving a room, whatever the operations did before: the manager, the control session and the two cancel
-- functions that the runtime's fields hold are closed and called, also where `leave` returns early
-- because there is no session.
pub leave-Closes : {r : Runtime} → Reach r → (out : Outside) → Closes r (leave out r).0
unfolding take_client leave
leave-Closes {r} h out = elim (Bool-cases r.client_session) [
  | inl on ↦ leave_session-Closes out r on
  | inr off ↦
      let l = (Reach-IsConsistent h).left_behind off in
      record {
        manager = λ x e. absurd (ground (arith, l.no_manager));
        control = λ x e. absurd (ground (arith, l.no_control));
        cancel_control = λ x e. absurd (ground (arith, l.no_cancel));
        cancel_join = λ x e. absurd (ground (arith, l.no_join));
      }
]
