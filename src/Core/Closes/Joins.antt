-- ===== src/Core/Closes/Joins.antt =====
-- A join that fails leaves the room (internal/core/runtime.go).
use opl_core.Prelude.{
  ℕ, ◌≡◌, Bool, true, false, not, ◌&&◌, ◌||◌, List, ◌⊎◌, Option, some, none, Result, ok, err, arith,
  refl, inl, inr, if_either, subst, sym, ap, Bool-cases, if_known,
}
use opl_core.Core.{
  NetworkMode, Lifecycle, Runtime, Outside, Error, Call, call, settle, set_lifecycle,
  manager_closed, control_closed, canceled_control, canceled_join, engine_started, engine_stopped,
  internal_cleared, stopping,
}
use opl_core.Core.Ordinary.{restart_openp2p}
use opl_core.Core.Network.{close}
use opl_core.Core.Client.{
  take_client, close_left, leave_engine, finish_leave, close_client, leave, Left, claim_client,
}
use opl_core.Core.Client.Join.{Attempt, Prepared, conclude_join, prepare_join, join_claimed, join}
use opl_core.Invite
use opl_core.Core.{client, joining, network_active, outside}
use opl_core.Core.Closes.{Closes, leave_session-Closes}
use opl_core.Core.Closes.Calls.{IsCalled}
use opl_core.Core.Closes.Started.{Started, Fails, prepare_join-Fails}
use opl_core.Core.Reach.Consistent.{IsLeft}

-- A member's fields are as `take_client` leaves them.
pub record IsOut (r : Runtime) : Type 0 where
  pub out : r.client_session ≡ false
  pub left : IsLeft r

-- The calls, the lifecycle and the mode do not matter.
IsOut-calls : (c : Call) (r : Runtime) → IsOut r → IsOut (call c r)
IsOut-calls c r v = record {
  out = v.out;
  left = record {
    no_manager = v.left.no_manager;
    no_control = v.left.no_control;
    no_cancel = v.left.no_cancel;
    no_join = v.left.no_join;
    no_devices = v.left.no_devices;
    no_ip = v.left.no_ip;
  };
}

IsOut-settle : (m : NetworkMode) (l : Lifecycle) (r : Runtime) → IsOut r → IsOut (settle m l r)
IsOut-settle m l r v = record {
  out = v.out;
  left = record {
    no_manager = v.left.no_manager;
    no_control = v.left.no_control;
    no_cancel = v.left.no_cancel;
    no_join = v.left.no_join;
    no_devices = v.left.no_devices;
    no_ip = v.left.no_ip;
  };
}

IsOut-close : (f : ℕ → Call) (h : Option ℕ) (r : Runtime) → IsOut r → IsOut (close f h r)
IsOut-close f none r v = v
IsOut-close f (some x) r v = IsOut-calls (f x) r v

close_left-IsOut : (l : Left) (r : Runtime) → IsOut r → IsOut (close_left l r)
unfolding close_left
close_left-IsOut l r v = IsOut-close manager_closed l.manager _ (
    IsOut-close control_closed l.control _ (
      IsOut-close canceled_control l.cancel_control _
        (IsOut-close canceled_join l.cancel_join r v)))

leave_engine-IsOut : (out : Outside) (r : Runtime) → IsOut r → IsOut (leave_engine out r).0
unfolding leave_engine restart_openp2p
leave_engine-IsOut out r v =
    let stopped = IsOut-calls engine_stopped r v in
    if_either (λ (x : Runtime × Bool). IsOut x.0) (out.apps_read && r.ordinary_running)
      (if_either (λ (x : Runtime × Result Error (Unit {0})). IsOut x.0) (not out.engine_stops)
        stopped (IsOut-calls engine_started (call engine_stopped r) stopped))
      stopped

finish_leave-IsOut :
    (out : Outside) (h : Option ℕ) (x : Runtime × Bool) → IsOut x.0 → IsOut (finish_leave out h x).0
unfolding finish_leave
finish_leave-IsOut out h (r, b) v =
    if_either (λ (x : Runtime × Result Error (Unit {0})). IsOut x.0) _ (IsOut-settle _ _ r v)
      (IsOut-settle _ _ r v)

close_client-IsOut :
    (out : Outside) (r : Runtime) (l : Left) → IsOut r → IsOut (close_client out (r, l)).0
unfolding close_client
close_client-IsOut out r l v =
    let closed =
      close_left-IsOut l (set_lifecycle stopping r) (IsOut-settle r.network_mode stopping r v) in
    if_either (λ (x : Runtime × Result Error (Unit {0})). IsOut x.0) (not l.active) v
      (finish_leave-IsOut out l.manager _
        (leave_engine-IsOut out _ (IsOut-calls internal_cleared _ closed)))

leave-IsOut : (out : Outside) (r : Runtime) → IsOut (leave out r).0
unfolding leave take_client
leave-IsOut out r = close_client-IsOut out _ (take_client r).1 (record {
  out = refl;
  left = record {
    no_manager = refl;
    no_control = refl;
    no_cancel = refl;
    no_join = refl;
    no_devices = refl;
    no_ip = refl;
  };
})

module _ (out : Outside) (attempts : List Attempt) (cancel : ℕ) (fixed : Bool) (p : Prepared)
    (r : Runtime) where
  -- The join from the point where it has its session to the point where it fails or succeeds.
  abbrev pub opened : Runtime × Result Error (Unit {0})
  opened =
      prepare_join out attempts cancel fixed p (settle client joining (claim_client cancel r).0)
        (Invite.decode p.code)

  -- nothing was done, and why
  abbrev pub IsRefused : Runtime → Error → Type 0
  IsRefused s e =
      (s ≡ r)
      × ((out.room_running ≡ true)
          ⊎ (((r.client_session || r.ordinary_running) ≡ true) × (e ≡ network_active)))

  -- The room was left again: nothing of the session is there, the join's own cancel function was
  -- called, and what the runtime held when the join failed is closed.
  pub record IsUndone (s : Runtime) : Type 0 where
    pub no_room : out.room_running ≡ false
    pub was_free : (r.client_session || r.ordinary_running) ≡ false
    pub is_out : IsOut s
    pub canceled : IsCalled (canceled_join cancel) s.calls
    pub closes : Closes opened.0 s

  abbrev Refuses : Runtime × Result Error (Unit {0}) → Type 0
  Refuses x = (e : Error) → x.1 ≡ err e → IsRefused x.0 e ⊎ IsUndone x.0

  concluded :
      (x : Runtime × Result Error (Unit {0}))
      → opened ≡ x
      → out.room_running ≡ false
      → (r.client_session || r.ordinary_running) ≡ false
      → Fails cancel x
      → Refuses (conclude_join out x)
  unfolding conclude_join
  concluded (f, ok done) o idle free fails e h = absurd (ground arith)
  concluded (f, err e') o idle free fails e h =
      let v = fails e' refl in
      let c = leave_session-Closes out f v.session in
      inr (record {
        no_room = idle;
        was_free = free;
        is_out = leave-IsOut out f;
        canceled = c.cancel_join cancel v.join;
        closes = subst (λ g. Closes g (leave out f).0) (sym (ap (λ x. x.0) o)) c;
      })

  claimed :
      (r.client_session || r.ordinary_running) ≡ false
      → Started cancel (settle client joining (claim_client cancel r).0)
  unfolding claim_client
  claimed free = rw free (record { session = refl; join = refl })

  claim_busy : (r.client_session || r.ordinary_running) ≡ true → claim_client cancel r ≡ (r, false)
  unfolding claim_client
  claim_busy busy = rw busy refl

  claim_free :
      (r.client_session || r.ordinary_running) ≡ false
      → claim_client cancel r ≡ ((claim_client cancel r).0, true)
  unfolding claim_client
  claim_free free = rw free refl

  -- the part behind the test whether a room runs
  claimed-Refuses :
      out.room_running ≡ false
      → Refuses (join_claimed out attempts cancel fixed p (claim_client cancel r))
  unfolding join_claimed
  claimed-Refuses idle =
      let P : Runtime × Bool → Type 0 = λ x. Refuses (join_claimed out attempts cancel fixed p x) in
      elim (Bool-cases (r.client_session || r.ordinary_running)) [
        | inl busy ↦ subst P (sym (claim_busy busy)) (λ e h. inl (refl, inr (busy, ground arith)))
        | inr free ↦ subst P (sym (claim_free free)) (
            concluded opened refl idle free (
              prepare_join-Fails cancel out attempts cancel fixed p
                (settle client joining (claim_client cancel r).0) (Invite.decode p.code)
                (claimed free)))
      ]

  join-Refuses : Refuses (join out attempts cancel fixed p r)
  unfolding join
  join-Refuses =
      if_known Refuses out.room_running (r, err outside)
        (join_claimed out attempts cancel fixed p (claim_client cancel r))
        (λ runs e h. inl (refl, inl runs)) claimed-Refuses

-- A join that fails, whatever it meets and at whichever of its stages. Either it has changed nothing, and
-- a room runs here, or the session of a room or the ordinary network was there already and the error
-- says so. Or none of these was there, and it has left the room again: the runtime holds no session
-- and no manager, control session, cancel function, device or address of one, the join's own cancel
-- function was called, and the manager, the control session and the cancel functions that the
-- runtime held when the join failed are closed and called.
pub join-error :
    (out : Outside) (attempts : List Attempt) (cancel : ℕ) (fixed : Bool) (p : Prepared)
    (r s : Runtime) (e : Error)
    → join out attempts cancel fixed p r ≡ (s, err e)
    → IsRefused out attempts cancel fixed p r s e ⊎ IsUndone out attempts cancel fixed p r s
join-error out attempts cancel fixed p r s e h =
    subst
      (λ x.
        IsRefused out attempts cancel fixed p r x.0 e ⊎ IsUndone out attempts cancel fixed p r x.0)
      h (join-Refuses out attempts cancel fixed p r e (ap (λ x. x.1) h))
