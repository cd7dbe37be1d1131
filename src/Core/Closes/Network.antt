-- ===== src/Core/Closes/Network.antt =====
-- A network that fails to start is closed (internal/core/runtime.go).
use opl_core.Prelude.{
  ℕ, ◌≡◌, not, List, ◌∷◌, ◌⊎◌, Option, some, none, Result, err, is_some, arith, refl, inl, inr,
  if_either, subst, ap,
}
use opl_core.Core.{
  Runtime, Outside, Error, Call, call, manager_started, manager_closed, engine_started,
  engine_stopped, internal_cleared, outside, network_active, not_ready, wire_guard_failed,
}
use opl_core.Core.Network.{start_network, start_manager, start_relay}
use opl_core.Core.Closes.Calls.{IsCalled, last, earlier, IsCalled-cases}

-- What `start_network` leaves where it fails: the runtime's handles as they were, and every manager
-- that it started closed.
pub record Undoes (r s : Runtime) : Type 0 where
  pub manager : s.manager ≡ r.manager
  pub relay : s.relay ≡ r.relay
  pub started :
      (m : ℕ)
      → IsCalled (manager_started m) s.calls
      → IsCalled (manager_started m) r.calls ⊎ IsCalled (manager_closed m) s.calls

abbrev FailsClean : Runtime → Runtime × Result Error (Unit {0}) → Type 0
FailsClean r x = (e : Error) → x.1 ≡ err e → Undoes r x.0

-- calls that start nothing
passed :
    {m : ℕ} {c : Call} {cs : List Call}
    → (manager_started m ≡ c → ⊥)
    → IsCalled (manager_started m) (c ∷ cs)
    → IsCalled (manager_started m) cs
passed n d = elim (IsCalled-cases d) [ inl e ↦ absurd (n e) | inr t ↦ t ]

start_relay-Undoes :
    (m : ℕ) (l : Option ℕ) (r s : Runtime)
    → s.manager ≡ r.manager
    → s.relay ≡ r.relay
    → s.calls ≡ manager_started m ∷ engine_started ∷ internal_cleared ∷ r.calls
    → FailsClean r (start_relay m l s)
unfolding start_relay
start_relay-Undoes m (some l) r s h1 h2 c e h = absurd (ground arith)
start_relay-Undoes m none r s h1 h2 c e h = record {
  manager = h1;
  relay = h2;
  started = λ n d. started n (
      IsCalled-cases (
        subst (λ cs. IsCalled (manager_started n) cs) c
          (passed (λ e. ground arith) (passed (λ e. ground arith) d))));
}
  where
    started :
        (n : ℕ)
        → (manager_started n ≡ manager_started m)
          ⊎ IsCalled (manager_started n) (engine_started ∷ internal_cleared ∷ r.calls)
        → IsCalled (manager_started n) r.calls
          ⊎ IsCalled (manager_closed n) (engine_stopped ∷ manager_closed m ∷ s.calls)
    started n (inl e) = inr (earlier (last (ground arith)))
    started n (inr d) = inl (passed (λ e. ground arith) (passed (λ e. ground arith) d))

-- `r` with these calls on top, none of them a start
record Quiet (r s : Runtime) : Type 0 where
  manager : s.manager ≡ r.manager
  relay : s.relay ≡ r.relay
  calls : (m : ℕ) → IsCalled (manager_started m) s.calls → IsCalled (manager_started m) r.calls

Quiet-FailsClean : (r s : Runtime) (e : Error) → Quiet r s → FailsClean r (s, err e)
Quiet-FailsClean r s e q e' h = record {
  manager = q.manager;
  relay = q.relay;
  started = λ m d. inl (q.calls m d);
}

start_manager-Undoes :
    (m l : Option ℕ) (r s : Runtime)
    → s.manager ≡ r.manager
    → s.relay ≡ r.relay
    → s.calls ≡ engine_started ∷ internal_cleared ∷ r.calls
    → FailsClean r (start_manager m l s)
unfolding start_manager
start_manager-Undoes (some m) l r s h1 h2 c =
    start_relay-Undoes m l r (call (manager_started m) s) h1 h2
      (ap (λ cs. manager_started m ∷ cs) c)
start_manager-Undoes none l r s h1 h2 c = Quiet-FailsClean r _ wire_guard_failed (record {
  manager = h1;
  relay = h2;
  calls = λ m d.
      passed (λ e. ground arith)
        (passed (λ e. ground arith)
          (subst (λ cs. IsCalled (manager_started m) cs) c (passed (λ e. ground arith) d)));
})

-- A network that fails to start, at whichever stage: the runtime keeps the manager and the relay that it had, and every
-- manager that was started on the way is closed again.
pub start_network-error :
    (out : Outside) (r s : Runtime) (e : Error) → start_network out r ≡ (s, err e) → Undoes r s
start_network-error out r s e h = subst (λ x. Undoes r x.0) h (clean e (ap (λ x. x.1) h))
  where
    unchanged : (e : Error) → FailsClean r (r, err e)
    unchanged e = Quiet-FailsClean r r e (record { manager = refl; relay = refl; calls = λ m d. d })

    clean : FailsClean r (start_network out r)
    clean =
        unfold start_network in
        if_either (FailsClean r) (is_some r.manager) (unchanged outside) (
          if_either (FailsClean r) r.client_session (unchanged outside) (
            if_either (FailsClean r) r.ordinary_running (unchanged network_active) (
              if_either (FailsClean r) (not out.internal_clears)
                (Quiet-FailsClean r _ not_ready (record {
                  manager = refl;
                  relay = refl;
                  calls = λ m d. passed (λ e. ground arith) d;
                }))
                (if_either (FailsClean r) (not out.engine_starts)
                  (Quiet-FailsClean r _ not_ready (record {
                    manager = refl;
                    relay = refl;
                    calls = λ m d. passed (λ e. ground arith) (passed (λ e. ground arith) d);
                  }))
                  (start_manager-Undoes out.manager_starts out.relay_starts r _ refl refl refl)))))
