-- ===== src/Core/Closes/Started.antt =====
-- The session that a join has started stays the runtime's until the join ends (internal/core/runtime.go).
use opl_core.Prelude.{
  ℕ, ◌≡◌, Bool, true, false, not, ◌&&◌, ◌||◌, List, [], ◌∷◌, nat_eq, Bytes, Option, some, none,
  Result, ok, err, arith, if_either,
}
use opl_core.Invite.{Invite}
use opl_core.Invite
use opl_core.Pairing.Messages.{PairResult}
use opl_core.Core.{
  internal_set, internal_cleared, canceled, Runtime, Outside, Error, Call, call,
  load_membership_key,
}
use opl_core.Core.Ordinary.{restart_openp2p}
use opl_core.Core.Client.{install_client, set_host_peer, configure, Joining, is_done}
use opl_core.Core.Client.Join.{
  Attempt, Prepared, Paired, configured_pair, attempt_pair, is_auth_failed, is_terminal, note_error,
  pair_loop, install_control, finish_session, finish_join, open_tunnel, with_keys, prepare_join,
}

-- A session is there, and the join that started it can be canceled.
pub record Started (cancel : ℕ) (r : Runtime) : Type 0 where
  pub session : r.client_session ≡ true
  pub join : r.join_cancel ≡ some cancel

Started-call : {cancel : ℕ} (c : Call) (r : Runtime) → Started cancel r → Started cancel (call c r)
Started-call c r v = record { session = v.session; join = v.join }

module _ (cancel : ℕ) where
  -- A result that, where it is an error, leaves the session as it was started.
  abbrev pub Fails : Runtime × Result Error (Unit {0}) → Type 0
  Fails x = (e : Error) → x.1 ≡ err e → Started cancel x.0

  -- the state, whatever the result
  abbrev At {ℓ} : {A : Type ℓ} → Runtime × A → Type 0
  At x = Started cancel x.0

  restart-Started :
      (out : Outside) (r : Runtime) → Started cancel r → Started cancel (restart_openp2p out r).0
  unfolding restart_openp2p
  restart-Started out r v =
      if_either (λ (x : Runtime × Result Error (Unit {0})). At x) (not out.engine_stops)
        (Started-call _ r v) (Started-call _ _ (Started-call _ r v))

  install_client-Started :
      (manager : ℕ) (result : PairResult) (r : Runtime)
      → Started cancel r
      → At (install_client manager result.assigned_ip r)
  unfolding install_client
  install_client-Started manager result r v =
      if_either (λ (x : Runtime × Result Error (Unit {0})). At x) (not r.client_session)
        (Started-call _ r v) (record { session = v.session; join = v.join })

  set_host_peer-Started :
      (out : Outside) (result : PairResult) (m : Option ℕ) (r : Runtime)
      → Started cancel r
      → At (set_host_peer out result m r)
  unfolding set_host_peer
  set_host_peer-Started out result none r v = v
  set_host_peer-Started out result (some manager) r v =
      let told = Started-call _ _ (Started-call _ r v) in
      if_either (λ (x : Runtime × Result Error (Unit {0})). At x) (not out.peer_sets)
        (Started-call _ _ told) (install_client-Started manager result _ told)

  configure-Started :
      (out : Outside) (j : Joining) (result : PairResult) (r : Runtime)
      → Started cancel r
      → At (configure out j result r)
  unfolding configure
  configure-Started out j result r v =
      let set = Started-call _ r v in
      let added = Started-call _ _ set in
      let P : Runtime × Result Error (Unit {0}) → Type 0 = λ x. At x in
      if_either P (not out.internal_sets) set (
        if_either P (not out.app_adds) added
          (set_host_peer-Started out result out.manager_starts _ added))

  configured_pair-Started :
      (a : Attempt) (j : Joining) (using : Bool) (psk : Bytes) (result : PairResult)
      (x : Runtime × Result Error (Unit {0}))
      → At x
      → At (configured_pair a j using psk result x)
  unfolding configured_pair
  configured_pair-Started a j using psk result (s, ok done) v = v
  configured_pair-Started a j using psk result (s, err e) v = v

  attempt_pair-Started :
      (a : Attempt) (j : Joining) (using : Bool) (psk : Bytes) (o : Option PairResult) (r : Runtime)
      → Started cancel r
      → At (attempt_pair a j using psk o r)
  unfolding attempt_pair
  attempt_pair-Started a j using psk none r v = v
  attempt_pair-Started a j using psk (some result) r v =
      configured_pair-Started a j using psk result _ (configure-Started a.out j result r v)

  note_error-Started :
      (e : Result Error ℕ) (r : Runtime) → Started cancel r → Started cancel (note_error e r)
  note_error-Started (ok control) r v = v
  note_error-Started (err e) r v = record { session = v.session; join = v.join }

  pair_loop-Started :
      (attempts : List Attempt) (j : Joining) (p : Paired) (r : Runtime)
      → Started cancel r
      → At (pair_loop attempts j p r)
  unfolding pair_loop
  pair_loop-Started [] j p r v = v
  pair_loop-Started (a ∷ rest) j p r v =
      let x = attempt_pair a j p.using_membership p.member_psk a.offered r in
      let q : Paired = record (x.1) { configured = p.configured || x.1.configured } in
      let w = attempt_pair-Started a j p.using_membership p.member_psk a.offered r v in
      let noted = note_error-Started q.session x.0 w in
      let P : Runtime × Paired → Type 0 = λ x. At x in
      if_either P (q.using_membership && is_auth_failed q.session)
        (pair_loop-Started rest j (record q { using_membership = false }) x.0 w)
        (if_either P (q.configured || is_terminal q.session || a.is_canceled) w (
          if_either P a.canceled_waiting noted
            (pair_loop-Started rest j q (note_error q.session x.0) noted)))

  install_control-Fails :
      (control canceling : ℕ) (r : Runtime)
      → Started cancel r
      → Fails (install_control control canceling r)
  unfolding install_control
  install_control-Fails control canceling r v =
      if_either Fails (not r.client_session) (λ e h. Started-call _ _ (Started-call _ r v))
        (λ e h. absurd (ground arith))

  finish_session-Fails :
      (out : Outside) (j : Joining) (canceling : ℕ) (r : Runtime) (p : Paired) (x : Result Error ℕ)
      → Started cancel r
      → Fails (finish_session out j canceling r p x)
  unfolding finish_session
  finish_session-Fails out j canceling r p (err e') v =
      λ e h. record { session = v.session; join = v.join }
  finish_session-Fails out j canceling r p (ok control) v =
      let saved =
        if_either (Started cancel) (j.fixed_device_key && not p.using_membership)
          (Started-call _ r v) v in
      if_either Fails (j.fixed_device_key && not p.using_membership && not out.membership_saves)
        (λ e h. saved) (install_control-Fails control canceling _ saved)

  open_tunnel-Fails :
      (out : Outside) (attempts : List Attempt) (canceling : ℕ) (keys : Bytes × Bool) (j : Joining)
      (r : Runtime)
      → Started cancel r
      → Fails (open_tunnel out attempts canceling keys j r)
  unfolding open_tunnel finish_join
  open_tunnel-Fails out attempts canceling (psk, known) j r v =
      let set = call (internal_set (j.pairing_app ∷ [])) r in
      let x = restart_openp2p out set in
      let was_set = Started-call (internal_set (j.pairing_app ∷ [])) r v in
      let restarted = restart-Started out set was_set in
      let start : Paired = record {
        using_membership = known;
        member_psk = psk;
        configured = false;
        session = err canceled;
      } in
      let looped = pair_loop attempts j start x.0 in
      if_either Fails (not out.internal_sets) (λ e h. was_set)
        (if_either Fails (not (is_done x.1)) (λ e h. Started-call internal_cleared x.0 restarted)
          (finish_session-Fails out j canceling looped.0 looped.1 looped.1.session
            (pair_loop-Started attempts j start x.0 restarted)))

  with_keys-Fails :
      (out : Outside) (attempts : List Attempt) (canceling : ℕ) (fixed : Bool) (r : Runtime)
      (invitation : Invite) (key : Option Bytes) (membership : Result Error (Bytes × Bool))
      (pair_port wire_guard_port : Option ℕ)
      → Started cancel r
      → Fails (
          with_keys out attempts canceling fixed r invitation key membership pair_port
            wire_guard_port)
  unfolding with_keys
  with_keys-Fails out attempts canceling fixed r invitation (some key) (ok m) (some p) (some w) v =
      open_tunnel-Fails out attempts canceling m _ r v
  with_keys-Fails out attempts canceling fixed r invitation none _ _ _ v = λ e h. v
  with_keys-Fails out attempts canceling fixed r invitation (some key) (err m) _ _ v = λ e h. v
  with_keys-Fails out attempts canceling fixed r invitation (some key) (ok m) none _ v = λ e h. v
  with_keys-Fails out attempts canceling fixed r invitation (some key) (ok m) (some p) none v =
      λ e h. v

  pub prepare_join-Fails :
      (out : Outside) (attempts : List Attempt) (canceling : ℕ) (fixed : Bool) (p : Prepared)
      (r : Runtime) (decoded : Result Invite.Error Invite)
      → Started cancel r
      → Fails (prepare_join out attempts canceling fixed p r decoded)
  unfolding prepare_join
  prepare_join-Fails out attempts canceling fixed p r (err e') v = λ e h. v
  prepare_join-Fails out attempts canceling fixed p r (ok invitation) v =
      if_either Fails (not p.config_loads) (λ e h. v)
        (with_keys-Fails out attempts canceling fixed r invitation p.public_key
          (load_membership_key p.membership fixed) p.pair_port p.wire_guard_port v)
