-- ===== src/Discovery/Relay/Once.antt =====
-- A frame is relayed once (internal/discovery/relay.go).
use opl_core.Prelude.{
  ℕ, suc, ap, ◌+◌, ◌≤◌, ◌≡◌, ◌≢◌, List, [], ◌∷◌, nat_eq, Bytes, length, Result, ok, err, arith,
  refl, sym, ◌∙◌, inl, inr, subst,
}
use opl_core.Prelude.Addr.{Addr, addr_eq}
use opl_core.Prelude.Dict.{lookup}
use opl_core.Discovery.Frame.{Frame, as4, flag_host_origin, duplicate, valid_sender, encode, decode}
use opl_core.Discovery.Frame
use opl_core.Discovery.Replay.{ReplayKey, ReplayWindow, key_eq, accept}
use opl_core.Discovery.Replay.Once.{accepted, refused, Holds, accept-Holds}
use opl_core.Discovery.Relay.{
  Floats, Relay, Outside, member, remote_frame, read_remote, drop_failed, read_local,
}
use opl_core.Discovery.Relay.Genuine.{drop_failed-calls}
use opl_core.Discovery.Relay.Window.{
  key_of, spend, Taken, member-Taken, member-refused, drop_failed-replay, read_local-replay,
  member-replay,
}

-- A frame that the relay reads, from a member or from the host's own device, and when.
pub data Event : Type 0 where
  remote : Outside → Bytes → Addr → ℕ → Event
  local : Outside → Frame → ℕ → Event

abbrev pub time : Event → ℕ
time (remote out b source t) = t
time (local out f t) = t

abbrev pub AreBy : ℕ → List Event → Type 0
AreBy last [] = Unit
AreBy last (e ∷ es) = (time e ≤ last) × AreBy last es

module _ {F : Type 0} (fl : Floats F) where
  abbrev pub hear : Event → Relay F → Relay F
  hear (remote out b source t) r = read_remote fl out b source t r
  hear (local out f t) r = read_local fl out f t r

  abbrev pub hear_all : List Event → Relay F → Relay F
  hear_all [] r = r
  hear_all (e ∷ es) r = hear_all es (hear e r)

  module _ {key : ReplayKey} {seen ttl : ℕ} where
    remote-Holds :
        (out : Outside) (source : Addr) (t spare : ℕ) (r : Relay F) (e : Result Frame.Error Frame)
        → Holds key seen ttl (suc spare) r.replay
        → t ≤ seen + ttl
        → Holds key seen ttl spare (remote_frame fl out source t r e).replay
    unfolding remote_frame
    remote-Holds out source t spare r (err e) v soon = spend v
    remote-Holds out source t spare r (ok f) v soon =
        subst (Holds key seen ttl spare)
          (sym (drop_failed-replay fl out (member fl out f source t r)))
          (member-replay fl out (Holds key seen ttl spare) f source t r (spend v)
            (accept-Holds source f.sequence t r.replay v soon))

    hear-Holds :
        (e : Event) (spare : ℕ) (r : Relay F)
        → Holds key seen ttl (suc spare) r.replay
        → time e ≤ seen + ttl
        → Holds key seen ttl spare (hear e r).replay
    unfolding read_remote
    hear-Holds (remote out b source t) spare r v soon =
        remote-Holds out source t spare r (decode b) v soon
    hear-Holds (local out f t) spare r v soon =
        subst (Holds key seen ttl spare) (sym (read_local-replay fl out f t r)) (spend v)

    hear_all-Holds :
        (es : List Event) (r : Relay F)
        → Holds key seen ttl (length es) r.replay
        → AreBy (seen + ttl) es
        → Holds key seen ttl 0 (hear_all es r).replay
    hear_all-Holds [] r v soon = v
    hear_all-Holds (e ∷ es) r v soon =
        hear_all-Holds es (hear e r)
          (hear-Holds e (length es) r
            (record { held = v.held; lives = v.lives; spare_room = omega (arith, v.spare_room) })
            soon.0)
          soon.1

module _ {F : Type 0} (fl : Floats F) (out later : Outside) (source : Addr) (now again : ℕ)
    (es : List Event) where
  refused_again :
      (f : Frame) (r s : Relay F)
      → Taken fl out (accept source f.sequence now r.replay) s.replay
      → AreBy (now + r.replay.ttl) es
      → length s.replay.entries + length es ≤ s.replay.max
      → again ≤ now + r.replay.ttl
      → (remote_frame fl later source again (hear_all fl es s) (ok f)).calls
        ≡ (hear_all fl es s).calls
  unfolding remote_frame
  refused_again f r s (taken, window) soon room again_soon =
      let (valid, stored, same) = accepted source f.sequence now r.replay taken in
      let v =
        hear_all-Holds fl es s
          (record {
            held = ap (λ (w : ReplayWindow). lookup (key_of source f) w.entries) window ∙ stored;
            lives = ap (λ (w : ReplayWindow). w.ttl) window ∙ same;
            spare_room = room;
          })
          soon in
      drop_failed-calls fl later (member fl later f source again (hear_all fl es s))
      ∙ member-refused fl later f source again (hear_all fl es s) (
          refused source f.sequence again (hear_all fl es s).replay valid v.held
            (rw (v.lives) again_soon))

  remote_frame-once :
      (r : Relay F) (e : Result Frame.Error Frame)
      → let s = remote_frame fl out source now r e in
        s.calls ≢ r.calls
        → AreBy (now + r.replay.ttl) es
        → length s.replay.entries + length es ≤ s.replay.max
        → again ≤ now + r.replay.ttl
        → (remote_frame fl later source again (hear_all fl es s) e).calls ≡ (hear_all fl es s).calls
  unfolding remote_frame
  remote_frame-once r (err e) changed soon room again_soon = absurd (changed refl)
  remote_frame-once r (ok f) changed soon room again_soon =
      let x = member fl out f source now r in
      elim (member-Taken fl out f source now r) [
        | inl same ↦ absurd (changed (drop_failed-calls fl out x ∙ same))
        | inr (taken, window) ↦
            refused_again f r (drop_failed fl x) (taken, drop_failed-replay fl out x ∙ window) soon
              room again_soon
      ]

-- Bytes for which something left the relay are read again from the same address, no later than the
-- window's time to live, after any frames, also none, that the relay has read in the meantime, from
-- members or from its own device, none of them later than that either, and no more than the replay
-- window has room to remember beside those it holds: nothing leaves the relay for the bytes again,
-- whoever the members then are.
pub read_remote-once :
    {F : Type 0} (fl : Floats F) (out later : Outside) (b : Bytes) (source : Addr) (now again : ℕ)
    (between : List Event) (r : Relay F)
    → (read_remote fl out b source now r).calls ≢ r.calls
    → AreBy (now + r.replay.ttl) between
    → length (read_remote fl out b source now r).replay.entries + length between
      ≤ (read_remote fl out b source now r).replay.max
    → again ≤ now + r.replay.ttl
    → (read_remote fl later b source again
        (hear_all fl between (read_remote fl out b source now r))).calls
      ≡ (hear_all fl between (read_remote fl out b source now r)).calls
unfolding read_remote
read_remote-once fl out later b source now again between r changed soon room again_soon =
    remote_frame-once fl out later source now again between r (decode b) changed soon room
      again_soon
