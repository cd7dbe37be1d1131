-- ===== src/Discovery/Relay/Window.antt =====
-- What the relay does with its replay window (internal/discovery/relay.go).
use opl_core.Prelude.{
  ℕ, suc, ◌≡◌, ◌⊎◌, Bool, true, false, not, ◌||◌, List, [], ◌∷◌, ◌==◌, nat_eq, Bytes, length,
  Result, ok, err, arith, refl, sym, ◌∙◌, inl, inr, if_either, subst,
}
use opl_core.Prelude.Addr.{Addr, addr_eq, zero_addr}
use opl_core.Discovery.Frame.{Frame, as4, flag_host_origin, duplicate, valid_sender, encode, decode}
use opl_core.Discovery.Frame
use opl_core.Discovery.Replay.{ReplayKey, ReplayWindow, key_eq, accept}
use opl_core.Discovery.Replay.Once.{Holds}
use opl_core.Discovery.Relay.{
  Floats, Relay, Outside, host_ip, contains_ip, allow, fanout, deliver, deliver_allowed,
  deliver_new, member, drop_failed, host, announce, announce_allowed, read_local,
}

-- the key under which the window holds a frame
abbrev pub key_of : Addr → Frame → ReplayKey
key_of source f = record { sender = as4 source; sequence = f.sequence }

pub spend :
    {key : ReplayKey} {seen ttl spare : ℕ} {w : ReplayWindow}
    → Holds key seen ttl (suc spare) w
    → Holds key seen ttl spare w
spend v = record { held = v.held; lives = v.lives; spare_room = omega (arith, v.spare_room) }

module _ {F : Type 0} (fl : Floats F) (out : Outside) where
  fanout-replay :
      (sender : Addr) (payload : Bytes) (ms : List Addr) (r : Relay F)
      → (fanout fl out sender payload ms r).replay ≡ r.replay
  unfolding fanout
  fanout-replay sender payload [] r = refl
  fanout-replay sender payload (m ∷ ms) r =
      if_either (λ (x : Relay F). x.replay ≡ r.replay)
        (m == sender || not (valid_sender m) || m == host_ip) (fanout-replay sender payload ms r)
        (fanout-replay sender payload ms _)

  deliver-replay :
      (f : Frame) (r : Relay F) (e : Result Frame.Error Bytes)
      → (deliver fl out f r e).0.replay ≡ r.replay
  unfolding deliver
  deliver-replay f r (err e) = refl
  deliver-replay f r (ok payload) =
      if_either (λ (x : Relay F × Bool). x.0.replay ≡ r.replay) (not (out.injects f.packet)) refl
        (fanout-replay f.sender_ip payload out.members_after _)

  deliver_allowed-replay :
      (f : Frame) (x : Relay F × Bool) → (deliver_allowed fl out f x).0.replay ≡ x.0.replay
  unfolding deliver_allowed
  deliver_allowed-replay f (r, false) = refl
  deliver_allowed-replay f (r, true) = deliver-replay f r (encode f)

  allow-replay :
      (sender : Addr) (size now : ℕ) (r : Relay F)
      → (allow fl sender size now r).0.replay ≡ r.replay
  unfolding allow
  allow-replay sender size now r =
      if_either (λ (x : Relay F × Bool). x.0.replay ≡ r.replay) (not _) refl refl

  -- The window took the frame, and is the relay's now.
  abbrev pub Taken : ReplayWindow × Result Frame.Error (Unit {0}) → ReplayWindow → Type 0
  Taken x w = (x.1 ≡ ok tt) × (w ≡ x.0)

  deliver_new-Taken :
      (f : Frame) (source : Addr) (now : ℕ) (r : Relay F)
      (x : ReplayWindow × Result Frame.Error (Unit {0}))
      → ((deliver_new fl out f source now r x).0.calls ≡ r.calls)
        ⊎ Taken x (deliver_new fl out f source now r x).0.replay
  unfolding deliver_new
  deliver_new-Taken f source now r (w, err e) = inl refl
  deliver_new-Taken f source now r (w, ok done) = inr (
    refl,
    deliver_allowed-replay f (allow fl source (length f.packet) now (record r { replay = w }))
        ∙ allow-replay source (length f.packet) now (record r { replay = w }),
  )

  pub member-Taken :
      (f : Frame) (source : Addr) (now : ℕ) (r : Relay F)
      → ((member fl out f source now r).0.calls ≡ r.calls)
        ⊎ Taken (accept source f.sequence now r.replay) (member fl out f source now r).0.replay
  unfolding member
  member-Taken f source now r =
      if_either
        (λ (x : Relay F × Bool).
          (x.0.calls ≡ r.calls) ⊎ Taken (accept source f.sequence now r.replay) x.0.replay)
        (not (f.flags == 0) || not (f.sender_ip == source) || not (contains_ip out.members source))
        (inl refl) (deliver_new-Taken f source now r (accept source f.sequence now r.replay))

  deliver_new-refused :
      (f : Frame) (source : Addr) (now : ℕ) (r : Relay F) (e : Frame.Error)
      (x : ReplayWindow × Result Frame.Error (Unit {0}))
      → x.1 ≡ err e
      → (deliver_new fl out f source now r x).0.calls ≡ r.calls
  unfolding deliver_new
  deliver_new-refused f source now r e (w, err e') h = refl
  deliver_new-refused f source now r e (w, ok done) h = absurd (ground arith)

  pub member-refused :
      (f : Frame) (source : Addr) (now : ℕ) (r : Relay F)
      → (accept source f.sequence now r.replay).1 ≡ err duplicate
      → (member fl out f source now r).0.calls ≡ r.calls
  unfolding member
  member-refused f source now r h =
      if_either (λ (x : Relay F × Bool). x.0.calls ≡ r.calls)
        (not (f.flags == 0) || not (f.sender_ip == source) || not (contains_ip out.members source))
        refl (deliver_new-refused f source now r duplicate _ h)

  pub drop_failed-replay : (x : Relay F × Bool) → (drop_failed fl x).replay ≡ x.0.replay
  drop_failed-replay (r, true) = refl
  drop_failed-replay (r, false) = refl

module _ {F : Type 0} (fl : Floats F) (out : Outside) where
  announce-replay :
      (r : Relay F) (e : Result Frame.Error Bytes) → (announce fl out r e).0.replay ≡ r.replay
  unfolding announce
  announce-replay r (err e) = refl
  announce-replay r (ok payload) = fanout-replay fl out zero_addr payload out.members_after _

  announce_allowed-replay :
      (f : Frame) (x : Relay F × Bool) → (announce_allowed fl out f x).0.replay ≡ x.0.replay
  unfolding announce_allowed
  announce_allowed-replay f (r, false) = refl
  announce_allowed-replay f (r, true) = announce-replay r (encode f)

  pub read_local-replay :
      (f : Frame) (now : ℕ) (r : Relay F) → (read_local fl out f now r).replay ≡ r.replay
  unfolding read_local host
  read_local-replay f now r =
      drop_failed-replay fl out (host fl out f now r)
      ∙ if_either (λ (x : Relay F × Bool). x.0.replay ≡ r.replay)
          (not (f.flags == flag_host_origin) || not (f.sender_ip == host_ip)) refl
          (announce_allowed-replay f (allow fl f.sender_ip (length f.packet) now r)
            ∙ allow-replay fl out f.sender_ip (length f.packet) now r)

  deliver_new-replay :
      (f : Frame) (source : Addr) (now : ℕ) (r : Relay F)
      (x : ReplayWindow × Result Frame.Error (Unit {0}))
      → (deliver_new fl out f source now r x).0.replay ≡ x.0
  unfolding deliver_new
  deliver_new-replay f source now r (w, err e) = refl
  deliver_new-replay f source now r (w, ok done) =
      deliver_allowed-replay fl out f
        (allow fl source (length f.packet) now (record r { replay = w }))
      ∙ allow-replay fl out source (length f.packet) now (record r { replay = w })

  -- A frame of a member leaves the window as it is, or as `accept` leaves it.
  pub member-replay {ℓ} :
      (P : ReplayWindow → Type ℓ) (f : Frame) (source : Addr) (now : ℕ) (r : Relay F)
      → P r.replay
      → P (accept source f.sequence now r.replay).0
      → P (member fl out f source now r).0.replay
  unfolding member
  member-replay P f source now r same taken =
      if_either (λ (x : Relay F × Bool). P x.0.replay)
        (not (f.flags == 0) || not (f.sender_ip == source) || not (contains_ip out.members source))
        same
        (subst P (sym (deliver_new-replay f source now r (accept source f.sequence now r.replay)))
          taken)
