-- ===== src/Discovery/Relay/Genuine.antt =====
-- What the relay passes on (internal/discovery/relay.go).
use opl_core.Prelude.{
  if_known, ℕ, ◌≡◌, ◌⊎◌, Bool, true, false, not, ◌||◌, List, ◌∷◌, ◌==◌, ==_iff, nat_eq, Bytes,
  length, Result, ok, err, arith, refl, sym, inl, inr, if_either, subst,
}
use opl_core.Prelude.Addr.{Addr, addr_eq}
use opl_core.Prelude.Binary.{IsBytes}
use opl_core.Discovery.Frame.{Frame, valid_sender, encode, decode, flag_host_origin}
use opl_core.Discovery.Frame
use opl_core.Discovery.Frame.Canonical.{encode-decode_frame}
use opl_core.Discovery.Replay.{ReplayWindow, accept}
use opl_core.Discovery.Relay.{
  Floats, Relay, Outside, Call, injected, contains_ip, allow, deliver, deliver_allowed, deliver_new,
  member, remote_frame, read_remote, drop_failed, count_accepted,
}
use opl_core.Discovery.Relay.Fanout.{IsIn, contains_ip-IsIn, FansOut, fanout-FansOut}

module _ (out : Outside) where
  -- A frame, and the bytes it came in: it is injected, and then it may be fanned out.
  abbrev pub Delivers : Bytes → Frame → List Call → List Call → Type 0
  Delivers b f cs ds =
      (ds ≡ injected f.packet ∷ cs)
      ⊎ FansOut f.sender_ip b out.members_after (injected f.packet ∷ cs) ds

  -- The frame is the member's own.
  pub record IsGenuine (f : Frame) (source : Addr) : Type 0 where
    pub plain : f.flags ≡ 0
    pub own : f.sender_ip ≡ source
    pub joined : IsIn source out.members

  -- The bytes are a genuine frame, which is delivered.
  pub record Relays (b : Bytes) (source : Addr) (cs ds : List Call) : Type 0 where
    pub frame : Frame
    pub decoded : decode b ≡ ok frame
    pub is_genuine : IsGenuine frame source
    pub delivered :
        (ds ≡ injected frame.packet ∷ cs)
        ⊎ FansOut source b out.members_after (injected frame.packet ∷ cs) ds

  abbrev Passes : Bytes → Frame → Addr → List Call → List Call → Type 0
  Passes b f source cs ds = (ds ≡ cs) ⊎ (IsGenuine f source × Delivers b f cs ds)

  genuine :
      (b : Bytes) (f : Frame) (source : Addr) (cs ds : List Call)
      → IsGenuine f source
      → (ds ≡ cs) ⊎ Delivers b f cs ds
      → Passes b f source cs ds
  genuine b f source cs ds g (inl same) = inl same
  genuine b f source cs ds g (inr d) = inr (g, d)

  relayed :
      (b : Bytes) (f : Frame) (source : Addr) (cs ds : List Call)
      → decode b ≡ ok f
      → Passes b f source cs ds
      → (ds ≡ cs) ⊎ Relays b source cs ds
  relayed b f source cs ds h (inl same) = inl same
  relayed b f source cs ds h (inr (g, d)) = inr (record {
    frame = f;
    decoded = h;
    is_genuine = g;
    delivered =
        subst
          (λ i.
            (ds ≡ injected f.packet ∷ cs)
            ⊎ FansOut i b out.members_after (injected f.packet ∷ cs) ds)
          g.own d;
  })

module _ {F : Type 0} (fl : Floats F) (out : Outside) where
  allow-calls :
      (sender : Addr) (size now : ℕ) (r : Relay F) → (allow fl sender size now r).0.calls ≡ r.calls
  unfolding allow
  allow-calls sender size now r =
      if_either (λ (x : Relay F × Bool). x.0.calls ≡ r.calls) (not _) refl refl

  deliver_ok :
      (f : Frame) (b : Bytes) (r : Relay F)
      → Delivers out b f r.calls (deliver fl out f r (ok b)).0.calls
  unfolding deliver
  deliver_ok f b r =
      let told : Relay F = record r { calls = injected f.packet ∷ r.calls } in
      let counted : Relay F = record told { stats = count_accepted r.stats } in
      if_either (λ (x : Relay F × Bool). Delivers out b f r.calls x.0.calls)
        (not (out.injects f.packet)) (inl refl)
        (inr (fanout-FansOut f.sender_ip b fl out out.members_after counted))

  deliver_allowed-Delivers :
      (f : Frame) (b : Bytes) (cs : List Call) (x : Relay F × Bool)
      → encode f ≡ ok b
      → x.0.calls ≡ cs
      → ((deliver_allowed fl out f x).0.calls ≡ cs)
        ⊎ Delivers out b f cs (deliver_allowed fl out f x).0.calls
  unfolding deliver_allowed
  deliver_allowed-Delivers f b cs (s, false) e c = inl c
  deliver_allowed-Delivers f b cs (s, true) e c = inr (
      subst (λ y. Delivers out b f cs (deliver fl out f s y).0.calls) (sym e)
        (subst (λ ds. Delivers out b f ds (deliver fl out f s (ok b)).0.calls) c
          (deliver_ok f b s)))

  deliver_new-Delivers :
      (f : Frame) (b : Bytes) (source : Addr) (now : ℕ) (r : Relay F)
      (x : ReplayWindow × Result Frame.Error (Unit {0}))
      → encode f ≡ ok b
      → ((deliver_new fl out f source now r x).0.calls ≡ r.calls)
        ⊎ Delivers out b f r.calls (deliver_new fl out f source now r x).0.calls
  unfolding deliver_new
  deliver_new-Delivers f b source now r (w, err e) h = inl refl
  deliver_new-Delivers f b source now r (w, ok done) h =
      deliver_allowed-Delivers f b r.calls _ h
        (allow-calls source (length f.packet) now (record r { replay = w }))

  member-Passes :
      (f : Frame) (b : Bytes) (source : Addr) (now : ℕ) (r : Relay F)
      → encode f ≡ ok b
      → Passes out b f source r.calls (member fl out f source now r).0.calls
  unfolding member
  member-Passes f b source now r e =
      if_known (λ (x : Relay F × Bool). Passes out b f source r.calls x.0.calls)
        (not (f.flags == 0) || not (f.sender_ip == source) || not (contains_ip out.members source))
        (r, false) (deliver_new fl out f source now r (accept source f.sequence now r.replay))
        (λ bad. inl refl)
        (λ good.
          genuine out b f source r.calls _
            (record {
              plain = (==_iff f.flags 0).0 (ground arith);
              own = (==_iff f.sender_ip source).0 (ground arith);
              joined = contains_ip-IsIn out.members source (ground arith);
            })
            (deliver_new-Delivers f b source now r (accept source f.sequence now r.replay) e))

  pub drop_failed-calls : (x : Relay F × Bool) → (drop_failed fl x).calls ≡ x.0.calls
  drop_failed-calls (r, true) = refl
  drop_failed-calls (r, false) = refl

  remote_frame-Relays :
      (b : Bytes) (source : Addr) (now : ℕ) (r : Relay F) (e : Result Frame.Error Frame)
      → decode b ≡ e
      → IsBytes b
      → ((remote_frame fl out source now r e).calls ≡ r.calls)
        ⊎ Relays out b source r.calls (remote_frame fl out source now r e).calls
  unfolding remote_frame
  remote_frame-Relays b source now r (err e) h bytes = inl refl
  remote_frame-Relays b source now r (ok f) h bytes =
      let passes =
        subst (λ cs. Passes out b f source r.calls cs)
          (sym (drop_failed-calls (member fl out f source now r)))
          (member-Passes f b source now r (encode-decode_frame b bytes h)) in
      relayed out b f source r.calls _ h passes

-- Bytes that the host reads from a member's address: either nothing leaves the relay for them, or they are
-- a frame of that address itself, which a member of the room has, without the host's flag; then its
-- packet is injected, and if anything else leaves, it is exactly the very same bytes, to each other
-- member, and neither to the sender, to the host nor to anyone else.
pub read_remote-Relays :
    {F : Type 0} (fl : Floats F) (out : Outside) (b : Bytes) (source : Addr) (now : ℕ) (r : Relay F)
    → IsBytes b
    → ((read_remote fl out b source now r).calls ≡ r.calls)
      ⊎ Relays out b source r.calls (read_remote fl out b source now r).calls
unfolding read_remote
read_remote-Relays fl out b source now r bytes =
    remote_frame-Relays fl out b source now r (decode b) refl bytes
