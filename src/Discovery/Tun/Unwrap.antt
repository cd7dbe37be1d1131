-- ===== src/Discovery/Tun/Unwrap.antt =====
-- What a client's device is given of the packets that arrive (internal/discovery/tun.go).
use opl_core.Prelude.{
  ℕ, ◌+◌, ◌≤◌, ◌<◌, ◌≡◌, List, [], ◌∷◌, ◌++◌, arith, refl, Bytes, length, some, none, ok, err,
  ==_self, nat_eq, bytes_eq, ap,
}
use opl_core.Prelude.Addr.{v4, addr_eq}
use opl_core.Prelude.Binary.{put_u16, get_u16}
use opl_core.Discovery.Frame.{Frame, encode, decode, duplicate}
use opl_core.Discovery.Frame.RoundTrip.{
  encode_ok, valid_packet_bounds, valid_sender-v4, length-header,
}
use opl_core.Discovery.Replay.{ReplayWindow, accept}
use opl_core.Discovery.Replay.Once.{accept-accept}
use opl_core.Discovery.Tun.{
  build_ipv4_udp, relay_payload, DiscoveryTun, deliver, deliver_frame, packets_of, if_ok, host_ip,
  write_client, frame_of,
}

-- The payload of a packet that was built for these addresses and this port is read back from it.
pub relay_payload-build :
    (a b c d x y z w port : ℕ) (payload : Bytes)
    → port < 65536
    → 28 + length payload < 65536
    → relay_payload
        (build_ipv4_udp (v4 a b c d) (v4 x y z w) port port payload)
        (v4 a b c d)
        (v4 x y z w)
        port
      ≡ some payload
unfolding relay_payload build_ipv4_udp put_u16 get_u16
relay_payload-build a b c d x y z w port payload p h =
    ground (arith, ==_self (v4 a b c d), ==_self (v4 x y z w))

pub length-build :
    (a b c d x y z w port : ℕ) (payload : Bytes)
    → length (build_ipv4_udp (v4 a b c d) (v4 x y z w) port port payload) ≡ 28 + length payload
unfolding build_ipv4_udp put_u16
length-build a b c d x y z w port payload = omega arith

frame_of-sequence :
    (d : DiscoveryTun) (packet : Bytes) → (frame_of d packet).sequence < 18446744073709551616
unfolding frame_of
frame_of-sequence d packet = omega arith

pub length-encode : (v : Frame) {b : Bytes} → encode v ≡ ok b → 28 + length b < 65536
length-encode v h =
    let (flags, packet, bytes) = encode_ok v h in
    let (sender, small, large) = valid_packet_bounds v.sender_ip v.packet packet in
    let (d, ip, lo, hi) = valid_sender-v4 v.sender_ip sender in
    rw bytes (omega (arith, length-header v 10 0 23 d ip))

-- A packet that carries `b` from the host to this client, as `Write` looks for it.
abbrev Carries : DiscoveryTun → Bytes → Bytes → Type 0
Carries d p b = relay_payload p host_ip d.local_ip d.relay_port ≡ some b

-- None of the packets is for the relay's port.
abbrev pub AreOrdinary : DiscoveryTun → List (Bytes × ℕ) → Type 0
AreOrdinary d [] = Unit
AreOrdinary d ((p, now) ∷ ps) =
    (relay_payload p host_ip d.local_ip d.relay_port ≡ none) × AreOrdinary d ps

module _ (d : DiscoveryTun) (v : Frame) (p : Bytes) (now : ℕ) {b : Bytes} (carried : Carries d p b)
    (decoded : decode b ≡ ok v) where
  deliver-new :
      (accept v.sender_ip v.sequence now d.replay).1 ≡ ok tt
      → deliver d now p ≡ ((accept v.sender_ip v.sequence now d.replay).0, some v.packet)
  unfolding deliver deliver_frame
  deliver-new h =
      rw (carried, decoded)
        (ap (λ r. ((accept v.sender_ip v.sequence now d.replay).0, if_ok r v.packet)) h)

  deliver-old :
      (accept v.sender_ip v.sequence now d.replay).1 ≡ err duplicate
      → deliver d now p ≡ ((accept v.sender_ip v.sequence now d.replay).0, none)
  unfolding deliver deliver_frame
  deliver-old h =
      rw (carried, decoded)
        (ap (λ r. ((accept v.sender_ip v.sequence now d.replay).0, if_ok r v.packet)) h)

deliver-ordinary :
    (d : DiscoveryTun) (p : Bytes) (now : ℕ)
    → relay_payload p host_ip d.local_ip d.relay_port ≡ none
    → deliver d now p ≡ (d.replay, some p)
unfolding deliver
deliver-ordinary d p now h = rw h refl

write_client-ordinary :
    (d : DiscoveryTun) (ps : List (Bytes × ℕ)) (q : Bytes) (again : ℕ) (w : ReplayWindow)
    → AreOrdinary d ps
    → deliver d again q ≡ (w, none)
    → (write_client d (ps ++ (q, again) ∷ [])).1 ≡ packets_of ps
unfolding write_client
write_client-ordinary d [] q again w h e = rw e refl
write_client-ordinary d ((p, now) ∷ ps) q again w h e =
    rw (deliver-ordinary d p now h.0) (ap (λ r. p ∷ r) (write_client-ordinary d ps q again w h.1 e))

-- Two packets of one batch that carry the same frame from the host's address to this client's relay
-- port, with any packets between them that are not for that port: the packet that the frame wraps
-- reaches the client's device once, in the place of the first, if the window accepts the frame
-- there and the second comes no later than the window's time to live; the packets between them
-- reach it unchanged.
pub write_client-relayed :
    (d : DiscoveryTun) (v : Frame) (p q : Bytes) (now again : ℕ) (between : List (Bytes × ℕ))
    {b : Bytes}
    → relay_payload p host_ip d.local_ip d.relay_port ≡ some b
    → relay_payload q host_ip d.local_ip d.relay_port ≡ some b
    → decode b ≡ ok v
    → AreOrdinary d between
    → (accept v.sender_ip v.sequence now d.replay).1 ≡ ok tt
    → again ≤ now + d.replay.ttl
    → (write_client d ((p, now) ∷ between ++ (q, again) ∷ [])).1 ≡ v.packet ∷ packets_of between
unfolding write_client
write_client-relayed d v p q now again between carried repeated decoded ordinary fresh soon =
    let d' : DiscoveryTun = record d { replay = (accept v.sender_ip v.sequence now d.replay).0 } in
    let twice = accept-accept v.sender_ip v.sequence now again d.replay fresh soon in
    let second = deliver-old d' v q again repeated decoded twice in
    rw (deliver-new d v p now carried decoded fresh)
      (ap (λ r. v.packet ∷ r) (write_client-ordinary d' between q again _ ordinary second))
