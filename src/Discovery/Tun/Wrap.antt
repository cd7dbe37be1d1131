-- ===== src/Discovery/Tun/Wrap.antt =====
-- What a client makes of the packets that it reads (internal/discovery/tun.go).
use opl_core.Prelude.{
  ℕ, ◌+◌, ◌%◌, ◌≤◌, ◌<◌, ◌≡◌, List, [], ◌∷◌, ◌++◌, get_or, Result, ◌∙◌, subst, sym, append-nil,
  append_assoc, length-append, arith, refl, Bytes, length, some, ok, err, nat_eq, bytes_eq,
}
use opl_core.Prelude.Addr.{Addr, v4, addr_eq}
use opl_core.Discovery.Frame.{Error, Frame, encode, decode}
use opl_core.Discovery.Frame.RoundTrip.{decode-encode_frame, encode_ok, length-header}
use opl_core.Discovery.Tun.{
  build_ipv4_udp, relay_payload, DiscoveryTun, Batch, host_ip, client, route, frame_of, keep_packet,
  read_batch,
}
use opl_core.Discovery.Tun.Unwrap.{relay_payload-build, length-build, length-encode}

abbrev pub nothing_yet : Batch
nothing_yet = record { kept = []; discovered = [] }

-- The frame that a client makes of a packet, with its number.
abbrev pub numbered : Addr → ℕ → Bytes → Frame
numbered sender n packet = record { flags = 0; sender_ip = sender; sequence = n; packet = packet }

abbrev pub next : ℕ → ℕ
next n = (n + 1) % 18446744073709551616

-- What a client gives out for the packets of a batch, one for each of them, in their order: a packet
-- that no frame can wrap as it is, and for any other one of 48 bytes more, from the client's address
-- to the host's and the relay's port, whose payload is a frame with the packet and the next number.
pub data Wrapped (sender : Addr) (port : ℕ) : ℕ → List Bytes → List Bytes → Type 0 where
  nothing : {n : ℕ} → Wrapped sender port n [] []
  plain :
      {n : ℕ} {p : Bytes} {ps qs : List Bytes} {e : Error}
      → encode (numbered sender (next n) p) ≡ err e
      → Wrapped sender port (next n) ps qs
      → Wrapped sender port n (p ∷ ps) (p ∷ qs)
  discovery :
      {n : ℕ} {p q payload : Bytes} {ps qs : List Bytes}
      → relay_payload q sender host_ip port ≡ some payload
      → decode payload ≡ ok (numbered sender (next n) p)
      → length q ≡ length p + 48
      → Wrapped sender port (next n) ps qs
      → Wrapped sender port n (p ∷ ps) (q ∷ qs)

abbrev pub AreSmall : ℕ → List Bytes → Type 0
AreSmall m [] = Unit
AreSmall m (p ∷ ps) = (length p ≤ m) × AreSmall m ps

keep_packet-fits :
    (sizes : List ℕ) (offset : ℕ) (p : Bytes) (out : Batch)
    → offset + length p ≤ get_or sizes (length out.kept) 0
    → keep_packet sizes offset p out ≡ record out { kept = out.kept ++ p ∷ [] }
unfolding keep_packet
keep_packet-fits sizes offset p out h = ground arith

-- the packets given out behind those of `out`
abbrev Behind : DiscoveryTun → List Bytes → Batch → DiscoveryTun × Batch → Type 0
Behind d ps out x =
    (qs : List Bytes) × (x.1.kept ≡ out.kept ++ qs)
    × (x.1.discovered ≡ out.discovered)
    × Wrapped d.local_ip d.relay_port d.sequence ps qs

module _ (x y z w port : ℕ) (bound : port < 65536) where
  v4-Sends :
      (n : ℕ) (p payload : Bytes)
      → n < 18446744073709551616
      → encode (numbered (v4 x y z w) n p) ≡ ok payload
      → let q = build_ipv4_udp (v4 x y z w) host_ip port port payload in
        (relay_payload q (v4 x y z w) host_ip port ≡ some payload)
        × (decode payload ≡ ok (numbered (v4 x y z w) n p))
        × (length q ≡ length p + 48)
  v4-Sends n p payload small h =
      let v = numbered (v4 x y z w) n p in
      let (flags, valid, bytes) = encode_ok v h in
      (
        relay_payload-build x y z w 10 0 23 1 port payload bound (length-encode v h),
        decode-encode_frame v small h,
        length-build x y z w 10 0 23 1 port payload
            ∙ rw bytes (omega (arith, length-header v x y z w refl)),
      )

-- The packet that is given out for `p`.
abbrev Sends : Addr → ℕ → ℕ → Bytes → Bytes → Type 0
Sends sender port n p payload =
    let q = build_ipv4_udp sender host_ip port port payload in
    (relay_payload q sender host_ip port ≡ some payload)
    × (decode payload ≡ ok (numbered sender n p))
    × (length q ≡ length p + 48)

encode-Sends :
    (sender : Addr) (x y z w port n : ℕ) (p payload : Bytes)
    → sender ≡ v4 x y z w
    → port < 65536
    → n < 18446744073709551616
    → encode (numbered sender n p) ≡ ok payload
    → Sends sender port n p payload
encode-Sends sender x y z w port n p payload address bound small =
    subst (λ a. encode (numbered a n p) ≡ ok payload → Sends a port n p payload) (sym address)
      (v4-Sends x y z w port bound n p payload small)

-- The rest of a batch, after a packet that gave `q`.
Behind-cons :
    (d : DiscoveryTun) (p q : Bytes) (ps : List Bytes) (out : Batch) (x : DiscoveryTun × Batch)
    → ((qs : List Bytes)
        → Wrapped d.local_ip d.relay_port (next d.sequence) ps qs
        → Wrapped d.local_ip d.relay_port d.sequence (p ∷ ps) (q ∷ qs))
    → Behind
        (record d { sequence = next d.sequence })
        ps
        (record out { kept = out.kept ++ q ∷ [] })
        x
    → Behind d (p ∷ ps) out x
Behind-cons d p q ps out x more (qs, kept, found, rest) =
    (q ∷ qs, kept ∙ append_assoc out.kept (q ∷ []) qs, found, more qs rest)

module _ (x y z w m offset : ℕ) (sizes : List ℕ) where
  -- What the batch needs: small packets, and a large buffer for each packet given out.
  abbrev HasRoom : List Bytes → Batch → Type 0
  HasRoom ps out = (i : ℕ) → i < length out.kept + length ps → offset + m + 48 ≤ get_or sizes i 0

  HasRoom-next :
      (p q : Bytes) (ps : List Bytes) (out : Batch)
      → HasRoom (p ∷ ps) out
      → HasRoom ps (record out { kept = out.kept ++ q ∷ [] })
  HasRoom-next p q ps out fits i h = fits i (omega (arith, length-append out.kept (q ∷ []), h))

  route_client :
      (d : DiscoveryTun) (p : Bytes) (ps : List Bytes) (out : Batch) (r : Result Error Bytes)
      (y' : Batch → DiscoveryTun × Batch)
      → d.role ≡ client
      → d.local_ip ≡ v4 x y z w
      → d.relay_port < 65536
      → length p ≤ m
      → offset + m + 48 ≤ get_or sizes (length out.kept) 0
      → encode (numbered d.local_ip (next d.sequence) p) ≡ r
      → ((q : Bytes)
          → Behind
              (record d { sequence = next d.sequence })
              ps
              (record out { kept = out.kept ++ q ∷ [] })
              (y' (record out { kept = out.kept ++ q ∷ [] })))
      → Behind d
          (p ∷ ps)
          out
          (y' (route d sizes offset (numbered d.local_ip (next d.sequence) p) r out))
  unfolding route
  route_client d p ps out (err e) y' role address port small fits h more =
      rw (keep_packet-fits sizes offset p out (omega (arith, small, fits))) (
        Behind-cons d p p ps out (y' (record out { kept = out.kept ++ p ∷ [] })) (λ qs. plain h)
          (more p))
  route_client d p ps out (ok payload) y' role address port small fits h more =
      let q = build_ipv4_udp d.local_ip host_ip d.relay_port d.relay_port payload in
      let (found, decoded, larger) =
        encode-Sends d.local_ip x y z w d.relay_port (next d.sequence) p payload address port
          (omega arith) h in
      rw (role, keep_packet-fits sizes offset q out (omega (arith, small, fits, larger)))
        (Behind-cons d p q ps out (y' (record out { kept = out.kept ++ q ∷ [] }))
          (λ qs. discovery found decoded larger) (more q))

  frame_of-client :
      (d : DiscoveryTun) (p : Bytes)
      → d.role ≡ client
      → frame_of d p ≡ numbered d.local_ip (next d.sequence) p
  unfolding frame_of
  frame_of-client d p role = rw role refl

  read_batch-Behind :
      (d : DiscoveryTun) (ps : List Bytes) (out : Batch)
      → d.role ≡ client
      → d.local_ip ≡ v4 x y z w
      → d.relay_port < 65536
      → AreSmall m ps
      → HasRoom ps out
      → Behind d ps out (read_batch d sizes offset ps out)
  unfolding read_batch frame_of
  read_batch-Behind d [] out role address port small fits =
      ([], sym (append-nil out.kept), refl, nothing)
  read_batch-Behind d (p ∷ ps) out role address port small fits =
      let step = record d { sequence = next d.sequence } in
      subst
        (λ v.
          Behind d (p ∷ ps) out
            (read_batch step sizes offset ps (route d sizes offset v (encode v) out)))
        (sym (frame_of-client d p role))
        (route_client d p ps out (encode (numbered d.local_ip (next d.sequence) p))
          (read_batch (record d { sequence = next d.sequence }) sizes offset ps) role address port
          small.0 (fits (length out.kept) (omega arith)) refl
          (λ q.
            read_batch-Behind (record d { sequence = next d.sequence }) ps
              (record out { kept = out.kept ++ q ∷ [] }) role address port small.1
              (HasRoom-next p q ps out fits)))

-- A batch that a client reads from its device, of packets of at most `m` bytes, into buffers that
-- have room for the 48 bytes more: as many packets are given out, in the same order, each of which
-- is the packet read, if no frame can wrap it, or else a UDP packet from the client's address to
-- the host's and to the relay's port, whose payload decodes to a frame with that very packet, this
-- client's address and the next sequence number; no frame is handed to the callback.
pub read_batch-client :
    (d : DiscoveryTun) (x y z w m offset : ℕ) (sizes : List ℕ) (packets : List Bytes)
    → d.role ≡ client
    → d.local_ip ≡ v4 x y z w
    → d.relay_port < 65536
    → AreSmall m packets
    → ((i : ℕ) → i < length packets → offset + m + 48 ≤ get_or sizes i 0)
    → Wrapped d.local_ip d.relay_port d.sequence packets
        (read_batch d sizes offset packets nothing_yet).1.kept
      × ((read_batch d sizes offset packets nothing_yet).1.discovered ≡ [])
read_batch-client d x y z w m offset sizes packets role address port small fits =
    let (qs, kept, found, wrapped) =
      read_batch-Behind x y z w m offset sizes d packets nothing_yet role address port small
        (λ i h. fits i (omega (arith, h))) in
    (subst (Wrapped d.local_ip d.relay_port d.sequence packets) (sym kept) wrapped, found)
