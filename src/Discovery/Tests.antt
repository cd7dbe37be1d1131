-- ===== src/Discovery/Tests.antt =====
-- Runs of the discovery relay's codec, window and tunnel, and their theorems at concrete inputs.
use opl_core.Prelude.{
  ◌≡◌, refl, ℕ, zero, suc, ◌+◌, ◌≤◌, ◌<◌, get_or, [], ◌∷◌, ok, err, some, Bytes, arith,
}
use opl_core.Prelude.Addr.{Addr, v4}
use opl_core.Prelude.Binary.{put_u16, put_u64, get_u16, get_u64, get_u32}
use opl_core.Discovery.Frame.{Frame, encode, decode, valid_packet, valid_sender, duplicate}
use opl_core.Prelude.Dict.{lookup}
use opl_core.Discovery.Frame.RoundTrip.{decode-encode_frame}
use opl_core.Discovery.Frame.Canonical.{encode-decode_frame}
use opl_core.Discovery.Replay.{ReplayWindow, new_window, accept, purge, make_room}
use opl_core.Discovery.Replay.Bounds.{IsBounded, accept-IsBounded, new_window-IsBounded}
use opl_core.Discovery.Replay.Once.{accept-accept}
use opl_core.Discovery.Tun.{
  DiscoveryTun, client, host_ip, build_ipv4_udp, relay_payload, read_batch, write_client,
}
use opl_core.Discovery.Tun.Unwrap.{relay_payload-build, write_client-relayed}
use opl_core.Discovery.Tun.Wrap.{read_batch-client, Wrapped, nothing_yet}

abbrev member : Addr
member = v4 10 0 23 2

-- a datagram of eight bytes to the broadcast address
abbrev probe : Bytes
probe =
    69 ∷ 0 ∷ 0 ∷ 36 ∷ 0 ∷ 0 ∷ 0 ∷ 0 ∷ 64 ∷ 17 ∷ 0 ∷ 0 ∷ 10 ∷ 0 ∷ 23 ∷ 2 ∷ 255 ∷ 255 ∷ 255 ∷ 255 ∷ 0
    ∷ 9 ∷ 0 ∷ 9 ∷ 0 ∷ 16 ∷ 0 ∷ 0 ∷ 100 ∷ 105 ∷ 115 ∷ 99 ∷ 111 ∷ 118 ∷ 101 ∷ 114 ∷ []

abbrev probe_frame : Frame
probe_frame = record { flags = 0; sender_ip = member; sequence = 1; packet = probe }

abbrev probe_bytes : Bytes
probe_bytes =
    79 ∷ 68 ∷ 82 ∷ 50 ∷ 1 ∷ 0 ∷ 10 ∷ 0 ∷ 23 ∷ 2 ∷ 0 ∷ 0 ∷ 0 ∷ 0 ∷ 0 ∷ 0 ∷ 0 ∷ 1 ∷ 0 ∷ 36 ∷ probe

probe_encoded : encode probe_frame ≡ ok probe_bytes
unfolding encode valid_packet get_u16 put_u16 put_u64
probe_encoded = refl

probe_decoded : decode probe_bytes ≡ ok probe_frame
unfolding decode valid_packet get_u16 get_u32 get_u64
probe_decoded = refl

decode-encode_frame_example : decode probe_bytes ≡ ok probe_frame
decode-encode_frame_example = decode-encode_frame probe_frame (omega arith) probe_encoded

encode-decode_frame_example : encode probe_frame ≡ ok probe_bytes
encode-decode_frame_example = encode-decode_frame probe_bytes (omega arith) probe_decoded

abbrev window : ReplayWindow
window = new_window 2 0

accept-IsBounded_example : IsBounded (accept member 7 100 window).0
accept-IsBounded_example = accept-IsBounded member 7 100 window (new_window-IsBounded 2 0)

first_accepted : (accept member 7 100 window).1 ≡ ok tt
unfolding accept new_window purge valid_sender lookup make_room
first_accepted = refl

probe_first : (accept member 1 100 window).1 ≡ ok tt
unfolding accept new_window purge valid_sender lookup make_room
probe_first = refl

accept-accept_example : (accept member 7 200 (accept member 7 100 window).0).1 ≡ err duplicate
unfolding new_window
accept-accept_example = accept-accept member 7 100 200 window first_accepted (omega arith)

abbrev device : DiscoveryTun
device = record {
  role = client;
  local_ip = member;
  relay_port = 25675;
  sequence = 0;
  replay = window;
}

relay_payload-build_example :
    relay_payload (build_ipv4_udp member host_ip 25675 25675 probe_bytes) member host_ip 25675
    ≡ some probe_bytes
relay_payload-build_example =
    relay_payload-build 10 0 23 2 10 0 23 1 25675 probe_bytes (omega arith) (omega arith)

-- the host's packet, as the client's device receives it
abbrev arrived : Bytes
arrived = build_ipv4_udp host_ip member 25675 25675 probe_bytes

carries_probe : relay_payload arrived host_ip member 25675 ≡ some probe_bytes
carries_probe =
    relay_payload-build 10 0 23 1 10 0 23 2 25675 probe_bytes (omega arith) (omega arith)

two_buffers : (i : ℕ) → i < 2 → 0 + 100 + 48 ≤ get_or (200 ∷ 200 ∷ []) i 0
two_buffers zero h = omega arith
two_buffers (suc zero) h = omega arith
two_buffers (suc (suc i)) h = absurd (omega arith)

write_client-relayed_example :
    (write_client device ((arrived, 100) ∷ (1 ∷ [], 150) ∷ (arrived, 200) ∷ [])).1
    ≡ probe ∷ (1 ∷ []) ∷ []
unfolding relay_payload
write_client-relayed_example =
    write_client-relayed device probe_frame arrived arrived 100 200 ((1 ∷ [], 150) ∷ [])
      carries_probe carries_probe probe_decoded (refl, tt) probe_first
      (unfold new_window in omega arith)

read_batch-client_example :
    Wrapped member 25675 device.sequence
      (probe ∷ (1 ∷ []) ∷ [])
      (read_batch device (200 ∷ 200 ∷ []) 0 (probe ∷ (1 ∷ []) ∷ []) nothing_yet).1.kept
    × ((read_batch device (200 ∷ 200 ∷ []) 0 (probe ∷ (1 ∷ []) ∷ []) nothing_yet).1.discovered ≡ [])
read_batch-client_example =
    read_batch-client device 10 0 23 2 100 0 (200 ∷ 200 ∷ []) (probe ∷ (1 ∷ []) ∷ []) refl refl
      (omega arith) (omega arith, (omega arith, tt)) two_buffers
