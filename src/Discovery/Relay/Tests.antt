-- ===== src/Discovery/Relay/Tests.antt =====
-- The relay at concrete inputs (internal/discovery/relay_test.go), with whole numbers for its arithmetic.
use opl_core.Prelude.{
  ℕ, ◌≤◌, List, length, ◌+◌, ◌-◌, ◌*◌, ◌/◌, ◌≡◌, ◌≢◌, ◌⊎◌, true, [], ◌∷◌, Bytes, ltb, arith, refl,
}
use opl_core.Prelude.Addr.{Addr, v4}
use opl_core.Prelude.Binary.{get_u16, get_u32, get_u64, put_u16, put_u64}
use opl_core.Prelude.Dict.{lookup, insert}
use opl_core.Discovery.Frame.{encode, decode, valid_packet, valid_sender}
use opl_core.Discovery.Replay.{new_window, accept, purge, make_room}
use opl_core.Discovery.Relay.{
  Floats, Relay, Outside, new_relay, read_remote, contains_ip, allow, fanout, injected, sent,
  host_ip,
}
use opl_core.Discovery.Relay.Genuine.{Relays, read_remote-Relays}
use opl_core.Discovery.Relay.Once.{read_remote-once, Event, local, remote, hear_all}

abbrev whole : Floats ℕ
whole = record {
  number = λ n. n;
  seconds = λ n. n / 1000000000;
  add = λ a b. a + b;
  mul = λ a b. a * b;
  sub = λ a b. a - b;
  less = ltb;
}

abbrev alice : Addr
alice = v4 10 0 23 2

abbrev bob : Addr
bob = v4 10 0 23 3

abbrev opened : Outside
opened = record {
  members = alice ∷ bob ∷ [];
  members_after = host_ip ∷ alice ∷ bob ∷ [];
  injects = λ packet. true;
  sends = λ ip payload. true;
}

abbrev packet : Bytes
packet =
    69 ∷ 0 ∷ 0 ∷ 36 ∷ 0 ∷ 0 ∷ 0 ∷ 0 ∷ 64 ∷ 17 ∷ 0 ∷ 0 ∷ 10 ∷ 0 ∷ 23 ∷ 2 ∷ 255 ∷ 255 ∷ 255 ∷ 255 ∷ 0
    ∷ 9 ∷ 0 ∷ 9 ∷ 0 ∷ 16 ∷ 0 ∷ 0 ∷ 100 ∷ 105 ∷ 115 ∷ 99 ∷ 111 ∷ 118 ∷ 101 ∷ 114 ∷ []

abbrev probe : Bytes
probe =
    79 ∷ 68 ∷ 82 ∷ 50 ∷ 1 ∷ 0 ∷ 10 ∷ 0 ∷ 23 ∷ 2 ∷ 0 ∷ 0 ∷ 0 ∷ 0 ∷ 0 ∷ 0 ∷ 0 ∷ 1 ∷ 0 ∷ 36 ∷ packet

abbrev relay : Relay ℕ
relay = new_relay whole 0

relays :
    (read_remote whole opened probe alice 100 relay).calls ≡ sent bob probe ∷ injected packet ∷ []
unfolding new_relay new_window read_remote decode encode valid_packet valid_sender contains_ip
    accept purge make_room allow fanout lookup insert get_u16 get_u32 get_u64 put_u16 put_u64
relays = refl

read_remote-Relays_example :
    ((read_remote whole opened probe alice 100 relay).calls ≡ relay.calls)
    ⊎ Relays opened probe alice relay.calls (read_remote whole opened probe alice 100 relay).calls
read_remote-Relays_example = read_remote-Relays whole opened probe alice 100 relay (omega arith)

something : (read_remote whole opened probe alice 100 relay).calls ≢ relay.calls
unfolding new_relay
something e = absurd (ground (arith, relays))

-- a frame of the host and a garbled one come in between
abbrev meanwhile : List Event
meanwhile =
    local opened (record { flags = 0; sender_ip = host_ip; sequence = 1; packet = [] }) 120
    ∷ remote opened (1 ∷ []) bob 150
    ∷ []

one_held :
    length (read_remote whole opened probe alice 100 relay).replay.entries + length meanwhile
    ≤ (read_remote whole opened probe alice 100 relay).replay.max
unfolding new_relay new_window read_remote decode encode valid_packet valid_sender contains_ip
    accept purge make_room allow fanout lookup insert get_u16 get_u32 get_u64 put_u16 put_u64
one_held = omega arith

read_remote-once_example :
    (read_remote whole opened probe alice 200
      (hear_all whole meanwhile (read_remote whole opened probe alice 100 relay))).calls
    ≡ (hear_all whole meanwhile (read_remote whole opened probe alice 100 relay)).calls
unfolding new_relay new_window
read_remote-once_example =
    read_remote-once whole opened opened probe alice 100 200 meanwhile relay something
      (omega arith, (omega arith, tt)) one_held (omega arith)
