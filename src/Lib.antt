-- ===== src/Lib.antt =====
-- OPL Core: a host opens a room, members pair with it over a tunnel, get an address of 10.0.23.0/24
-- and a WireGuard peer, and discovery packets of games are relayed between them.
--
-- The parts, their files here, and the sources:
--   Lease: the address pool (internal/lease/lease.go). `new`, `assign`, `remove`, `restore`,
--   `remove_if_revision` and `snapshot` are the methods of those names; Lease/Reach has them as steps.
--   Invite: invite codes (internal/invite/invite.go), `encode` and `decode`.
--   Discovery: the relay's frame and replay window (internal/discovery/frame.go) and the tunnel
--   device (internal/discovery/tun.go). A method of the device returns the device it leaves.
--   Discovery/Relay is the host's relay (internal/discovery/relay.go).
--   Pairing: the messages, frames and codes of the handshake (internal/pairing/pairing.go), and from
--   internal/pairing/network.go the traffic reports, the device list and the server's `pair`.
--   Pairing/Control has the server's control loop, Pairing/Client the member's `pair_with_session`
--   and `sync`; Pairing/Client/Handshake runs both ends against each other.
--   Room: the host's room (internal/room/room.go). It fills the record `ServerConfig` of callbacks
--   that Pairing/Server asks for (`server_config`), and keeps its members in a Lease allocator.
--   Room/Join has those callbacks, Room/Members and Room/Start the methods of the host, Room/Stats
--   what is seen of the room, and Room/Reach all of them as steps.
--   Core: the runtime (internal/core/runtime.go). Its network callbacks (`start_network`,
--   `apply_peer`) are what the room calls when it starts and when a peer changes; a join uses the
--   member's end of Pairing. Core/Reach has the parts of its operations as steps.
--   State: the saved room (internal/state/state.go), its validation and its backup.
--   OpenP2P: the tunnel configuration of the engine (internal/openp2p/config.go).
--   Codec: the parts of Go's standard library that the bytes on the wire depend on (hexadecimal,
--   base64, CRC-32, UTF-8, SHA-256 and HMAC), checked on published vectors and on those of testdata.
--   Prelude: shared names, lists, texts, maps as association lists, addresses, fixed-width integers.
--
-- How code becomes definitions. A method takes its receiver's state and returns the new one beside
-- its result; an error is a value of an error type of the package. A `[n]byte` is a byte list, and a
-- theorem that needs its length says so. Words wrap at their width where the source lets them.
-- A method that holds a mutex is one step, and one that holds it in parts is cut there; times are
-- numbers. A reader is the bytes it has yet to deliver. What is not in the repository is a parameter: random bytes, whether a write, a peer
-- callback or saving a file succeeds, and what a file decodes to.
--
-- Bounds. The search of the pool has 253 rounds, the octets 2 to 254. The carry of the checksum is
-- folded in three rounds, enough for every packet of at most 65,535 bytes. All other loops are
-- recursion on their data.
--
-- Not modelled: HTTP handlers, JSON and files, sockets and goroutines, the operating system, the
-- WireGuard device and the embedded engine, which is a copy of another project's. The rate limits of
-- the relay stand on an interface for floating point; that of the pairing listener and the
-- checks of the WireGuard configuration are not modelled.
pub mod Prelude
pub mod Codec
pub mod Lease
pub mod Invite
pub mod Discovery
pub mod Pairing
pub mod Room
pub mod State
pub mod OpenP2P
pub mod Core
