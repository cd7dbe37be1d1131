-- ===== src/Pairing.antt =====
-- The pairing protocol (internal/pairing): how a device proves that it knows a room's key and is
-- given an address. `Messages` has the messages and frames, `Auth` the authentication codes, and
-- `Server` the server's side of one connection.
pub mod Messages
pub mod Auth
pub mod Stats
pub mod Server
pub mod Client
pub mod Control
mod Tests
