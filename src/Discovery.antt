-- ===== src/Discovery.antt =====
-- LAN discovery packets carried between members (internal/discovery): the relay frame, the window
-- that drops repeated frames, and the IPv4/UDP packets at the tunnel device.
pub mod Frame
pub mod Replay
pub mod Tun
pub mod Relay
mod Tests
