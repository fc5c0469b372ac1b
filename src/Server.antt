-- ===== src/Server.antt =====
-- The server: src/server.
pub mod Egress
pub mod Limit
pub mod State
pub mod Hub
pub mod Login
