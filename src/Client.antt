-- ===== src/Client.antt =====
-- The client of src/client: the choice between the WebTransport path and the HTTPS fallback.
pub mod Pool
pub mod Heartbeat
pub mod Breaker
pub mod Outbound
pub mod Socks5
pub mod HttpProxy
