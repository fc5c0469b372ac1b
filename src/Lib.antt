-- ===== src/Lib.antt =====
-- newppp: a proxy that carries TCP and UDP sessions over WebTransport, with HTTPS POST as the fallback.
--
-- The program has a protocol layer (src/proto), a server (src/server) and a client (src/client). A
-- client authenticates with an AUTH frame or a bearer token, then opens sessions with OPEN frames; the
-- server checks its limits and its egress policy, dials the target, and moves DATA frames both ways.
--
-- Which module models which file:
--   Prelude          numbers, Boolean tests, lists, bytes, bits and association lists
--   Proto.Error      the error results: one constructor per `ensure!` and `bail!` of src/proto
--   Proto.Counter    src/proto/crypto.rs: `CounterGen`
--   Proto.Window     src/proto/crypto.rs: `ReplayWindow`
--   Proto.Cipher     src/proto/crypto.rs: `FrameCipher`
--   Proto.Hex        src/proto/crypto.rs: `hex`, `unhex`
--   Proto.Auth       src/proto/crypto.rs: `AuthPayload`, and in Auth.Bearer the bearer token
--   Proto.Addr       src/proto/addr.rs: `UdpAddr`, `Reader`, the SOCKS5 UDP packets
--   Proto.Frame      src/proto/frame.rs: the header, the OPEN payload, the negotiated limit
--   Proto.Codec      src/proto/frame.rs: `FrameEncoder`, `FrameDecoder`, `FrameReader::read`
--   Proto.OpenError  src/proto/mux.rs: `OpenError` and its codes
--   Proto.Mux        src/proto/mux.rs: the client's maps, `handle_client_frame`, `handle_server_frame`
--   Proto.Adapter    src/proto/stream.rs: `StreamAsRead`
--   Server.Limit     src/server/limit.rs: `UnauthGate` and its guard
--   Server.State     src/server/state.rs: `ConnState`, the quota, the reaper, the nonce and DNS caches
--   Server.Hub       src/server/hub.rs: `Hooks`, with the tasks as interleaved steps in Hub.World,
--                    and `handle_wt_stream` in Hub.Stream
--   Server.Egress    src/server/hub.rs: `is_public_target`, `embedded_ipv4`
--   Server.Login     src/server/mod.rs: `bearer_user`, `auth_from_frame`
--   Handshake        src/client/wt.rs and src/server/wt.rs: the AUTH handshake, both sides
--   Config           src/config.rs: the options, and in Config.File the configuration file
--   Clock            src/clock.rs: `now_unix`, `parse_http_date`, `parse_url`
--   Client.Breaker   src/client/outbound.rs: `CircuitBreaker`
--   Client.Outbound  src/client/outbound.rs: `Outbound::open_tcp` and `udp_associate` on both paths
--   Client.Pool      src/client/wt.rs: a tick of the pool's maintenance, and `acquire`
--   Client.Heartbeat src/client/wt.rs: the judge of unanswered pings
--   Client.Socks5    src/client/socks5.rs: `handle` up to the command
--   Client.HttpProxy src/client/http_proxy.rs: the parsers, and in HttpProxy.Handle `handle` up to the dial
--
-- Conventions. A byte string is a list of numbers; a string is the list of its bytes. An integer of w
-- bits is a number, with `% 2 ^ w` where the source can wrap. A method that changes its object takes the
-- object and hands back the new one; a map is an association list over numbers. Clocks, random bytes,
-- the answers of sockets and the text form of numbers are arguments. ChaCha20-Poly1305, HMAC-SHA256 and
-- the test for UTF-8 are parameters, and so is HKDF in the handshake; the records `IsAead` and
-- `IsDecimal` state what is used of the cipher and of number formatting. A method that locks
-- or exchanges once is one atomic step; the relations `Step` of Server.Limit and of
-- Server.Hub.World interleave such steps of all tasks freely, with one step for each half of a method
-- that is not atomic. The functions that model a whole handler (`open_tcp`, `handle_wt_stream`,
-- `reap_idle`, `try_admit`, a tick of the pool) describe one task while no other comes in between.
--
-- Bounds and fuel. Loops over bytes, chunks and events are structural recursion, so no fuel is needed.
-- The loop of `alloc_sid` runs on fuel: two turns more than there are taken ids are enough. The loop
-- that retires idle connections of the pool has one turn per connection, and each turn removes one.
--
-- Not modelled: sockets, TLS and QUIC, HTTP, clap, the reading of files, the timers of
-- tasks, the token bucket of `RateLimiter` (floating point), and in the inbound proxies the
-- copying of data and the UDP association.
pub mod Prelude
pub mod Proto
pub mod Server
pub mod Client
pub mod Handshake
pub mod Config
pub mod Clock
