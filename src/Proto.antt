-- ===== src/Proto.antt =====
-- The wire protocol, src/proto.
pub mod Error
pub mod Counter
pub mod Window
pub mod Addr
pub mod Cipher
pub mod Frame
pub mod Codec
pub mod Hex
pub mod Auth
pub mod OpenError
pub mod Mux
pub mod Adapter
