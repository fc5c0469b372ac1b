-- ===== src/Config.antt =====
-- src/config.rs: the options of the program, what a client and a server make of them, and the
-- configuration file. Text is the list of its bytes. Messages that only go to the log are left out.
use newppp.Prelude.{ℕ, Bool, List, [], ◌∷◌, Option, none, some, bytes_eq, ◌||◌, true, false}
use newppp.Prelude.Text.{text}
pub mod Fields
pub mod Roles
pub mod File
mod Examples

-- `Cli`, less what only `main` reads: the log level, the time source and the subcommand.
pub record Cli : Type 0 where
  pub client : Bool
  pub server : Bool
  pub auth : List (List ℕ)
  pub server_url : Option (List ℕ)
  pub url : Option (List ℕ)
  pub bind : List ℕ
  pub http_bind : Option (List ℕ)
  pub inbound_auth : Option (List ℕ)
  pub conns : ℕ
  pub skip_verify : Bool
  pub sni : Option (List ℕ)
  pub pin : Option (List ℕ)
  pub recv_window_mb : ℕ
  pub max_frame_kb : ℕ
  pub listen : Option (List ℕ)
  pub cert : Option (List ℕ)
  pub key : Option (List ℕ)
  pub self_signed : Bool
  pub fallback_listen : Option (List ℕ)
  pub http_listen : Option (List ℕ)
  pub acme_dir : Option (List ℕ)
  pub path : List ℕ
  pub max_sessions : ℕ
  pub rate_mbps : ℕ
  pub idle_secs : ℕ
  pub udp_dns_ttl : ℕ
  pub allow_private_targets : Bool
  pub max_unauth : ℕ
  pub health : Option (List ℕ)
  pub shutdown_grace : ℕ

pub record ClientConfig : Type 0 where
  pub wt_url : Option (List ℕ)
  pub fb_url : Option (List ℕ)
  pub socks_bind : List ℕ
  pub http_bind : Option (List ℕ)
  pub inbound_auth : Option (List ℕ × List ℕ)
  pub conns : ℕ
  pub uid : List ℕ
  pub password : List ℕ
  pub skip_verify : Bool
  pub sni : Option (List ℕ)
  pub pin : Option (List ℕ)
  pub recv_window : ℕ
  pub health : Option (List ℕ)
  pub max_plaintext : ℕ

pub data CertSource : Type 0 where
  files : List ℕ → List ℕ → CertSource
  self_signed_cert : CertSource

pub record ServerConfig : Type 0 where
  pub listen : Option (List ℕ)
  pub cert : CertSource
  pub fallback_listen : Option (List ℕ)
  pub http_listen : Option (List ℕ)
  pub acme_dir : Option (List ℕ)
  pub path : List ℕ
  pub users : List (List ℕ × List ℕ)
  pub max_sessions : ℕ
  pub rate_mbps : ℕ
  pub idle_secs : ℕ
  pub allow_private_targets : Bool
  pub max_unauth : ℕ
  pub recv_window : ℕ
  pub shutdown_grace : ℕ
  pub health : Option (List ℕ)
  pub max_plaintext : ℕ
  pub udp_dns_ttl : ℕ
