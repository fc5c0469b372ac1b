-- ===== src/Config/Roles.antt =====
-- src/config.rs: `validate`, `client_config` and `server_config`. Whether a path names a file is a
-- parameter.
use newppp.Prelude.{
  ℕ, ◌≡◌, Bool, true, false, not, leb, ◌==◌, ◌&&◌, ◌||◌, if◌then◌else◌, List, [], ◌∷◌, Option, none,
  some, length, max,
}
use newppp.Prelude.Text.{text, starts_with}
use newppp.Proto.Error.{
  Result, ok, err, ensure, ◌>>◌, ◌>>=◌, bad_mode, auth_missing, no_server, bad_conns,
  pin_and_skip_verify, bad_sni_length, bad_sni_dots, bad_sni_characters, sni_with_wss, sni_unpinned,
  no_listener, cert_not_found, key_not_found, no_certificate,
}
use newppp.Config.{Cli, ClientConfig, ServerConfig, CertSource, files, self_signed_cert}
use newppp.Config.Fields.{
  is_empty, alphanumeric, every, parse_auth, parse_inbound_auth, normalize_path, recv_window_bytes,
  max_frame_bytes, parse_fingerprint,
}
pub mod Client
pub mod Server

abbrev pub is_some {ℓ} : {A : Type ℓ} → Option A → Bool
is_some none = false
is_some (some a) = true

abbrev same_bool : Bool → Bool → Bool
same_bool true b = b
same_bool false b = not b

unfoldable pub validate : Cli → Result (Unit {0})
validate c =
    ensure (not (same_bool c.client c.server)) bad_mode
    >> ensure (not (is_empty c.auth)) auth_missing

-- `--pin`, which excludes `--skip-verify`.
unfoldable pub pinned : Bool → Option (List ℕ) → Result (Option (List ℕ))
pinned skip_verify none = ok none
pinned skip_verify (some raw) = do
  fp ← parse_fingerprint raw
  ensure (not skip_verify) pin_and_skip_verify >> ok (some fp)

-- `sni.ends_with('.')` and `sni.contains("..")`.
unfoldable pub ends_with_dot : List ℕ → Bool
ends_with_dot [] = false
ends_with_dot (c ∷ []) = c == b'.'
ends_with_dot (c ∷ d ∷ s) = ends_with_dot (d ∷ s)

unfoldable pub two_dots : List ℕ → Bool
two_dots [] = false
two_dots (c ∷ []) = false
two_dots (c ∷ d ∷ s) = ((c == b'.') && (d == b'.')) || two_dots (d ∷ s)

abbrev pub host_char : ℕ → Bool
host_char c = alphanumeric c || (c == b'.') || (c == b'-') || (c == b'_')

abbrev pub over_wss : Option (List ℕ) → Bool
over_wss none = false
over_wss (some fb) = starts_with (text "wss://") fb || starts_with (text "ws://") fb

unfoldable pub check_sni :
    Bool → Option (List ℕ) → Option (List ℕ) → Option (List ℕ) → Result (Unit {0})
check_sni skip_verify url pin none = ok tt
check_sni skip_verify url pin (some sni) =
    ensure (leb (length sni) 253 && not (is_empty sni)) bad_sni_length
    >> (ensure (not (starts_with (text ".") sni) && (not (ends_with_dot sni) && not (two_dots sni)))
          bad_sni_dots
        >> (ensure (every host_char sni) bad_sni_characters
            >> (ensure (not (over_wss url)) sni_with_wss
                >> ensure (is_some pin || skip_verify) sni_unpinned)))

abbrev pub inbound : Option (List ℕ) → Result (Option (List ℕ × List ℕ))
inbound none = ok none
inbound (some raw) = do both ← parse_inbound_auth raw; ok (some both)

unfoldable pub client_fields : Cli → List ℕ × List ℕ → Option (List ℕ) → Result ClientConfig
client_fields c (uid, password) pin = do
  inbound_auth ← inbound c.inbound_auth
  recv_window ← recv_window_bytes c.recv_window_mb
  limit ← max_frame_bytes c.max_frame_kb
  ok (record {
    wt_url = c.server_url;
    fb_url = c.url;
    socks_bind = c.bind;
    http_bind = c.http_bind;
    inbound_auth = inbound_auth;
    conns = c.conns;
    uid = uid;
    password = password;
    skip_verify = c.skip_verify;
    sni = c.sni;
    pin = pin;
    recv_window = recv_window;
    health = c.health;
    max_plaintext = limit;
  })

abbrev pub first_auth : List (List ℕ) → Result (List ℕ)
first_auth [] = err auth_missing
first_auth (a ∷ rest) = ok a

unfoldable pub client_config : Cli → Result ClientConfig
unfolding client_fields
client_config c = do
  first ← first_auth c.auth
  both ← parse_auth first
  _ ← ensure (is_some c.server_url || is_some c.url) no_server
  _ ← ensure (leb 1 c.conns && leb c.conns 8) bad_conns
  pin ← pinned c.skip_verify c.pin
  _ ← check_sni c.skip_verify c.url pin c.sni
  client_fields c both pin

unfoldable pub all_users : List (List ℕ) → Result (List (List ℕ × List ℕ))
all_users [] = ok []
all_users (a ∷ rest) = do u ← parse_auth a; us ← all_users rest; ok (u ∷ us)

module _ (is_file : List ℕ → Bool) where
  key_files : Option (List ℕ) → Option (List ℕ) → Result CertSource
  key_files (some c) (some k) =
      ensure (is_file c) cert_not_found >> (ensure (is_file k) key_not_found >> ok (files c k))
  key_files _ _ = err no_certificate

  unfoldable pub cert_source : Cli → Result CertSource
  unfolding key_files
  cert_source c = if c.self_signed then ok self_signed_cert else key_files c.cert c.key

  unfoldable pub server_config : Cli → Result ServerConfig
  server_config c = do
    _ ← ensure (is_some c.listen || is_some c.fallback_listen) no_listener
    cert ← cert_source c
    users ← all_users c.auth
    recv_window ← recv_window_bytes c.recv_window_mb
    limit ← max_frame_bytes c.max_frame_kb
    ok (record {
      listen = c.listen;
      cert = cert;
      fallback_listen = c.fallback_listen;
      http_listen = c.http_listen;
      acme_dir = c.acme_dir;
      path = normalize_path c.path;
      users = users;
      max_sessions = max c.max_sessions 1;
      rate_mbps = c.rate_mbps;
      idle_secs = max c.idle_secs 5;
      allow_private_targets = c.allow_private_targets;
      max_unauth = max c.max_unauth 1;
      recv_window = recv_window;
      shutdown_grace = c.shutdown_grace;
      health = c.health;
      max_plaintext = limit;
      udp_dns_ttl = c.udp_dns_ttl;
    })
