-- ===== src/Config/Examples.antt =====
-- Options and configuration files, as in the tests of src/config.rs.
use newppp.Prelude.{ℕ, ◌≡◌, refl, Bool, true, false, List, [], ◌∷◌, none, some, All}
use newppp.Prelude.Text.{text, trim, lines, contains, split_once}
use newppp.Proto.Error.{ok, err, bad_mode_value, sni_unpinned}
use newppp.Config.{Cli, ClientConfig, ServerConfig, self_signed_cert}
use newppp.Config.Fields.{every, parse_auth, normalize_path, recv_window_bytes, max_frame_bytes}
use newppp.Config.Roles.{
  pinned, ends_with_dot, two_dots, check_sni, client_fields, client_config, all_users, cert_source,
  server_config,
}
use newppp.Config.Roles.Client.{IsClient, client_config-IsClient}
use newppp.Config.Roles.Server.{IsServer, server_config-IsServer}
use newppp.Config.File.{
  among, remove_from, remove_earlier_option, mode_flag, switch_flag, valued, put_option, put_line,
  parse_value, parse_line, parse_lines, extract_from, extract_config_arg, override_keys, remove_all,
  any_mode, without_modes, strip_cli_overridden,
}
use newppp.Config.File.Tokens.{Setting, mode_set, switch_set, value_set, render, IsPlain}
use newppp.Config.File.Overrides.{Given, mode_given, switch_given, value_given, inline_given}
use newppp.Config.File.Values.{values_of, last_value, IsSingle}
use newppp.Config.File.Last.{IsPlainLine, parse_lines_last}

-- Both ends, and the ideographic space.
trims : trim (32 ∷ 0xE3 ∷ 0x80 ∷ 0x80 ∷ b'a' ∷ 32 ∷ b'b' ∷ 0xC2 ∷ 0xA0 ∷ 10 ∷ []) ≡ text "a b"
unfolding trim
trims = refl

cuts_lines : lines (b'a' ∷ 13 ∷ 10 ∷ 10 ∷ b'b' ∷ []) ≡ text "a" ∷ [] ∷ text "b" ∷ []
unfolding lines
cuts_lines = refl

abbrev base : Cli
base = record {
  client = true;
  server = false;
  auth = text "alice:secret" ∷ [];
  server_url = some (text "https://h");
  url = none;
  bind = text "127.0.0.1:1080";
  http_bind = none;
  inbound_auth = none;
  conns = 2;
  skip_verify = true;
  sni = some (text "cdn.example");
  pin = none;
  recv_window_mb = 2;
  max_frame_kb = 64;
  listen = some (text "0.0.0.0:443");
  cert = none;
  key = none;
  self_signed = true;
  fallback_listen = none;
  http_listen = none;
  acme_dir = none;
  path = text " api ";
  max_sessions = 0;
  rate_mbps = 100;
  idle_secs = 1;
  udp_dns_ttl = 3600;
  allow_private_targets = false;
  max_unauth = 128;
  health = none;
  shutdown_grace = 10;
}

abbrev the_client : ClientConfig
the_client = record {
  wt_url = some (text "https://h");
  fb_url = none;
  socks_bind = text "127.0.0.1:1080";
  http_bind = none;
  inbound_auth = none;
  conns = 2;
  uid = text "alice";
  password = text "secret";
  skip_verify = true;
  sni = some (text "cdn.example");
  pin = none;
  recv_window = 2097152;
  health = none;
  max_plaintext = 65536;
}

client_is_accepted : client_config base ≡ ok the_client
unfolding client_config client_fields parse_auth split_once every trim pinned check_sni
    ends_with_dot two_dots recv_window_bytes max_frame_bytes
client_is_accepted = refl

client_config-IsClient_example : IsClient the_client
client_config-IsClient_example = client_config-IsClient base the_client client_is_accepted

-- A masquerade name without a pin.
unpinned : client_config (record base { skip_verify = false }) ≡ err sni_unpinned
unfolding client_config client_fields parse_auth split_once every trim pinned check_sni
    ends_with_dot two_dots recv_window_bytes max_frame_bytes
unpinned = refl

abbrev any_file : List ℕ → Bool
any_file p = true

abbrev the_server : ServerConfig
the_server = record {
  listen = some (text "0.0.0.0:443");
  cert = self_signed_cert;
  fallback_listen = none;
  http_listen = none;
  acme_dir = none;
  path = text "/api";
  users = (text "alice", text "secret") ∷ [];
  max_sessions = 1;
  rate_mbps = 100;
  idle_secs = 5;
  allow_private_targets = false;
  max_unauth = 128;
  recv_window = 2097152;
  shutdown_grace = 10;
  health = none;
  max_plaintext = 65536;
  udp_dns_ttl = 3600;
}

server_is_accepted : server_config any_file base ≡ ok the_server
unfolding server_config cert_source all_users parse_auth split_once every trim normalize_path
    recv_window_bytes max_frame_bytes
server_is_accepted = refl

server_config-IsServer_example : IsServer base the_server
server_config-IsServer_example = server_config-IsServer any_file base the_server server_is_accepted

abbrev conf : List (List ℕ)
conf =
    text "# comment"
    ∷ []
    ∷ text "mode = 'server'"
    ∷ text "auth  = 2233:mvNn"
    ∷ text "log = info"
    ∷ text "skip-verify"
    ∷ text "log = debug"
    ∷ []

abbrev conf_args : List (List ℕ)
conf_args =
    text "-s"
    ∷ text "--auth"
    ∷ text "2233:mvNn"
    ∷ text "--skip-verify"
    ∷ text "--log"
    ∷ text "debug"
    ∷ []

conf_is_parsed : parse_lines [] false conf ≡ ok (conf_args, true)
unfolding parse_lines put_line put_option parse_line parse_value split_once contains trim among
    remove_earlier_option remove_from mode_flag switch_flag valued
conf_is_parsed = refl

conf-IsPlainLine : All IsPlainLine conf
unfolding parse_line parse_value split_once contains trim among
conf-IsPlainLine = (tt, (tt, (refl, (refl, (refl, (tt, (refl, tt)))))))

parse_lines_last_example :
    (ss : List Setting) × (conf_args ≡ render ss)
    × All IsPlain ss
    × ((key : List ℕ) → IsSingle key → values_of key ss ≡ last_value key [] conf)
parse_lines_last_example = parse_lines_last conf conf_args true conf-IsPlainLine conf_is_parsed

the_last_log : last_value (text "log") [] conf ≡ text "debug" ∷ []
unfolding parse_line parse_value split_once contains trim among
the_last_log = refl

abbrev conf_settings : List Setting
conf_settings =
    mode_set (text "-s")
    ∷ switch_set (text "skip-verify")
    ∷ value_set (text "log") (text "debug")
    ∷ []

conf_settings-IsPlain : All IsPlain conf_settings
unfolding contains
conf_settings-IsPlain = (refl, (refl, ((refl, refl), tt)))

abbrev overridden_settings : List Setting
overridden_settings =
    mode_set (text "-s")
    ∷ value_set (text "auth") (text "2233:mvNn")
    ∷ switch_set (text "skip-verify")
    ∷ value_set (text "log") (text "debug")
    ∷ value_set (text "rate") (text "5")
    ∷ []

abbrev cli_words : List Given
cli_words =
    mode_given (text "-c")
    ∷ value_given (text "auth") (text "alice:secret")
    ∷ inline_given (text "log") (text "info")
    ∷ switch_given (text "skip-verify")
    ∷ []

strips :
    strip_cli_overridden (render conf_settings) (text "-c" ∷ text "--log=info" ∷ [])
    ≡ text "--skip-verify" ∷ []
unfolding strip_cli_overridden remove_all remove_earlier_option remove_from override_keys split_once
    among any_mode without_modes
strips = refl

-- A second `mode` line does not replace the first.
mode_twice :
    parse_lines [] false (text "mode = server" ∷ text "mode = client" ∷ [])
    ≡ ok (text "-s" ∷ text "-c" ∷ [], false)
unfolding parse_lines put_line put_option parse_line parse_value split_once contains trim among
    remove_earlier_option remove_from mode_flag
mode_twice = refl

-- A value with a dash stays behind when its option is replaced.
dash_value :
    parse_lines [] false (text "rate = -5" ∷ text "rate = 7" ∷ [])
    ≡ ok (text "-5" ∷ text "--rate" ∷ text "7" ∷ [], false)
unfolding parse_lines put_line put_option parse_line parse_value split_once contains trim among
    remove_earlier_option remove_from valued
dash_value = refl

mode_is_checked : parse_lines [] false (text "mode = gateway" ∷ []) ≡ err bad_mode_value
unfolding parse_lines put_line put_option parse_line parse_value split_once contains trim among
    remove_earlier_option remove_from mode_flag
mode_is_checked = refl

config_is_extracted :
    extract_config_arg (text "newppp" ∷ text "-c" ∷ text "--config" ∷ text "x" ∷ text "--log" ∷ [])
    ≡ ok (some (text "x"), text "newppp" ∷ text "-c" ∷ text "--log" ∷ [])
unfolding extract_config_arg extract_from
config_is_extracted = refl
