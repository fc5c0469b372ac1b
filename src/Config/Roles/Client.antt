-- ===== src/Config/Roles/Client.antt =====
-- src/config.rs: what holds of a client's configuration that was accepted.
use newppp.Prelude.{
  ℕ, ◌*◌, ◌^◌, ◌≤◌, ◌<◌, ◌≡◌, Bool, true, false, not, leb, ◌&&◌, ◌||◌, List, Option, none, some,
  length, arith,
}
use newppp.Prelude.Text.{text, starts_with}
use newppp.Proto.Error.{
  ok, ensure, >>=-eq-ok, ensure-ok, ensure_then, ok-eq, pin_and_skip_verify, bad_sni_length,
  bad_sni_dots, bad_sni_characters, sni_with_wss, sni_unpinned, no_server, bad_conns,
}
use newppp.Config.{Cli, ClientConfig}
use newppp.Config.Fields.{
  is_empty, every, parse_auth, recv_window_bytes, max_frame_bytes, parse_fingerprint,
}
use newppp.Config.Roles.{
  is_some, pinned, ends_with_dot, two_dots, host_char, over_wss, check_sni, inbound, first_auth,
  client_fields, client_config,
}
use newppp.Handshake.Limits.{IsLimit}
use newppp.Config.Fields.Bounds.{
  IsUser, not_empty, parse_auth-IsUser, recv_window_bytes-bounds, max_frame_bytes-IsLimit,
  parse_fingerprint-length,
}

-- The pin is a whole fingerprint, and it does not stand beside `--skip-verify`.
abbrev pub IsPin : Bool → Option (List ℕ) → Type 0
IsPin skip_verify none = Unit {0}
IsPin skip_verify (some fp) = (length fp ≡ 32) × (skip_verify ≡ false)

pinned-IsPin : (skip : Bool) (raw pin : Option (List ℕ)) → pinned skip raw ≡ ok pin → IsPin skip pin
unfolding pinned
pinned-IsPin skip none pin e = let same : none ≡ pin = cc e in rw (← same) tt
pinned-IsPin skip (some raw) pin e =
    let (fp, read, e1) = >>=-eq-ok (parse_fingerprint raw) _ e in
    let (alone, e2) = ensure_then (not skip) pin_and_skip_verify _ e1 in
    let same : some fp ≡ pin = cc e2 in
    rw (← same) (parse_fingerprint-length raw fp read, ground arith)

-- A name to show to the network: 1 to 253 letters, digits, dots, dashes and underscores, with no dot at
-- either end and no two in a row, over a transport that does not route by it, with another
-- way to tell the server or with none wanted.
abbrev pub IsMasquerade : Bool → Option (List ℕ) → Option (List ℕ) → Option (List ℕ) → Type 0
IsMasquerade skip_verify url pin none = Unit {0}
IsMasquerade skip_verify url pin (some sni) =
    (1 ≤ length sni)
    × (length sni ≤ 253)
    × (every host_char sni ≡ true)
    × (starts_with (text ".") sni ≡ false)
    × (ends_with_dot sni ≡ false)
    × (two_dots sni ≡ false)
    × (over_wss url ≡ false)
    × ((is_some pin || skip_verify) ≡ true)

check_sni-IsMasquerade :
    (skip : Bool) (url pin sni : Option (List ℕ)) {u : Unit {0}}
    → check_sni skip url pin sni ≡ ok u
    → IsMasquerade skip url pin sni
unfolding check_sni
check_sni-IsMasquerade skip url pin none e = tt
check_sni-IsMasquerade skip url pin (some sni) e =
    let (size, e1) = ensure_then (leb (length sni) 253 && not (is_empty sni)) bad_sni_length _ e in
    let (dots, e2) =
      ensure_then
        (not (starts_with (text ".") sni) && (not (ends_with_dot sni) && not (two_dots sni)))
        bad_sni_dots _ e1 in
    let (chars, e3) = ensure_then (every host_char sni) bad_sni_characters _ e2 in
    let (direct, e4) = ensure_then (not (over_wss url)) sni_with_wss _ e3 in
    let pins = ensure-ok (is_some pin || skip) sni_unpinned e4 in
    (
      not_empty sni (ground arith),
      ground arith,
      chars,
      ground arith,
      ground arith,
      ground arith,
      ground arith,
      pins,
    )

-- What a client can rely on.
pub record IsClient (g : ClientConfig) : Type 0 where
  pub user : IsUser (g.uid, g.password)
  pub server : (is_some g.wt_url || is_some g.fb_url) ≡ true
  pub conns : (1 ≤ g.conns) × (g.conns ≤ 8)
  pub pin : IsPin g.skip_verify g.pin
  pub sni : IsMasquerade g.skip_verify g.fb_url g.pin g.sni
  pub window : (1024 * 1024 ≤ g.recv_window) × (g.recv_window < 2 ^ 32)
  pub limit : IsLimit g.max_plaintext

client_fields-IsClient :
    (c : Cli) (both : List ℕ × List ℕ) (pin : Option (List ℕ)) (g : ClientConfig)
    → IsUser both
    → (is_some c.server_url || is_some c.url) ≡ true
    → (leb 1 c.conns && leb c.conns 8) ≡ true
    → IsPin c.skip_verify pin
    → IsMasquerade c.skip_verify c.url pin c.sni
    → client_fields c both pin ≡ ok g
    → IsClient g
unfolding client_fields
client_fields-IsClient c both pin g user servers few pins name e =
    let (auth, has_auth, e7) = >>=-eq-ok (inbound c.inbound_auth) _ e in
    let (window, has_window, e8) = >>=-eq-ok (recv_window_bytes c.recv_window_mb) _ e7 in
    let (limit, has_limit, e9) = >>=-eq-ok (max_frame_bytes c.max_frame_kb) _ e8 in
    rw (← ok-eq e9) (record {
      user = user;
      server = servers;
      conns = ground arith;
      pin = pins;
      sni = name;
      window = omega (arith, recv_window_bytes-bounds c.recv_window_mb window has_window);
      limit = (max_frame_bytes-IsLimit c.max_frame_kb limit has_limit).1;
    })

-- A client configuration that is accepted has a valid user and a server, 1 to 8 connections, a window
-- below 2^32 bytes and a frame limit between the floor and the cap; a pin is 32 bytes and excludes
-- `--skip-verify`; a masquerade name is 1 to 253 letters, digits, dots,
-- dashes and underscores with no dot at either end and no two in a row, does not go over a WebSocket URL, and has a pin or
-- `--skip-verify` beside it.
pub client_config-IsClient : (c : Cli) (g : ClientConfig) → client_config c ≡ ok g → IsClient g
unfolding client_config
client_config-IsClient c g e =
    let (first, has_first, e1) = >>=-eq-ok (first_auth c.auth) _ e in
    let (both, parsed, e2) = >>=-eq-ok (parse_auth first) _ e1 in
    let (_u, servers, e3) =
      >>=-eq-ok (ensure (is_some c.server_url || is_some c.url) no_server) _ e2 in
    let (_v, few, e4) = >>=-eq-ok (ensure (leb 1 c.conns && leb c.conns 8) bad_conns) _ e3 in
    let (pin, has_pin, e5) = >>=-eq-ok (pinned c.skip_verify c.pin) _ e4 in
    let (_w, name, e6) = >>=-eq-ok (check_sni c.skip_verify c.url pin c.sni) _ e5 in
    client_fields-IsClient c both pin g (parse_auth-IsUser first both parsed)
      (ensure-ok _ no_server servers) (ensure-ok _ bad_conns few)
      (pinned-IsPin c.skip_verify c.pin pin has_pin)
      (check_sni-IsMasquerade c.skip_verify c.url pin c.sni name) e6
