-- ===== src/Config/Roles/Server.antt =====
-- src/config.rs: what holds of a server's configuration that was accepted.
use newppp.Prelude.{
  ℕ, ◌*◌, ◌^◌, ◌≤◌, ◌<◌, ◌≡◌, inl, inr, refl, ap, Bool, true, ◌||◌, List, [], ◌∷◌, Bool-cases, suc,
  length, arith, All, bytes_eq,
}
use newppp.Prelude.Text.{text, trim, starts_with}
use newppp.Proto.Error.{ok, ensure, >>=-eq-ok, ensure-ok, ok-eq, no_listener}
use newppp.Config.{Cli, ServerConfig}
use newppp.Config.Fields.{is_empty, parse_auth, normalize_path, recv_window_bytes, max_frame_bytes}
use newppp.Config.Roles.{is_some, all_users, cert_source, server_config}
use newppp.Handshake.Limits.{IsLimit}
use newppp.Config.Fields.Bounds.{
  IsUser, parse_auth-IsUser, recv_window_bytes-bounds, max_frame_bytes-IsLimit,
}

starts_slash : (p : List ℕ) → starts_with (text "/") (normalize_path p) ≡ true
unfolding normalize_path
starts_slash p = elim (Bool-cases (is_empty (trim p) || bytes_eq (trim p) (text "/"))) [
  | inl root ↦ rw root refl
  | inr named ↦ elim (Bool-cases (starts_with (text "/") (trim p))) [
    | inl slash ↦ rw (named, slash) slash
    | inr bare ↦ rw (named, bare) refl
  ]
]

all_users-IsUser :
    (auth : List (List ℕ)) (users : List (List ℕ × List ℕ))
    → all_users auth ≡ ok users
    → All IsUser users × (length users ≡ length auth)
unfolding all_users
all_users-IsUser [] users e = rw (← ok-eq e) (tt, refl)
all_users-IsUser (a ∷ auth) users e =
    let (u, parsed, e1) = >>=-eq-ok (parse_auth a) _ e in
    let (us, rest, e2) = >>=-eq-ok (all_users auth) _ e1 in
    let (valid, long) = all_users-IsUser auth us rest in
    rw (← ok-eq e2) ((parse_auth-IsUser a u parsed, valid), ap suc long)

-- What a server can rely on.
pub record IsServer (c : Cli) (g : ServerConfig) : Type 0 where
  pub listener : (is_some g.listen || is_some g.fallback_listen) ≡ true
  pub users : All IsUser g.users
  pub users_length : length g.users ≡ length c.auth
  pub path : starts_with (text "/") g.path ≡ true
  pub sessions : 1 ≤ g.max_sessions
  pub idle : 5 ≤ g.idle_secs
  pub unauth : 1 ≤ g.max_unauth
  pub window : (1024 * 1024 ≤ g.recv_window) × (g.recv_window < 2 ^ 32)
  pub limit : IsLimit g.max_plaintext

module _ (is_file : List ℕ → Bool) where
  -- A server configuration that is accepted has a listener, all its users valid and as many as `--auth`
  -- was given, a path that begins with a slash, a session quota and a gate of at least 1, an idle time of
  -- at least 5 seconds, a window below 2^32 bytes and a frame limit between the floor and the cap.
  pub server_config-IsServer :
      (c : Cli) (g : ServerConfig) → server_config is_file c ≡ ok g → IsServer c g
  unfolding server_config
  server_config-IsServer c g e =
      let (_u, listens, e1) =
        >>=-eq-ok (ensure (is_some c.listen || is_some c.fallback_listen) no_listener) _ e in
      let (cert, has_cert, e2) = >>=-eq-ok (cert_source is_file c) _ e1 in
      let (users, valid, e3) = >>=-eq-ok (all_users c.auth) _ e2 in
      let (window, has_window, e8) = >>=-eq-ok (recv_window_bytes c.recv_window_mb) _ e3 in
      let (limit, has_limit, e9) = >>=-eq-ok (max_frame_bytes c.max_frame_kb) _ e8 in
      rw (← ok-eq e9) (record {
        listener = ensure-ok _ no_listener listens;
        users = (all_users-IsUser c.auth users valid).0;
        users_length = (all_users-IsUser c.auth users valid).1;
        path = starts_slash c.path;
        sessions = omega arith;
        idle = omega arith;
        unauth = omega arith;
        window = omega (arith, recv_window_bytes-bounds c.recv_window_mb window has_window);
        limit = (max_frame_bytes-IsLimit c.max_frame_kb limit has_limit).1;
      })
