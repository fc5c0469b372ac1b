-- ===== src/Client/HttpProxy/Authorized.antt =====
-- src/client/http_proxy.rs: who gets a target dialled.
use newppp.Prelude.{
  ℕ, ◌+◌, ◌≡◌, true, ◌&&◌, List, [], ◌∷◌, Option, some, take, drop, arith, Bool-cases, Option-cases,
  inl, inr, ◌⊎◌,
}
use newppp.Prelude.Text.{text, trim, split_once, split_words}
use newppp.Proto.Error.{ok, ensure, >>=-eq-ok, ensure_then, ◌>>◌, auth_required}
use newppp.Client.Socks5.{constant_time_eq}
use newppp.Client.Socks5.Login.{constant_time_eq→eq}
use newppp.Client.HttpProxy.{
  eq_ignore_ascii_case, split_crlf, behind_first, any_line_ok, proxy_auth_ok, scheme_ok,
  request_line,
}
use newppp.Client.HttpProxy.Handle.{
  read_head, Dialled, dispatch, first_line, allowed, with_head, handle,
}

module _ (base64 : List ℕ → Option (List ℕ)) (lossy : List ℕ → List ℕ) where
  -- A header line that carries the credentials.
  pub record Carries (user pass line : List ℕ) : Type 0 where
    pub name : List ℕ
    pub value : List ℕ
    pub is_header : split_once b':' line ≡ some (name, value)
    pub is_proxy_auth : eq_ignore_ascii_case (trim name) (text "proxy-authorization") ≡ true
    pub scheme : List ℕ
    pub b64 : List ℕ
    pub raw : List ℕ
    pub has_scheme : split_once b' ' (trim value) ≡ some (scheme, b64)
    pub is_basic : eq_ignore_ascii_case scheme (text "basic") ≡ true
    pub is_base64 : base64 (trim b64) ≡ some raw
    pub credentials : split_once b':' raw ≡ some (user, pass)

  abbrev pub AnyCarries : List ℕ → List ℕ → List (List ℕ) → Type 0
  AnyCarries user pass [] = ⊥
  AnyCarries user pass (l ∷ ls) = Carries user pass l ⊎ AnyCarries user pass ls

  scheme_ok-Carries :
      (user pass line name value : List ℕ)
      → split_once b':' line ≡ some (name, value)
      → eq_ignore_ascii_case (trim name) (text "proxy-authorization") ≡ true
      → scheme_ok base64 user pass (split_once b' ' (trim value)) ≡ true
      → Carries user pass line
  scheme_ok-Carries user pass line name value header this e =
      elim (Option-cases (split_once b' ' (trim value))) [
        | inl missing ↦ absurd (cc (rw missing at e))
        | inr ((scheme, b64), found) ↦
            elim (Bool-cases (eq_ignore_ascii_case scheme (text "basic"))) [
              | inr other ↦ absurd (cc (rw (found, other) at e))
              | inl basic ↦ elim (Option-cases (base64 (trim b64))) [
                | inl bad ↦ absurd (cc (rw (found, basic, bad) at e))
                | inr (raw, decodes) ↦ elim (Option-cases (split_once b':' raw)) [
                  | inl bare ↦ absurd (cc (rw (found, basic, decodes, bare) at e))
                  | inr ((u, p), pair) ↦
                      let good : (constant_time_eq u user && constant_time_eq p pass) ≡ true =
                        rw (found, basic, decodes, pair) at e in
                      let same_user = constant_time_eq→eq u user (ground arith) in
                      let same_pass = constant_time_eq→eq p pass (ground arith) in
                      record {
                        name = name;
                        value = value;
                        is_header = header;
                        is_proxy_auth = this;
                        scheme = scheme;
                        b64 = b64;
                        raw = raw;
                        has_scheme = found;
                        is_basic = basic;
                        is_base64 = decodes;
                        credentials = rw (← same_user, ← same_pass) pair;
                      }
                ]
              ]
            ]
      ]

  any_line_ok-AnyCarries :
      (user pass : List ℕ) (ls : List (List ℕ))
      → any_line_ok base64 user pass ls ≡ true
      → AnyCarries user pass ls
  unfolding any_line_ok
  any_line_ok-AnyCarries user pass [] e = absurd (cc e)
  any_line_ok-AnyCarries user pass (line ∷ ls) e = elim (Option-cases (split_once b':' line)) [
    | inl none_here ↦ inr (any_line_ok-AnyCarries user pass ls (rw none_here at e))
    | inr ((name, value), header) ↦
        elim (Bool-cases (eq_ignore_ascii_case (trim name) (text "proxy-authorization"))) [
          | inr other ↦ inr (any_line_ok-AnyCarries user pass ls (rw (header, other) at e))
          | inl this ↦
              inl (scheme_ok-Carries user pass line name value header this (rw (header, this) at e))
        ]
  ]

  -- Where credentials are asked for, a target is dialled, as a tunnel or to forward a request, only if a
  -- whole head came in, and a header line of it carries exactly these credentials in base64.
  pub handle-AnyCarries :
      (user pass : List ℕ) (chunks : List (List ℕ)) (d : Dialled)
      → handle base64 lossy (some (user, pass)) chunks ≡ ok d
      → (r : ℕ × List ℕ) × (read_head [] chunks ≡ ok r)
        × AnyCarries user pass (behind_first (split_crlf (lossy (take r.0 r.1))))
  unfolding handle with_head proxy_auth_ok
  handle-AnyCarries user pass chunks d e =
      let (r, came, after) =
        >>=-eq-ok (read_head [] chunks)
          (λ r.
            with_head base64 lossy (some (user, pass)) (lossy (take r.0 r.1)) (drop (r.0 + 4) r.1))
          e in
      let head = lossy (take r.0 r.1) in
      let (line, parsed, rest) =
        >>=-eq-ok (request_line (split_words (first_line (split_crlf head))))
          (λ line.
            (ensure (allowed base64 lossy (some (user, pass)) head) auth_required
              >> dispatch head (drop (r.0 + 4) r.1) line))
          after in
      let (good, dispatched) =
        ensure_then (allowed base64 lossy (some (user, pass)) head) auth_required
          (dispatch head (drop (r.0 + 4) r.1) line) rest in
      (r, came, any_line_ok-AnyCarries user pass (behind_first (split_crlf head)) good)
