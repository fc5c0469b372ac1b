-- ===== src/Client/HttpProxy.antt =====
-- src/client/http_proxy.rs: the parsers of a request head, the check of its credentials, and the head
-- that is forwarded. Base64 is a crate's: `base64` is a parameter.
use newppp.Prelude.{
  ℕ, zero, suc, ◌+◌, ◌-◌, ◌^◌, ◌≡◌, Bool, true, false, not, ltb, leb, ◌==◌, ◌&&◌, ◌||◌,
  if◌then◌else◌, List, [], ◌∷◌, ◌++◌, Option, none, some, length, take, drop, bytes_eq,
}
use newppp.Prelude.Text.{text, trim, split_once, contains, strip_prefix, starts_with, split_words}
use newppp.Proto.Error.{
  Result, ok, err, ensure, ◌>>◌, ◌>>=◌, empty_target, bad_ipv6_target, bad_port, bad_request_line,
  missing_method, missing_target, missing_version,
}
use newppp.Config.Fields.{is_empty}
use newppp.Clock.Url.{rsplit_once, parse_u16}
use newppp.Client.Socks5.{constant_time_eq}
pub mod Forward
pub mod Handle
pub mod Authorized
mod Examples

-- `str::to_ascii_lowercase`, byte by byte.
abbrev pub to_ascii_lowercase : ℕ → ℕ
to_ascii_lowercase c = if leb b'A' c && leb c b'Z' then c + 32 else c

unfoldable pub eq_ignore_ascii_case : List ℕ → List ℕ → Bool
eq_ignore_ascii_case [] [] = true
eq_ignore_ascii_case (a ∷ as') (b ∷ bs) =
    (to_ascii_lowercase a == to_ascii_lowercase b) && eq_ignore_ascii_case as' bs
eq_ignore_ascii_case _ _ = false

-- `buf.windows(4).position(|w| w == b"\r\n\r\n")`.
unfoldable pub find_double_crlf : List ℕ → Option ℕ
find_double_crlf [] = none
find_double_crlf (c ∷ s) =
    let rest = find_double_crlf s in
    if starts_with (13 ∷ 10 ∷ 13 ∷ 10 ∷ []) (c ∷ s)
    then some 0
    else elim rest [ none ↦ none | some n ↦ some (suc n) ]

-- A character before the first line.
onto_head : ℕ → List (List ℕ) → List (List ℕ)
onto_head c [] = (c ∷ []) ∷ []
onto_head c (l ∷ ls) = (c ∷ l) ∷ ls

-- `head.split("\r\n")`.
unfoldable pub split_crlf : List ℕ → List (List ℕ)
unfolding onto_head
split_crlf [] = [] ∷ []
split_crlf (c ∷ []) = (c ∷ []) ∷ []
split_crlf (c ∷ d ∷ s) = elim ((c == 13) && (d == 10)) [
  | true ↦ [] ∷ split_crlf s
  | false ↦ onto_head c (split_crlf (d ∷ s))
]

abbrev pub crlf : List ℕ
crlf = 13 ∷ 10 ∷ []

-- `skip(1)`.
abbrev pub behind_first : List (List ℕ) → List (List ℕ)
behind_first [] = []
behind_first (l ∷ ls) = ls

-- The lines that are not passed on: those without a colon, and two headers.
abbrev pub held_back : Option (List ℕ × List ℕ) → Bool
held_back none = true
held_back (some (name, value)) =
    eq_ignore_ascii_case name (text "proxy-authorization")
    || eq_ignore_ascii_case name (text "proxy-connection")

unfoldable pub forward_lines : List (List ℕ) → List ℕ
forward_lines [] = crlf
forward_lines (line ∷ lines) =
    let rest = forward_lines lines in
    if held_back (split_once b':' line) then rest else line ++ (crlf ++ rest)

unfoldable pub forward_http_head : List ℕ → List ℕ → List ℕ → List ℕ → List ℕ
forward_http_head head method origin version =
    method
    ++ (text " "
        ++ (origin
            ++ (text " " ++ (version ++ (crlf ++ forward_lines (behind_first (split_crlf head)))))))

module _ (base64 : List ℕ → Option (List ℕ)) where
  abbrev credentials_ok : List ℕ → List ℕ → Option (List ℕ × List ℕ) → Bool
  credentials_ok user pass none = false
  credentials_ok user pass (some (u, p)) = constant_time_eq u user && constant_time_eq p pass

  abbrev decoded_ok : List ℕ → List ℕ → Option (List ℕ) → Bool
  decoded_ok user pass none = false
  decoded_ok user pass (some raw) = credentials_ok user pass (split_once b':' raw)

  abbrev pub scheme_ok : List ℕ → List ℕ → Option (List ℕ × List ℕ) → Bool
  scheme_ok user pass none = false
  scheme_ok user pass (some (scheme, b64)) =
      if not (eq_ignore_ascii_case scheme (text "basic"))
      then false
      else decoded_ok user pass (base64 (trim b64))

  -- The first line with the header decides.
  abbrev line_ok : List ℕ → List ℕ → Option (List ℕ × List ℕ) → Bool → Bool
  line_ok user pass none rest = rest
  line_ok user pass (some (name, value)) rest =
      if not (eq_ignore_ascii_case (trim name) (text "proxy-authorization"))
      then rest
      else scheme_ok user pass (split_once b' ' (trim value))

  unfoldable pub any_line_ok : List ℕ → List ℕ → List (List ℕ) → Bool
  any_line_ok user pass [] = false
  any_line_ok user pass (line ∷ lines) =
      let rest = any_line_ok user pass lines in line_ok user pass (split_once b':' line) rest

  unfoldable pub proxy_auth_ok : List ℕ → List ℕ → List ℕ → Bool
  proxy_auth_ok head user pass = any_line_ok user pass (behind_first (split_crlf head))

-- `parse_host_port`.
abbrev port_or : ℕ → List ℕ → Option (List ℕ) → Result (List ℕ × ℕ)
port_or default host none = ok (host, default)
port_or default host (some digits) = elim (parse_u16 digits) [
  | none ↦ err bad_port
  | some n ↦ ok (host, n)
]

abbrev bracketed : ℕ → Option (List ℕ × List ℕ) → Result (List ℕ × ℕ)
bracketed default none = err bad_ipv6_target
bracketed default (some (host, after)) = port_or default host (strip_prefix (text ":") after)

abbrev plain_host : ℕ → List ℕ → Option (List ℕ × List ℕ) → Result (List ℕ × ℕ)
plain_host default s none = ok (s, default)
plain_host default s (some (h, p)) =
    if contains b':' h
    then ok (s, default)
    else elim (parse_u16 p) [ none ↦ err bad_port | some n ↦ ok (h, n) ]

abbrev host_port_of : ℕ → List ℕ → Option (List ℕ) → Result (List ℕ × ℕ)
host_port_of default s (some inside) = bracketed default (split_once b']' inside)
host_port_of default s none = plain_host default s (rsplit_once b':' s)

unfoldable pub parse_host_port : List ℕ → ℕ → Result (List ℕ × ℕ)
parse_host_port raw default =
    let s = trim raw in
    ensure (not (is_empty s)) empty_target >> host_port_of default s (strip_prefix (text "[") s)

-- The request line: the method, the target and the version.
abbrev pub known_version : List ℕ → Bool
known_version v = bytes_eq v (text "HTTP/1.0") || bytes_eq v (text "HTTP/1.1")

unfoldable pub request_line : List (List ℕ) → Result (List ℕ × List ℕ × List ℕ)
request_line (method ∷ target ∷ version ∷ []) =
    ensure (known_version version) bad_request_line >> ok (method, target, version)
request_line [] = err missing_method
request_line (method ∷ []) = err missing_target
request_line (method ∷ target ∷ []) = err missing_version
request_line _ = err bad_request_line

-- The origin form of the rest of an absolute URL behind its host.
unfoldable pub origin_of : List ℕ → List ℕ
origin_of [] = text "/"
origin_of (c ∷ s) = if c == b'?' then b'/' ∷ c ∷ s else c ∷ s
