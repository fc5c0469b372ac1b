-- ===== src/Client/HttpProxy/Examples.antt =====
-- Request heads, as in the tests of src/client/http_proxy.rs.
use newppp.Prelude.{take, ℕ, ◌≡◌, refl, true, List, [], ◌∷◌, ◌++◌, Option, some}
use newppp.Prelude.Text.{split_words, text, trim, split_once, contains, parse_digits}
use newppp.Proto.Error.{ok}
use newppp.Proto.Auth.{difference}
use newppp.Clock.Url.{rsplit_once}
use newppp.Client.Socks5.{constant_time_eq}
use newppp.Client.HttpProxy.{
  request_line, origin_of, eq_ignore_ascii_case, find_double_crlf, split_crlf, crlf, behind_first,
  forward_lines, forward_http_head, any_line_ok, proxy_auth_ok, parse_host_port,
}
use newppp.Client.HttpProxy.Handle.{read_head, forwarded, until_path, dispatch, with_head, handle}
use newppp.Client.HttpProxy.Authorized.{AnyCarries, handle-AnyCarries}
use newppp.Client.HttpProxy.Forward.{kept, origin_line, forward_http_head-kept}

-- In place of base64: the text as it is.
abbrev plain : List ℕ → Option (List ℕ)
plain b = some b

abbrev head : List ℕ
head =
    text "GET http://h/p HTTP/1.1"
    ++ (crlf
        ++ (text "Proxy-Authorization: Basic al:pw" ++ (crlf ++ (text "Host: h" ++ (crlf ++ [])))))

forward_http_head-kept_example :
    split_crlf (forward_http_head head (text "GET") (text "/p") (text "HTTP/1.1"))
    ≡ origin_line (text "GET") (text "/p") (text "HTTP/1.1")
      ∷ (kept (behind_first (split_crlf head)) ++ ([] ∷ [] ∷ []))
forward_http_head-kept_example =
    forward_http_head-kept head (text "GET") (text "/p") (text "HTTP/1.1") refl

is_forwarded :
    forward_http_head head (text "GET") (text "/p") (text "HTTP/1.1")
    ≡ text "GET /p HTTP/1.1" ++ (crlf ++ (text "Host: h" ++ (crlf ++ crlf)))
unfolding forward_http_head forward_lines split_crlf split_once eq_ignore_ascii_case
is_forwarded = refl

-- A blank before the colon: the credentials let the request in, and go on to the destination.
abbrev blank_head : List ℕ
blank_head =
    text "GET http://h/p HTTP/1.1" ++ (crlf ++ (text "Proxy-Authorization : Basic al:pw" ++ crlf))

blank_is_let_in : proxy_auth_ok plain blank_head (text "al") (text "pw") ≡ true
unfolding proxy_auth_ok any_line_ok split_crlf split_once eq_ignore_ascii_case trim constant_time_eq
    difference
blank_is_let_in = refl

blank_is_forwarded :
    forward_http_head blank_head (text "GET") (text "/p") (text "HTTP/1.1")
    ≡ text "GET /p HTTP/1.1"
      ++ (crlf ++ (text "Proxy-Authorization : Basic al:pw" ++ (crlf ++ crlf)))
unfolding forward_http_head forward_lines split_crlf split_once eq_ignore_ascii_case
blank_is_forwarded = refl

head_ends : find_double_crlf (text "ab" ++ (crlf ++ (crlf ++ text "c"))) ≡ some 2
unfolding find_double_crlf
head_ends = refl

six : parse_host_port (text "[::1]:9090") 80 ≡ ok (text "::1", 9090)
unfolding parse_host_port trim split_once parse_digits rsplit_once contains
six = refl

without_port : parse_host_port (text "example.com") 443 ≡ ok (text "example.com", 443)
unfolding parse_host_port trim split_once parse_digits rsplit_once contains
without_port = refl

-- A whole request, in two chunks.
abbrev request : List (List ℕ)
request = head ∷ (crlf ++ text "body") ∷ []

abbrev same_bytes : List ℕ → List ℕ
same_bytes b = b

request_goes :
    handle plain same_bytes (some (text "al", text "pw")) request
    ≡ ok (
        forwarded
          (text "h")
          80
          (text "GET /p HTTP/1.1" ++ (crlf ++ (text "Host: h" ++ (crlf ++ (crlf ++ text "body"))))))
unfolding handle read_head with_head dispatch until_path request_line origin_of find_double_crlf
    split_words eq_ignore_ascii_case parse_host_port forward_http_head forward_lines any_line_ok
    proxy_auth_ok split_crlf trim split_once contains parse_digits rsplit_once constant_time_eq
    difference
request_goes = refl

handle-AnyCarries_example :
    (r : ℕ × List ℕ) × (read_head [] request ≡ ok r)
    × AnyCarries plain same_bytes
        (text "al")
        (text "pw")
        (behind_first (split_crlf (same_bytes (take r.0 r.1))))
handle-AnyCarries_example =
    handle-AnyCarries plain same_bytes (text "al") (text "pw") request
      (forwarded (text "h") 80
        (text "GET /p HTTP/1.1" ++ (crlf ++ (text "Host: h" ++ (crlf ++ (crlf ++ text "body"))))))
      request_goes
