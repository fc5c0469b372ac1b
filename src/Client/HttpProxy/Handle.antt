-- ===== src/Client/HttpProxy/Handle.antt =====
-- src/client/http_proxy.rs: `handle` up to the dialling of the target. The request is the list of what
-- `read` answers, an empty chunk being the end of the input; `from_utf8_lossy` is a parameter.
use newppp.Prelude.{
  ℕ, ◌+◌, ◌*◌, Bool, true, not, ltb, ◌==◌, ◌||◌, if◌then◌else◌, List, [], ◌∷◌, ◌++◌, Option, none,
  some, length, take, drop,
}
use newppp.Prelude.Text.{text, strip_prefix, split_words}
use newppp.Proto.Error.{
  Result, ok, err, ensure, ◌>>◌, ◌>>=◌, closed_early, head_too_large, only_http, auth_required,
}
use newppp.Client.HttpProxy.{
  eq_ignore_ascii_case, find_double_crlf, split_crlf, forward_http_head, proxy_auth_ok,
  parse_host_port, request_line, origin_of,
}

abbrev max_head : ℕ
max_head = 16 * 1024

-- The loop that reads: where the head ends, and all that was read.
unfoldable pub read_head : List ℕ → List (List ℕ) → Result (ℕ × List ℕ)
read_head buf [] = err closed_early
read_head buf ([] ∷ chunks) = err closed_early
read_head buf ((b ∷ bs) ∷ chunks) =
    let more = read_head (buf ++ (b ∷ bs)) chunks in
    ensure (not (ltb max_head (length (buf ++ (b ∷ bs))))) head_too_large
    >> elim (find_double_crlf (buf ++ (b ∷ bs))) [ none ↦ more | some n ↦ ok (n, buf ++ (b ∷ bs)) ]

-- What is dialled, and what is sent there first.
pub data Dialled : Type 0 where
  tunnel : List ℕ → ℕ → List ℕ → Dialled
  forwarded : List ℕ → ℕ → List ℕ → Dialled

-- The URL at its first slash or question mark.
unfoldable pub until_path : List ℕ → List ℕ × List ℕ
until_path [] = ([], [])
until_path (c ∷ s) =
    let (host, suffix) = until_path s in
    if (c == b'/') || (c == b'?') then ([], c ∷ s) else (c ∷ host, suffix)

abbrev pub absolute : List ℕ → List ℕ → List ℕ → List ℕ → Option (List ℕ) → Result Dialled
absolute head method version body none = err only_http
absolute head method version body (some hostport) =
    let (authority, suffix) = until_path hostport in
    parse_host_port authority 80 >>= λ target.
    ok (
      forwarded target.0 target.1
        (forward_http_head head method (origin_of suffix) version ++ body))

unfoldable pub dispatch : List ℕ → List ℕ → List ℕ × List ℕ × List ℕ → Result Dialled
dispatch head body (method, target, version) =
    if eq_ignore_ascii_case method (text "CONNECT")
    then (parse_host_port target 443 >>= λ to. ok (tunnel to.0 to.1 body))
    else absolute head method version body (strip_prefix (text "http://") target)

abbrev pub first_line : List (List ℕ) → List ℕ
first_line [] = []
first_line (l ∷ ls) = l

module _ (base64 : List ℕ → Option (List ℕ)) (lossy : List ℕ → List ℕ) where
  abbrev pub allowed : Option (List ℕ × List ℕ) → List ℕ → Bool
  allowed none head = true
  allowed (some (user, pass)) head = proxy_auth_ok base64 head user pass

  unfoldable pub with_head : Option (List ℕ × List ℕ) → List ℕ → List ℕ → Result Dialled
  with_head auth head body = request_line (split_words (first_line (split_crlf head))) >>= λ line.
      (ensure (allowed auth head) auth_required >> dispatch head body line)

  unfoldable pub handle : Option (List ℕ × List ℕ) → List (List ℕ) → Result Dialled
  handle auth chunks =
      read_head [] chunks >>= λ r. with_head auth (lossy (take r.0 r.1)) (drop (r.0 + 4) r.1)
