-- ===== src/Clock/Url.antt =====
-- src/clock.rs: `parse_url`.
use newppp.Prelude.{
  ℕ, ◌^◌, ◌≡◌, refl, Bool, true, false, not, ltb, ◌==◌, if◌then◌else◌, List, [], ◌∷◌, ◌++◌, Option,
  none, some, arith,
}
use newppp.Prelude.Text.{text, strip_prefix, contains, parse_digits}
use newppp.Proto.Error.{Result, ok, err, ensure, ◌>>◌, ◌>>=◌, bad_scheme, bad_port, empty_host}
use newppp.Config.Fields.{is_empty}

-- `parse_url`: the host, the port, the path, and whether to use TLS.
abbrev scheme : List ℕ → Option (Bool × List ℕ)
scheme url = elim (strip_prefix (text "https://") url) [
  | some r ↦ some (true, r)
  | none ↦ elim (strip_prefix (text "http://") url) [ some r ↦ some (false, r) | none ↦ none ]
]

abbrev pub parse_u16 : List ℕ → Option ℕ
parse_u16 [] = none
parse_u16 (c ∷ s) = elim (if c == b'+' then parse_digits s else parse_digits (c ∷ s)) [
  | none ↦ none
  | some n ↦ if ltb n (2 ^ 16) then some n else none
]

-- `rest.find('/')`: the authority, and the path with its slash.
unfoldable pub split_path : List ℕ → List ℕ × List ℕ
split_path [] = ([], text "/")
split_path (c ∷ s) =
    let (authority, path) = split_path s in if c == b'/' then ([], c ∷ s) else (c ∷ authority, path)

-- `authority.rsplit_once(':')`.
unfoldable pub rsplit_once : ℕ → List ℕ → Option (List ℕ × List ℕ)
rsplit_once sep [] = none
rsplit_once sep (c ∷ s) = elim (rsplit_once sep s) [
  | some (l, r) ↦ some (c ∷ l, r)
  | none ↦ if c == sep then some ([], s) else none
]

abbrev host_port : Bool → List ℕ → Option (List ℕ × List ℕ) → Result (List ℕ × ℕ)
host_port tls authority none = ok (authority, if tls then 443 else 80)
host_port tls authority (some (h, p)) = elim (parse_u16 p) [
  | none ↦ err bad_port
  | some n ↦ ok (h, n)
]

abbrev split_url : Option (Bool × List ℕ) → Result (List ℕ × ℕ × List ℕ × Bool)
split_url none = err bad_scheme
split_url (some (tls, rest)) = do
  hp ← host_port tls (split_path rest).0 (rsplit_once b':' (split_path rest).0)
  ensure (not (is_empty hp.0)) empty_host >> ok (hp.0, hp.1, (split_path rest).1, tls)

unfoldable pub parse_url : List ℕ → Result (List ℕ × ℕ × List ℕ × Bool)
parse_url url = split_url (scheme url)

split_path-append :
    (host path : List ℕ)
    → contains b'/' host ≡ false
    → split_path (host ++ (b'/' ∷ path)) ≡ (host, b'/' ∷ path)
unfolding split_path contains
split_path-append [] path h = refl
split_path-append (c ∷ host) path h =
    let rest = split_path-append host path (ground arith) in ground (arith, rest)

rsplit_once-none : (sep : ℕ) (s : List ℕ) → contains sep s ≡ false → rsplit_once sep s ≡ none
unfolding rsplit_once contains
rsplit_once-none sep [] h = refl
rsplit_once-none sep (c ∷ s) h = rw (rsplit_once-none sep s (ground arith)) (ground arith)

-- A URL of a host without a port is taken apart into the host, the port of its scheme and the path.
pub parse_url-https :
    (host path : List ℕ)
    → contains b'/' host ≡ false
    → contains b':' host ≡ false
    → is_empty host ≡ false
    → parse_url (text "https://" ++ (host ++ (b'/' ∷ path))) ≡ ok (host, 443, b'/' ∷ path, true)
unfolding parse_url
parse_url-https host path h k full =
    rw (split_path-append host path h, rsplit_once-none b':' host k, full) refl
