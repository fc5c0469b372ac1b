-- ===== src/Proto/Addr/RoundTrip.antt =====
-- src/proto/addr.rs: `UdpAddr::encode_with` against `UdpAddr::decode_with`.
use newppp.Prelude.{
  ℕ, ◌%◌, ◌≤◌, ◌<◌, ◌^◌, ◌≡◌, refl, ap, ◌∙◌, Bool, true, List, [], ◌∷◌, ◌++◌, length, length-append,
  drop-append, append_assoc, arith,
}
use newppp.Proto.Error.{ok}
use newppp.Proto.Addr.{
  UdpAddr, v4, v6, domain, SocketAddrV4, SocketAddrV6, Reader, put_port, encode_with, decode_with,
  decode_v4, decode_v6, decode_domain, rest,
}
use newppp.Proto.Addr.Cursor.{At, adv, adv-At, read_u8-At, read_body, rest-At}

-- What the fields of an address hold in Rust, and what the wire format can carry of them: no flow
-- label or scope, and a domain of at most 255 bytes.
abbrev pub IsWire : (List ℕ → Bool) → UdpAddr → Type 0
IsWire utf8 (v4 a) = (length a.octets ≡ 4) × (a.port < 2 ^ 16)
IsWire utf8 (v6 a) =
    (length a.octets ≡ 16) × (a.port < 2 ^ 16) × (a.flowinfo ≡ 0) × (a.scope_id ≡ 0)
IsWire utf8 (domain h p) = (length h ≤ 255) × (p < 2 ^ 16) × (utf8 h ≡ true)

-- The bytes behind the type byte.
abbrev body : UdpAddr → Bool → List ℕ
body (v4 a) be = a.octets ++ put_port be a.port
body (v6 a) be = a.octets ++ put_port be a.port
body (domain h p) be = (length h % 256) ∷ (h ++ put_port be p)

abbrev tag : UdpAddr → ℕ
tag (v4 a) = 1
tag (v6 a) = 2
tag (domain h p) = 3

pub encode_with-body :
    (a : UdpAddr) (out : List ℕ) (be : Bool) → encode_with a out be ≡ out ++ (tag a ∷ body a be)
unfolding encode_with
encode_with-body (v4 a) out be = refl
encode_with-body (v6 a) out be = refl
encode_with-body (domain h p) out be = refl

module _ (utf8 : List ℕ → Bool) where
  decode_v4-body :
      (r : Reader) (be : Bool) (a : SocketAddrV4) (more : List ℕ)
      → IsWire utf8 (v4 a)
      → At r (body (v4 a) be ++ more)
      → (r' : Reader) × (decode_v4 utf8 r be ≡ ok (v4 a, r')) × At r' more
  unfolding decode_v4
  decode_v4-body r be a more w h =
      let (bytes, port, left) = read_body r be a.octets a.port more 4 w.0 w.1 h in
      (adv (adv r 4) 2, rw (bytes, port), left)

  decode_v6-body :
      (r : Reader) (be : Bool) (a : SocketAddrV6) (more : List ℕ)
      → IsWire utf8 (v6 a)
      → At r (body (v6 a) be ++ more)
      → (r' : Reader) × (decode_v6 utf8 r be ≡ ok (v6 a, r')) × At r' more
  unfolding decode_v6
  decode_v6-body r be a more w h =
      let (bytes, port, left) = read_body r be a.octets a.port more 16 w.0 w.1 h in
      (adv (adv r 16) 2, rw (bytes, port) (ground arith), left)

  decode_domain-body :
      (r : Reader) (be : Bool) (d : List ℕ) (p : ℕ) (more : List ℕ)
      → IsWire utf8 (domain d p)
      → At r (body (domain d p) be ++ more)
      → (r' : Reader) × (decode_domain utf8 r be ≡ ok (domain d p, r')) × At r' more
  unfolding decode_domain
  decode_domain-body r be d p more w h =
      let n = length d % 256 in
      let len : length d ≡ n = omega arith in
      let next = adv-At r (n ∷ []) ((d ++ put_port be p) ++ more) 1 h refl in
      let (bytes, port, left) = read_body (adv r 1) be d p more n len w.1 next in
      (adv (adv (adv r 1) n) 2, rw (read_u8-At r n _ h, bytes, port, w.2), left)

  decode-body :
      (a : UdpAddr) (r : Reader) (be : Bool) (more : List ℕ)
      → IsWire utf8 a
      → At r (tag a ∷ (body a be ++ more))
      → (r' : Reader) × (decode_with utf8 r be ≡ ok (a, r')) × At r' more
  unfolding decode_with
  decode-body (v4 a) r be more w h =
      let (r', e, left) = decode_v4-body (adv r 1) be a more w (adv-At r (1 ∷ []) _ 1 h refl) in
      (r', rw (read_u8-At r 1 _ h) e, left)
  decode-body (v6 a) r be more w h =
      let (r', e, left) = decode_v6-body (adv r 1) be a more w (adv-At r (2 ∷ []) _ 1 h refl) in
      (r', rw (read_u8-At r 2 _ h) e, left)
  decode-body (domain d p) r be more w h =
      let (r', e, left) =
        decode_domain-body (adv r 1) be d p more w (adv-At r (3 ∷ []) _ 1 h refl) in
      (r', rw (read_u8-At r 3 _ h) e, left)

  -- An address that the wire format can carry, encoded with either byte order of the port behind any
  -- bytes `out`, is decoded from a reader that stands behind `out`; the address comes back and exactly
  -- the bytes that follow it are left, whatever they are.
  pub decode-encode :
      (a : UdpAddr) (out more : List ℕ) (be : Bool) (r : Reader)
      → IsWire utf8 a
      → r.b ≡ encode_with a out be ++ more
      → r.pos ≡ length out
      → (r' : Reader) × (decode_with utf8 r be ≡ ok (a, r')) × ((rest r').0 ≡ more)
  decode-encode a out more be r w hb hp =
      let bytes : r.b ≡ out ++ (tag a ∷ (body a be ++ more)) =
        hb ∙ rw (encode_with-body a out be) (append_assoc out (tag a ∷ body a be) more) in
      let start : At r (tag a ∷ (body a be ++ more)) = record {
        left = rw (hp, bytes) (drop-append (length out) out _ refl);
        within = omega (arith, ap length bytes, length-append out (tag a ∷ (body a be ++ more)));
      } in
      let (r', e, left) = decode-body a r be more w start in (r', e, rest-At r' more left)
