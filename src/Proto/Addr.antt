-- ===== src/Proto/Addr.antt =====
-- src/proto/addr.rs: the encoding of UDP targets and sources, and the SOCKS5 UDP header.
-- A byte string is a list of numbers. `String::from_utf8` is the standard library's: the test whether
-- bytes are UTF-8 is a parameter, and a string is the list of its bytes.
use newppp.Prelude.{
  ℕ, zero, suc, ◌+◌, ◌-◌, ◌%◌, ◌≤◌, ◌<◌, ◌≡◌, Bool, true, false, ltb, leb, ◌==◌, if◌then◌else◌,
  List, [], ◌∷◌, ◌++◌, length, take, drop,
}
use newppp.Prelude.Bytes.{to_le, to_be, from_le, from_be}
use newppp.Proto.Error.{Error, Result, ok, err, ◌>>=◌, ◌>>◌, ensure}
use newppp.Proto.Error.{read_past_end, reserved_not_zero, fragmented, bad_address_type, bad_utf8}
pub mod Cursor
pub mod RoundTrip
pub mod Socks
mod Examples

-- `octets` holds 4 bytes.
pub record SocketAddrV4 : Type 0 where
  pub octets : List ℕ
  pub port : ℕ

-- `octets` holds 16 bytes.
pub record SocketAddrV6 : Type 0 where
  pub octets : List ℕ
  pub port : ℕ
  pub flowinfo : ℕ
  pub scope_id : ℕ

pub data UdpAddr : Type 0 where
  v4 : SocketAddrV4 → UdpAddr
  v6 : SocketAddrV6 → UdpAddr
  domain : List ℕ → ℕ → UdpAddr

-- The closure `put`: a port in network or in little-endian order.
abbrev put_port : Bool → ℕ → List ℕ
put_port be port = if be then to_be 2 port else to_le 2 port

-- The bytes go behind `out`. The length of a domain is written in one byte, `as u8`; that it fits is
-- asserted in debug builds only.
unfoldable pub encode_with : UdpAddr → List ℕ → Bool → List ℕ
encode_with (v4 a) out be = out ++ (1 ∷ (a.octets ++ put_port be a.port))
encode_with (v6 a) out be = out ++ (2 ∷ (a.octets ++ put_port be a.port))
encode_with (domain h p) out be = out ++ (3 ∷ (length h % 256) ∷ (h ++ put_port be p))

unfoldable pub encode : UdpAddr → List ℕ → List ℕ
unfolding encode_with
encode a out = encode_with a out false

-- A read position in a byte string.
pub record Reader : Type 0 where
  pub b : List ℕ
  pub pos : ℕ

unfoldable pub new : List ℕ → Reader
new b = record { b = b; pos = 0 }

-- The slice `b[pos..pos + n]`; `len - pos` cannot wrap, since `pos` stays within `b`.
unfoldable pub read_bytes : Reader → ℕ → Result (List ℕ × Reader)
read_bytes r n =
    ensure (leb n (length r.b - r.pos)) read_past_end
    >> ok (take n (drop r.pos r.b), record r { pos = r.pos + n })

-- The first byte of what is left.
abbrev first_or : List ℕ → ℕ → ℕ
first_or [] d = d
first_or (x ∷ xs) d = x

unfoldable pub read_u8 : Reader → Result (ℕ × Reader)
read_u8 r =
    ensure (ltb r.pos (length r.b)) read_past_end
    >> ok (first_or (drop r.pos r.b) 0, record r { pos = r.pos + 1 })

unfoldable pub read_u16 : Reader → Result (ℕ × Reader)
unfolding read_bytes
read_u16 r = do (b, r') ← read_bytes r 2; ok (from_le b, r')

unfoldable pub read_u16_be : Reader → Result (ℕ × Reader)
unfolding read_bytes
read_u16_be r = do (b, r') ← read_bytes r 2; ok (from_be b, r')

unfoldable pub rest : Reader → List ℕ × Reader
rest r = (drop r.pos r.b, record r { pos = length r.b })

-- The closure `read_port`.
abbrev read_port : Bool → Reader → Result (ℕ × Reader)
read_port be r = if be then read_u16_be r else read_u16 r

module _ (utf8 : List ℕ → Bool) where
  -- `String::from_utf8(d)?`.
  abbrev from_utf8 : List ℕ → Result (List ℕ)
  from_utf8 d = if utf8 d then ok d else err bad_utf8

  decode_v4 : Reader → Bool → Result (UdpAddr × Reader)
  decode_v4 r be = do
    (b, r1) ← read_bytes r 4
    (port, r2) ← read_port be r1
    ok (v4 (record { octets = b; port = port }), r2)

  decode_v6 : Reader → Bool → Result (UdpAddr × Reader)
  decode_v6 r be = do
    (b, r1) ← read_bytes r 16
    (port, r2) ← read_port be r1
    ok (v6 (record { octets = b; port = port; flowinfo = 0; scope_id = 0 }), r2)

  decode_domain : Reader → Bool → Result (UdpAddr × Reader)
  decode_domain r be = do
    (l, r1) ← read_u8 r
    (d, r2) ← read_bytes r1 l
    (port, r3) ← read_port be r2
    h ← from_utf8 d
    ok (domain h port, r3)

  unfoldable pub decode_with : Reader → Bool → Result (UdpAddr × Reader)
  unfolding decode_v4 decode_v6 decode_domain
  decode_with r be = do
    (t, r1) ← read_u8 r
    if t == 1
        then decode_v4 r1 be
        else if t == 2
        then decode_v6 r1 be
        else if t == 3
        then decode_domain r1 be
        else err bad_address_type

  unfoldable pub decode : Reader → Result (UdpAddr × Reader)
  unfolding decode_with
  decode r = decode_with r false

  -- A SOCKS5 UDP request: RSV(2) FRAG(1) ATYP(1) ADDR PORT and the payload.
  unfoldable pub parse_socks5_udp : List ℕ → Result (UdpAddr × List ℕ)
  unfolding new read_u16 read_u8 decode_with rest
  parse_socks5_udp packet = do
    (rsv, r1) ← read_u16 (new packet)
    ensure (rsv == 0) reserved_not_zero
    (frag, r2) ← read_u8 r1
    ensure (frag == 0) fragmented
    (addr, r3) ← decode_with r2 true
    ok (addr, (rest r3).0)

unfoldable pub build_socks5_udp : UdpAddr → List ℕ → List ℕ
unfolding encode_with
build_socks5_udp addr payload = encode_with addr (0 ∷ 0 ∷ 0 ∷ []) true ++ payload
