-- ===== src/Proto/Addr/Socks.antt =====
-- The SOCKS5 UDP header, and the bounds of a decode.
use newppp.Prelude.{
  ℕ, ◌+◌, ◌*◌, ◌≤◌, ◌<◌, ◌≡◌, ◌≢◌, ◌⊎◌, refl, Bool, true, List, [], ◌∷◌, ◌++◌, length, arith,
  if◌then◌else◌, ◌==◌,
}
use newppp.Prelude.Bytes.{from_le}
use newppp.Proto.Error.{ok, err, fragmented, reserved_not_zero}
use newppp.Proto.Addr.{
  UdpAddr, Reader, new, encode_with, decode_with, decode_v4, decode_v6, decode_domain, read_u8,
  read_u16, read_u16_be, read_bytes, build_socks5_udp, parse_socks5_udp,
}
use newppp.Proto.Addr.Cursor.{At, adv, adv-At, read_bytes-At, read_u8-At}
use newppp.Proto.Addr.RoundTrip.{IsWire, decode-encode, encode_with-body}

read_u16_zero : (r : Reader) (more : List ℕ) → At r (0 ∷ 0 ∷ more) → read_u16 r ≡ ok (0, adv r 2)
unfolding read_u16 from_le
read_u16_zero r more h = rw (read_bytes-At r (0 ∷ 0 ∷ []) more 2 h refl)

module _ (utf8 : List ℕ → Bool) where
  -- A SOCKS5 UDP packet built for an address that the wire format can carry is parsed back into that
  -- address and the payload.
  pub parse-build :
      (a : UdpAddr) (payload : List ℕ)
      → IsWire utf8 a
      → parse_socks5_udp utf8 (build_socks5_udp a payload) ≡ ok (a, payload)
  unfolding parse_socks5_udp build_socks5_udp
  parse-build a payload w =
      let packet = encode_with a (0 ∷ 0 ∷ 0 ∷ []) true ++ payload in
      let shape : packet ≡ 0 ∷ 0 ∷ 0 ∷ (encode_with a [] true ++ payload) =
        rw (encode_with-body a (0 ∷ 0 ∷ 0 ∷ []) true, encode_with-body a [] true) in
      let start : At (new packet) (0 ∷ 0 ∷ 0 ∷ (encode_with a [] true ++ payload)) = record {
        left = shape;
        within = omega arith;
      } in
      let third = adv-At (new packet) (0 ∷ 0 ∷ []) _ 2 start refl in
      let (r', e, left) =
        decode-encode utf8 a (0 ∷ 0 ∷ 0 ∷ []) payload true (adv (adv (new packet) 2) 1) w refl
          refl in
      rw (read_u16_zero (new packet) _ start, read_u8-At (adv (new packet) 2) 0 _ third, e, left)

  -- A packet is refused if its reserved field or its fragment number is not zero, whatever follows;
  -- the reserved field is looked at first.
  pub parse_refuses :
      (a b f : ℕ) (more : List ℕ)
      → (a + 256 * b ≢ 0) ⊎ (f ≢ 0)
      → parse_socks5_udp utf8 (a ∷ b ∷ f ∷ more)
        ≡ err (if a + 256 * b == 0 then fragmented else reserved_not_zero)
  unfolding parse_socks5_udp read_u16 read_u8 new read_bytes from_le
  parse_refuses a b f more h = ground arith

  -- A successful decode moves the position forward and keeps it within the bytes, which it leaves as
  -- they are.
  pub decode-within :
      (r r' : Reader) (be : Bool) (a : UdpAddr)
      → r.pos ≤ length r.b
      → decode_with utf8 r be ≡ ok (a, r')
      → (r'.b ≡ r.b) × (r.pos < r'.pos) × (r'.pos ≤ length r.b)
  unfolding decode_with decode_v4 decode_v6 decode_domain read_u8 read_bytes read_u16 read_u16_be
  decode-within r r' be a h e = ground arith
