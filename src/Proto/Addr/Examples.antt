-- ===== src/Proto/Addr/Examples.antt =====
-- The tests of src/proto/addr.rs, and the theorems at concrete addresses.
use newppp.Prelude.{ℕ, ◌≡◌, refl, Bool, true, false, List, [], ◌∷◌, ◌++◌, arith}
use newppp.Prelude.Bytes.{to_be}
use newppp.Proto.Error.{ok, err, bad_address_type, read_past_end}
use newppp.Proto.Addr.{
  UdpAddr, v4, domain, Reader, new, encode_with, decode_with, decode, rest, build_socks5_udp,
  read_u8, read_bytes,
}
use newppp.Proto.Addr.RoundTrip.{decode-encode}

-- Every byte string counts as UTF-8 here.
abbrev any_utf8 : List ℕ → Bool
any_utf8 b = true

abbrev host_v4 : UdpAddr
host_v4 = v4 (record { octets = 1 ∷ 2 ∷ 3 ∷ 4 ∷ []; port = 0xe450 })

abbrev host_dns : UdpAddr
host_dns = domain (b'd' ∷ b'n' ∷ b's' ∷ []) 853

socks5_udp_port_is_big_endian :
    build_socks5_udp host_v4 (b'h' ∷ b'i' ∷ [])
    ≡ 0 ∷ 0 ∷ 0 ∷ 1 ∷ 1 ∷ 2 ∷ 3 ∷ 4 ∷ 0xe4 ∷ 0x50 ∷ b'h' ∷ b'i' ∷ []
unfolding build_socks5_udp to_be
socks5_udp_port_is_big_endian = refl

bad_type : decode any_utf8 (new (9 ∷ 0 ∷ [])) ≡ err bad_address_type
unfolding decode new read_u8
bad_type = refl

short_domain : decode any_utf8 (new (3 ∷ 5 ∷ 0 ∷ [])) ≡ err read_past_end
unfolding decode new read_u8 read_bytes
short_domain = refl

decode-encode_example :
    (r' : Reader) × (decode_with any_utf8
        (record { b = encode_with host_dns (7 ∷ []) false ++ (1 ∷ 2 ∷ []); pos = 1 })
        false
      ≡ ok (host_dns, r'))
    × ((rest r').0 ≡ 1 ∷ 2 ∷ [])
decode-encode_example =
    decode-encode any_utf8 host_dns (7 ∷ []) (1 ∷ 2 ∷ []) false
      (record { b = encode_with host_dns (7 ∷ []) false ++ (1 ∷ 2 ∷ []); pos = 1 })
      (omega arith, omega arith, refl) refl refl

abbrev packet_v4 : List ℕ
packet_v4 = 1 ∷ 8 ∷ 8 ∷ 4 ∷ 4 ∷ 53 ∷ 0 ∷ 99 ∷ []

abbrev reader_after : Reader
reader_after = record { b = packet_v4; pos = 7 }

abbrev dns_v4 : UdpAddr
dns_v4 = v4 (record { octets = 8 ∷ 8 ∷ 4 ∷ 4 ∷ []; port = 53 })
