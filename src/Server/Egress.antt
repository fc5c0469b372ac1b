-- ===== src/Server/Egress.antt =====
-- The egress policy of src/server/hub.rs: which addresses the server dials for a client. The tests of
-- `std::net` are written out from their documented ranges.
use Prim.Native.Nat.{bit_and}
use newppp.Prelude.{
  ℕ, ◌+◌, ◌*◌, ◌/◌, ◌%◌, ◌<◌, ◌≡◌, Bool, true, false, not, ltb, leb, ◌==◌, ◌&&◌, ◌||◌,
  if◌then◌else◌, Option, none, some,
}
pub mod Blocks
pub mod Embedded
mod Examples

pub record Ipv4Addr : Type 0 where
  pub a : ℕ
  pub b : ℕ
  pub c : ℕ
  pub d : ℕ

-- The eight 16-bit segments.
pub record Ipv6Addr : Type 0 where
  pub s0 : ℕ
  pub s1 : ℕ
  pub s2 : ℕ
  pub s3 : ℕ
  pub s4 : ℕ
  pub s5 : ℕ
  pub s6 : ℕ
  pub s7 : ℕ

pub data IpAddr : Type 0 where
  v4 : Ipv4Addr → IpAddr
  v6 : Ipv6Addr → IpAddr

pub record SocketAddr : Type 0 where
  pub ip : IpAddr
  pub port : ℕ

-- `std::net::Ipv4Addr`: 0.0.0.0; 127/8; 10/8, 172.16/12 and 192.168/16; 169.254/16; 224/4;
-- 255.255.255.255.
abbrev is_unspecified : Ipv4Addr → Bool
is_unspecified o = o.a == 0 && (o.b == 0 && (o.c == 0 && o.d == 0))

abbrev is_loopback : Ipv4Addr → Bool
is_loopback o = o.a == 127

abbrev is_private : Ipv4Addr → Bool
is_private o =
    o.a == 10 || ((o.a == 172 && (leb 16 o.b && leb o.b 31)) || (o.a == 192 && o.b == 168))

abbrev is_link_local : Ipv4Addr → Bool
is_link_local o = o.a == 169 && o.b == 254

abbrev is_multicast : Ipv4Addr → Bool
is_multicast o = leb 224 o.a && leb o.a 239

abbrev is_broadcast : Ipv4Addr → Bool
is_broadcast o = o.a == 255 && (o.b == 255 && (o.c == 255 && o.d == 255))

-- The block of `is_public_target` on the octets.
abbrev special_octets : Ipv4Addr → Bool
special_octets o =
    not (o.a == 0)
    && (not (bit_and o.a 0xf0 == 0xf0)
        && (not (o.a == 100 && (leb 64 o.b && leb o.b 127))
            && (not (o.a == 192 && (o.b == 0 && o.c == 0))
                && (not (o.a == 192 && (o.b == 0 && o.c == 2))
                    && (not (o.a == 198 && o.b == 18)
                        && (not (o.a == 198 && o.b == 19)
                            && (not (o.a == 198 && (o.b == 51 && o.c == 100))
                                && not (o.a == 203 && (o.b == 0 && o.c == 113)))))))))

unfoldable pub is_public_v4 : Ipv4Addr → Bool
is_public_v4 o =
    not (is_unspecified o)
    && (not (is_loopback o)
        && (not (is_private o)
            && (not (is_link_local o)
                && (not (is_multicast o) && (not (is_broadcast o) && special_octets o)))))

-- The closure `v4`: `hi as u8` is the low byte.
abbrev pub of_segments : ℕ → ℕ → Ipv4Addr
of_segments hi lo = record { a = hi / 256 % 256; b = hi % 256; c = lo / 256 % 256; d = lo % 256 }

abbrev zero4 : Ipv6Addr → Bool
zero4 s = s.s0 == 0 && (s.s1 == 0 && (s.s2 == 0 && s.s3 == 0))

unfoldable pub embedded_ipv4 : Ipv6Addr → Option Ipv4Addr
embedded_ipv4 s =
    if (zero4 s && s.s4 == 0) && s.s5 == 0xffff
    then some (of_segments s.s6 s.s7)
    else if zero4 s && (s.s4 == 0xffff && s.s5 == 0)
    then some (of_segments s.s6 s.s7)
    else if zero4 s && (s.s4 == 0 && s.s5 == 0)
    then some (of_segments s.s6 s.s7)
    else if (s.s0 == 0x64 && s.s1 == 0xff9b)
        && (s.s2 == 0 && (s.s3 == 0 && (s.s4 == 0 && s.s5 == 0)))
    then some (of_segments s.s6 s.s7)
    else if s.s0 == 0x2002
    then some (of_segments s.s1 s.s2)
    else none

abbrev v6_rest_zero : Ipv6Addr → Bool
v6_rest_zero s = zero4 s && (s.s4 == 0 && (s.s5 == 0 && s.s6 == 0))

-- The tests on an IPv6 address that embeds no IPv4 address; `std::net::Ipv6Addr` has ::, ::1 and
-- ff00::/8.
unfoldable pub is_public_plain_v6 : Ipv6Addr → Bool
is_public_plain_v6 s =
    not (v6_rest_zero s && s.s7 == 0)
    && (not (v6_rest_zero s && s.s7 == 1)
        && (not (bit_and s.s0 0xff00 == 0xff00)
            && (not (bit_and s.s0 0xfe00 == 0xfc00)
                && (not (bit_and s.s0 0xffc0 == 0xfe80)
                    && (not (s.s0 == 0x2001 && s.s1 == 0x0db8)
                        && (not (s.s0 == 0x2001 && s.s1 == 0)
                            && (not (
                                  s.s0 == 0x2001
                                  && (bit_and s.s1 0xfff0 == 0x10 || bit_and s.s1 0xfff0 == 0x20))
                                && not (
                                    s.s0 == 0x100 && (s.s1 == 0 && (s.s2 == 0 && s.s3 == 0))))))))))

is_public_v6 : Ipv6Addr → Option Ipv4Addr → Bool
is_public_v6 s (some o) = is_public_v4 o
is_public_v6 s none = is_public_plain_v6 s

is_public_ip : IpAddr → Bool
unfolding is_public_v6
is_public_ip (v4 o) = is_public_v4 o
is_public_ip (v6 s) = is_public_v6 s (embedded_ipv4 s)

unfoldable pub is_public_target : SocketAddr → Bool
unfolding is_public_ip
is_public_target addr = is_public_ip addr.ip
