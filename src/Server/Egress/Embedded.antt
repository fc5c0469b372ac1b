-- ===== src/Server/Egress/Embedded.antt =====
-- IPv6 forms of an IPv4 address.
use newppp.Prelude.{ℕ, ◌+◌, ◌*◌, ◌≡◌, ap, some, arith}
use newppp.Server.Egress.{Ipv4Addr, Ipv6Addr, v4, v6, of_segments, embedded_ipv4, is_public_target}
use newppp.Server.Egress.Blocks.{IsIpv4}

-- The ways in which RFC 4291, RFC 6052 and RFC 3056 write an IPv4 address into an IPv6 one: mapped,
-- translated, compatible, NAT64, and 6to4 with any suffix.
pub data Form : Type 0 where
  mapped translated compatible nat64 : Form
  six_to_four : ℕ → ℕ → ℕ → ℕ → ℕ → Form

abbrev high : Ipv4Addr → ℕ
high o = o.a * 256 + o.b

abbrev low : Ipv4Addr → ℕ
low o = o.c * 256 + o.d

abbrev pub written : Form → Ipv4Addr → Ipv6Addr
written mapped o = record {
  s0 = 0;
  s1 = 0;
  s2 = 0;
  s3 = 0;
  s4 = 0;
  s5 = 0xffff;
  s6 = high o;
  s7 = low o;
}
written translated o = record {
  s0 = 0;
  s1 = 0;
  s2 = 0;
  s3 = 0;
  s4 = 0xffff;
  s5 = 0;
  s6 = high o;
  s7 = low o;
}
written compatible o = record {
  s0 = 0;
  s1 = 0;
  s2 = 0;
  s3 = 0;
  s4 = 0;
  s5 = 0;
  s6 = high o;
  s7 = low o;
}
written nat64 o = record {
  s0 = 0x64;
  s1 = 0xff9b;
  s2 = 0;
  s3 = 0;
  s4 = 0;
  s5 = 0;
  s6 = high o;
  s7 = low o;
}
written (six_to_four t3 t4 t5 t6 t7) o = record {
  s0 = 0x2002;
  s1 = high o;
  s2 = low o;
  s3 = t3;
  s4 = t4;
  s5 = t5;
  s6 = t6;
  s7 = t7;
}

of_segments-high-low : (o : Ipv4Addr) → IsIpv4 o → of_segments (high o) (low o) ≡ o
of_segments-high-low o h = ground arith

embedded-written : (f : Form) (o : Ipv4Addr) → IsIpv4 o → embedded_ipv4 (written f o) ≡ some o
unfolding embedded_ipv4
embedded-written mapped o h = ap some (of_segments-high-low o h)
embedded-written translated o h = ap some (of_segments-high-low o h)
embedded-written compatible o h = ap some (of_segments-high-low o h)
embedded-written nat64 o h = ap some (of_segments-high-low o h)
embedded-written (six_to_four t3 t4 t5 t6 t7) o h = ap some (of_segments-high-low o h)

-- An IPv6 address that is IPv4-mapped, IPv4-translated or IPv4-compatible, under the NAT64 prefix
-- 64:ff9b::/96, or a 6to4 address, is a public target exactly if the IPv4 address in it is.
pub is_public_target-written :
    (f : Form) (o : Ipv4Addr) (port : ℕ)
    → IsIpv4 o
    → is_public_target (record { ip = v6 (written f o); port = port })
      ≡ is_public_target (record { ip = v4 o; port = port })
unfolding is_public_target
is_public_target-written f o port h = rw (embedded-written f o h)
