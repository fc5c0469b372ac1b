-- ===== src/Proto/Frame/Header.antt =====
-- The header's round trip, the codes of the frame types, and the negotiated limit.
use newppp.Prelude.{
  ℕ, ◌^◌, ◌≤◌, ◌<◌, ◌≡◌, ◌≢◌, ◌↔◌, refl, max, List, ◌∷◌, length, take, some, arith,
}
use newppp.Prelude.Bytes.{to_le, from_le-to_le}
use newppp.Proto.Error.{ok, err, bad_version}
use newppp.Proto.Frame.{
  FrameType, to_u8, from_u8, HeaderInfo, build_header, parse_header, negotiate, max_plaintext,
  max_plaintext_cap, proto_version,
}

from_u8-to_u8 : (t : FrameType) → from_u8 (to_u8 t) ≡ some t
unfolding from_u8 to_u8
from_u8-to_u8 FrameType.auth = refl
from_u8-to_u8 FrameType.auth_ok = refl
from_u8-to_u8 FrameType.open_req = refl
from_u8-to_u8 _ = refl

to_u8-from_u8 : (v : ℕ) (t : FrameType) → from_u8 v ≡ some t → to_u8 t ≡ v
unfolding from_u8 to_u8
to_u8-from_u8 v t e = ground arith

-- A byte is the code of a frame type exactly when `from_u8` answers that type.
pub from_u8_iff : (v : ℕ) (t : FrameType) → (from_u8 v ≡ some t) ↔ (to_u8 t ≡ v)
from_u8_iff v t = (to_u8-from_u8 v t, λ e. rw (← e) (from_u8-to_u8 t))

pub length-build_header :
    (t : FrameType) (flags sid n counter : ℕ) → length (build_header t flags sid n counter) ≡ 20
unfolding build_header to_le
length-build_header t flags sid n counter = refl

abbrev pub header_of : FrameType → ℕ → ℕ → ℕ → ℕ → HeaderInfo
header_of t flags sid n counter = record {
  ftype = t;
  flags = flags;
  sid = sid;
  ct_len = n;
  counter = counter;
  aad = take 12 (build_header t flags sid n counter);
}

-- A header built from fields that fit their widths is parsed back into exactly these fields, with its
-- first 12 bytes as the additional data.
pub parse_header-build_header :
    (t : FrameType) (flags sid n counter : ℕ)
    → flags < 2 ^ 16
    → sid < 2 ^ 32
    → n < 2 ^ 32
    → counter < 2 ^ 64
    → parse_header (build_header t flags sid n counter) ≡ ok (header_of t flags sid n counter)
unfolding parse_header build_header to_le
parse_header-build_header t flags sid n counter hf hs hn hc = ground (
  arith,
  from_u8-to_u8 t,
  from_le-to_le 2 flags hf,
  from_le-to_le 4 sid hs,
  from_le-to_le 4 n hn,
  from_le-to_le 8 counter hc,
)

-- A header of another protocol version is refused as such, whatever else it holds.
pub parse_header_version :
    (v : ℕ) (rest : List ℕ) → v ≢ proto_version → parse_header (v ∷ rest) ≡ err bad_version
unfolding parse_header
parse_header_version v rest h = ground arith

-- Both peers compute the same limit, which lies between the floor of 16 KiB and the cap of 1 MiB, and
-- above the floor it is no more than either peer advertised.
pub negotiate_bounds :
    (c s : ℕ)
    → (negotiate c s ≡ negotiate s c)
      × (max_plaintext ≤ negotiate c s)
      × (negotiate c s ≤ max_plaintext_cap)
      × (negotiate c s ≤ max max_plaintext c)
      × (negotiate c s ≤ max max_plaintext s)
unfolding negotiate
negotiate_bounds c s = omega arith
