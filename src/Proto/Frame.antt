-- ===== src/Proto/Frame.antt =====
-- src/proto/frame.rs: the frame header, the negotiated limit and the payload of an OPEN frame.
-- The encoder and the decoder are in Codec.
use newppp.Prelude.{
  ℕ, zero, suc, ◌+◌, ◌-◌, ◌*◌, ◌%◌, ◌^◌, ◌≤◌, ◌<◌, ◌≡◌, min, max, Bool, true, false, ltb, leb, ◌==◌,
  ◌&&◌, if◌then◌else◌, List, [], ◌∷◌, ◌++◌, length, take, drop, Option, none, some,
}
use newppp.Prelude.Bytes.{to_le, from_le}
use newppp.Proto.Error.{
  Result, ok, err, ◌>>=◌, ◌>>◌, ensure, bad_version, bad_frame_type, open_truncated,
  open_host_invalid, bad_utf8,
}
pub mod Header
pub mod Open
mod Examples

abbrev pub proto_version : ℕ
proto_version = 2

abbrev pub header_len : ℕ
header_len = 20

abbrev pub max_plaintext : ℕ
max_plaintext = 16 * 1024

abbrev pub max_plaintext_cap : ℕ
max_plaintext_cap = 1024 * 1024

abbrev pub flag_fin : ℕ
flag_fin = 1

abbrev pub flag_rst : ℕ
flag_rst = 2

-- `client.min(server).clamp(MAX_PLAINTEXT, MAX_PLAINTEXT_CAP)`.
unfoldable pub negotiate : ℕ → ℕ → ℕ
negotiate client server = min (max (min client server) max_plaintext) max_plaintext_cap

pub data FrameType : Type 0 where
  auth auth_ok open_req open_ok open_err data_frame close : FrameType
  ping pong udp_associate udp_ok udp_data error : FrameType

-- `ftype as u8`.
unfoldable pub to_u8 : FrameType → ℕ
to_u8 auth = 1
to_u8 auth_ok = 2
to_u8 open_req = 3
to_u8 open_ok = 4
to_u8 open_err = 5
to_u8 data_frame = 6
to_u8 close = 7
to_u8 ping = 8
to_u8 pong = 9
to_u8 udp_associate = 10
to_u8 udp_ok = 11
to_u8 udp_data = 12
to_u8 error = 13

unfoldable pub from_u8 : ℕ → Option FrameType
from_u8 v =
    if v == 1
    then some auth
    else if v == 2
    then some auth_ok
    else if v == 3
    then some open_req
    else if v == 4
    then some open_ok
    else if v == 5
    then some open_err
    else if v == 6
    then some data_frame
    else if v == 7
    then some close
    else if v == 8
    then some ping
    else if v == 9
    then some pong
    else if v == 10
    then some udp_associate
    else if v == 11
    then some udp_ok
    else if v == 12
    then some udp_data
    else if v == 13
    then some error
    else none

pub record Frame : Type 0 where
  pub ftype : FrameType
  pub flags : ℕ
  pub sid : ℕ
  pub counter : ℕ
  pub aad : List ℕ
  pub payload : List ℕ

pub record HeaderInfo : Type 0 where
  pub ftype : FrameType
  pub flags : ℕ
  pub sid : ℕ
  pub ct_len : ℕ
  pub counter : ℕ
  pub aad : List ℕ

-- `ct_len as u32` keeps the low 32 bits; so does `to_le 4`.
unfoldable pub build_header : FrameType → ℕ → ℕ → ℕ → ℕ → List ℕ
build_header ftype flags sid ct_len counter =
    proto_version
    ∷ to_u8 ftype
    ∷ (to_le 2 flags ++ (to_le 4 sid ++ (to_le 4 ct_len ++ to_le 8 counter)))

-- `h[i]` and `h[i..j]`; every index below is less than 20, the length of the array.
abbrev pub at : List ℕ → ℕ → ℕ
at [] i = 0
at (x ∷ xs) zero = x
at (x ∷ xs) (suc i) = at xs i

abbrev pub slice : List ℕ → ℕ → ℕ → List ℕ
slice h i j = take (j - i) (drop i h)

abbrev read_type : ℕ → Result FrameType
read_type v = elim (from_u8 v) [ none ↦ err bad_frame_type | some t ↦ ok t ]

unfoldable pub parse_header : List ℕ → Result HeaderInfo
parse_header h = do
  ensure (at h 0 == proto_version) bad_version
  t ← read_type (at h 1)
  ok (record {
    ftype = t;
    flags = from_le (slice h 2 4);
    sid = from_le (slice h 4 8);
    ct_len = from_le (slice h 8 12);
    counter = from_le (slice h 12 20);
    aad = take 12 h;
  })

-- `host.len() as u16`, the host and the port.
unfoldable pub encode_open : List ℕ → ℕ → List ℕ
encode_open host port = to_le 2 (length host) ++ (host ++ to_le 2 port)

module _ (utf8 : List ℕ → Bool) where
  unfoldable pub decode_open : List ℕ → Result (List ℕ × ℕ)
  decode_open payload =
      let hl = from_le (slice payload 0 2) in
      ensure (leb 4 (length payload)) open_truncated
      >> (ensure (leb (2 + hl + 2) (length payload) && (ltb 0 hl && leb hl 255)) open_host_invalid
          >> (ensure (utf8 (slice payload 2 (2 + hl))) bad_utf8
              >> ok (slice payload 2 (2 + hl), from_le (slice payload (2 + hl) (2 + hl + 2)))))
