-- ===== src/Proto/Frame/Open.antt =====
-- src/proto/frame.rs: `encode_open` and `decode_open`.
use newppp.Prelude.{
  ℕ, ◌+◌, ◌-◌, ◌^◌, ◌≤◌, ◌<◌, ◌≡◌, refl, ap, Bool, true, List, ◌++◌, length, drop, length-append,
  append_assoc, take-append, drop-append, length-take, drop-add, arith,
}
use newppp.Prelude.Bytes.{to_le, from_le, from_le-to_le}
use newppp.Proto.Error.{ok}
use newppp.Proto.Frame.{encode_open, decode_open, slice}

-- The parts of the payload that `decode_open` looks at.
record Parts (payload host : List ℕ) (port n : ℕ) : Type 0 where
  len : from_le (slice payload 0 2) ≡ n
  name : slice payload 2 (2 + n) ≡ host
  number : from_le (slice payload (2 + n) (2 + n + 2)) ≡ port
  whole : n + 4 ≤ length payload

encode_open-Parts :
    (host pad : List ℕ) (port : ℕ)
    → length host ≤ 255
    → port < 2 ^ 16
    → Parts (encode_open host port ++ pad) host port (length host)
unfolding encode_open to_le
encode_open-Parts host pad port hi hp =
    let n = length host in
    let tail : (host ++ to_le 2 port) ++ pad ≡ host ++ (to_le 2 port ++ pad) =
      append_assoc host (to_le 2 port) pad in
    let skip : 2 + n - 2 ≡ n = omega arith in
    let two : 2 + n + 2 - (2 + n) ≡ 2 = omega arith in
    record {
      len = from_le-to_le 2 n (omega arith);
      name = rw (skip, tail) (take-append n host _ refl);
      number =
          rw
            (
              two,
              drop-add 2 n (encode_open host port ++ pad),
              tail,
              drop-append n host (to_le 2 port ++ pad) refl,
            )
            (from_le-to_le 2 port hp);
      whole = omega (arith, ap length tail, length-append host (to_le 2 port ++ pad));
    }

module _ (utf8 : List ℕ → Bool) where
  decode_open-Parts :
      (payload host : List ℕ) (port n : ℕ)
      → Parts payload host port n
      → 0 < n
      → n ≤ 255
      → utf8 host ≡ true
      → decode_open utf8 payload ≡ ok (host, port)
  unfolding decode_open
  decode_open-Parts payload host port n parts lo hi valid =
      rw (parts.len, parts.name, parts.number, valid) (ground (arith, parts.whole))

  -- A host of 1 to 255 UTF-8 bytes and a 16-bit port are decoded as they were encoded, and whatever
  -- stands behind them, such as random padding, is ignored.
  pub decode_open-encode_open :
      (host pad : List ℕ) (port : ℕ)
      → 0 < length host
      → length host ≤ 255
      → utf8 host ≡ true
      → port < 2 ^ 16
      → decode_open utf8 (encode_open host port ++ pad) ≡ ok (host, port)
  decode_open-encode_open host pad port lo hi valid hp =
      decode_open-Parts _ host port (length host) (encode_open-Parts host pad port hi hp) lo hi
        valid

  -- Whatever decodes has a host of 1 to 255 UTF-8 bytes, and its bytes stand in the payload.
  pub decode_open_sound :
      (payload host : List ℕ) (port : ℕ)
      → decode_open utf8 payload ≡ ok (host, port)
      → (utf8 host ≡ true)
        × (0 < length host)
        × (length host ≤ 255)
        × (length host + 4 ≤ length payload)
  unfolding decode_open
  decode_open_sound payload host port e =
      ground (arith, length-take (from_le (slice payload 0 2)) (drop 2 payload))
