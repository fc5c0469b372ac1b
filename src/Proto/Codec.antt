-- ===== src/Proto/Codec.antt =====
-- src/proto/frame.rs: `FrameEncoder`, `FrameDecoder` and `FrameReader`. The frame limit and the counter
-- that handles of one connection share are fields here, and each call hands back the new state. The
-- buffer's capacity is not modelled.
use newppp.Prelude.{
  ℕ, ◌+◌, ◌-◌, ◌^◌, ◌≤◌, ◌<◌, ◌≡◌, min, Bool, true, false, not, ltb, leb, ◌==◌, ◌&&◌, if◌then◌else◌,
  List, [], ◌∷◌, ◌++◌, length, take, drop, Option, none, some,
}
use newppp.Proto.Error.{
  Error, Result, ok, err, ◌>>=◌, payload_too_large, invalid_length, replayed, truncated_at_eof,
}
use newppp.Proto.Counter.{CounterGen}
use newppp.Proto.Counter
use newppp.Proto.Window.{ReplayWindow, check}
use newppp.Proto.Cipher.{FrameCipher, seal_slice, decipher, tag_len}
use newppp.Proto.Frame.{
  FrameType, Frame, HeaderInfo, build_header, parse_header, header_len, max_plaintext,
}
pub mod Decode
pub mod RoundTrip
pub mod Chunks
mod Examples

pub record FrameEncoder : Type 0 where
  pub cipher : FrameCipher
  pub counters : CounterGen
  pub limit : ℕ

pub record FrameDecoder : Type 0 where
  pub cipher : Option FrameCipher
  pub window : Option ReplayWindow
  pub limit : ℕ
  pub buf : List ℕ
  pub raw : Bool

-- `FrameEncoder::new`, with the default limit.
unfoldable pub encoder : FrameCipher → CounterGen → FrameEncoder
encoder c g = record { cipher = c; counters = g; limit = max_plaintext }

-- The end of `encode_into`: the header is in `out`, and the sealed payload follows it.
append_sealed :
    FrameEncoder
    → List ℕ
    → List ℕ
    → Result (List ℕ × List ℕ)
    → FrameEncoder × List ℕ × Result (Unit {0})
append_sealed enc out payload (err e) = (enc, out ++ payload, err e)
append_sealed enc out payload (ok (buf, tag)) = (enc, out ++ (buf ++ tag), ok tt)

-- The encoder, the buffer `out` with the frame behind what it held, and the outcome. Sealing fails on
-- the length, before it writes, so the header and the payload as it was are then left in `out`.
unfoldable pub encode_into :
    FrameEncoder → FrameType → ℕ → ℕ → List ℕ → List ℕ → FrameEncoder × List ℕ × Result (Unit {0})
unfolding append_sealed
encode_into enc ftype flags sid payload out =
    if ltb enc.limit (length payload)
    then (enc, out, err payload_too_large)
    else (let (counters', counter) = Counter.next enc.counters in
        let header = build_header ftype flags sid (length payload + tag_len) counter in
        append_sealed (record enc { counters = counters' }) (out ++ header) payload
          (seal_slice enc.cipher counter (take 12 header) payload))

unfoldable pub encode : FrameEncoder → FrameType → ℕ → ℕ → List ℕ → FrameEncoder × Result (List ℕ)
unfolding encode_into
encode enc ftype flags sid payload =
    let (enc', out, r) = encode_into enc ftype flags sid payload [] in (enc', r >>= λ _. ok out)

unfoldable pub decoder : Option FrameCipher → Option ReplayWindow → ℕ → FrameDecoder
decoder c w limit = record { cipher = c; window = w; limit = limit; buf = []; raw = false }

unfoldable pub set_cipher : FrameDecoder → FrameCipher → FrameDecoder
set_cipher d c = record d { cipher = some c; raw = false }

unfoldable pub feed : FrameDecoder → List ℕ → FrameDecoder
feed d bytes = record d { buf = d.buf ++ bytes }

unfoldable pub clear : FrameDecoder → FrameDecoder
clear d = record d { buf = [] }

abbrev pub frame_of : HeaderInfo → List ℕ → Frame
frame_of info payload = record {
  ftype = info.ftype;
  flags = info.flags;
  sid = info.sid;
  counter = info.counter;
  aad = info.aad;
  payload = payload;
}

-- The replay window is looked at, and moved, only after the payload was authenticated.
after_open : FrameDecoder → HeaderInfo → Result (List ℕ) → FrameDecoder × Result (Option Frame)
after_open d info (err e) = (d, err e)
after_open d info (ok payload) = elim d.window [
  | none ↦ (d, ok (some (frame_of info payload)))
  | some w ↦ (
    record d { window = some (check w info.counter).0 },
    if (check w info.counter).1 then ok (some (frame_of info payload)) else err replayed,
  )
]

decrypt :
    Option FrameCipher → FrameDecoder → HeaderInfo → List ℕ → FrameDecoder × Result (Option Frame)
decrypt none d info ct = (d, ok (some (frame_of info ct)))
decrypt (some c) d info ct = after_open d info (decipher c info.counter info.aad ct)

-- `ct` was split off the buffer.
unseal : FrameDecoder → HeaderInfo → List ℕ → FrameDecoder × Result (Option Frame)
unfolding decrypt after_open
unseal d info ct = if d.raw then (d, ok (some (frame_of info ct))) else decrypt d.cipher d info ct

-- `limit.saturating_add(TAG_LEN)` on a 64-bit `usize`.
abbrev max_ct : FrameDecoder → ℕ
max_ct d = min (d.limit + tag_len) (2 ^ 64 - 1)

with_header : FrameDecoder → Result HeaderInfo → FrameDecoder × Result (Option Frame)
unfolding unseal
with_header d (err e) = (d, err e)
with_header d (ok info) =
    if not (leb tag_len info.ct_len && leb info.ct_len (max_ct d))
    then (d, err invalid_length)
    else if ltb (length d.buf) (header_len + info.ct_len)
    then (d, ok none)
    else unseal (record d { buf = drop info.ct_len (drop header_len d.buf) }) info
        (take info.ct_len (drop header_len d.buf))

-- The decoder after the call, and a frame, `none` while bytes are missing, or an error.
unfoldable pub next_frame : FrameDecoder → FrameDecoder × Result (Option Frame)
unfolding with_header
next_frame d =
    if ltb (length d.buf) header_len
    then (d, ok none)
    else with_header d (parse_header (take header_len d.buf))

-- What the reads of the transport answer, one after the other: bytes or an error. No bytes, and the
-- end of the list, are the end of the stream.
abbrev pub Script : Type 0
Script = List (Result (List ℕ))

-- `FrameReader::read` at the end of the stream.
at_eof : FrameDecoder → Result (Option Frame)
at_eof d = elim d.buf [ [] ↦ ok none | b ∷ bs ↦ err truncated_at_eof ]

-- `FrameReader::read`: the decoder and what is left of the script, and the answer.
pub read : FrameDecoder → Script → FrameDecoder × Script × Result (Option Frame)
unfolding at_eof
read d [] = elim (next_frame d).1 [
  | ok none ↦ ((next_frame d).0, [], at_eof (next_frame d).0)
  | ok (some f) ↦ ((next_frame d).0, [], ok (some f))
  | err e ↦ ((next_frame d).0, [], err e)
]
read d (c ∷ cs) = elim (next_frame d).1 [
  | ok none ↦ elim c [
    | err e ↦ ((next_frame d).0, cs, err e)
    | ok [] ↦ ((next_frame d).0, cs, at_eof (next_frame d).0)
    | ok (b ∷ bs) ↦ read (feed (next_frame d).0 (b ∷ bs)) cs
  ]
  | ok (some f) ↦ ((next_frame d).0, c ∷ cs, ok (some f))
  | err e ↦ ((next_frame d).0, c ∷ cs, err e)
]
