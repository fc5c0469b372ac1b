-- ===== src/Proto/Codec/Decode.antt =====
-- src/proto/frame.rs: `FrameDecoder::next_frame` on any bytes.
use newppp.Prelude.{◌+◌, ◌<◌, ◌≡◌, ◌≢◌, false, length, take, drop, none, some, arith}
use newppp.Proto.Error.{Error, ok, err, replayed}
use newppp.Proto.Cipher.{decipher}
use newppp.Proto.Frame.{Frame, parse_header, slice}
use newppp.Prelude.Bytes.{from_le}
use newppp.Proto.Cipher.{FrameCipher}
use newppp.Proto.Codec.{FrameDecoder, after_open, decrypt, unseal, with_header, next_frame}

-- While the decoder asks for more bytes it holds fewer than one frame of the greatest length, so the
-- limit bounds the memory that a peer can make it buffer.
pub next_frame_bounded :
    (d : FrameDecoder) → (next_frame d).1 ≡ ok none → length d.buf < 20 + (d.limit + 16)
unfolding next_frame with_header unseal decrypt after_open
next_frame_bounded d e = ground arith

-- A call that ends in an error other than `replayed`, such as a failed authentication, leaves the
-- replay window as it was; so does a call that asks for more bytes.
pub next_frame_window :
    (d : FrameDecoder) (e : Error)
    → (next_frame d).1 ≡ err e
    → e ≢ replayed
    → (next_frame d).0.window ≡ d.window
unfolding next_frame with_header unseal decrypt after_open
next_frame_window d e h ne = ground arith

-- With a cipher set and `raw` off, a delivered frame carries what the cipher opens: under the frame's
-- counter, the first 12 bytes of the header as additional data and the bytes behind the header, as many
-- as it says, the payload is the plaintext.
pub next_frame_authentic :
    (d : FrameDecoder) (c : FrameCipher) (f : Frame)
    → d.raw ≡ false
    → d.cipher ≡ some c
    → (next_frame d).1 ≡ ok (some f)
    → (decipher c f.counter f.aad (take (from_le (slice (take 20 d.buf) 8 12)) (drop 20 d.buf))
        ≡ ok f.payload)
      × (f.aad ≡ take 12 (take 20 d.buf))
      × (f.counter ≡ from_le (slice (take 20 d.buf) 12 20))
unfolding next_frame with_header unseal decrypt after_open parse_header
next_frame_authentic d c f r hc e = (ground arith, ground arith, ground arith)
