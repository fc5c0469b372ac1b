-- ===== src/Proto/Codec/Examples.antt =====
-- Frames between two peers that share a cipher, as in the tests of src/proto/frame.rs.
use newppp.Prelude.{ℕ, ◌≡◌, refl, if◌then◌else◌, List, [], ◌∷◌, ◌++◌, take, drop, none, some, arith}
use newppp.Prelude.Bytes.{to_le, to_be, from_le}
use newppp.Proto.Error.{ok, err, replayed, open_failed}
use newppp.Proto.Counter.{stream}
use newppp.Proto.Counter
use newppp.Proto.Window.{ReplayWindow, check}
use newppp.Proto.Window
use newppp.Proto.Cipher.{nonce_for, seal_slice, decipher}
use newppp.Proto.Cipher.Sample.{sample-IsAead, sample_cipher}
use newppp.Proto.Frame.{
  Frame, data_frame, build_header, parse_header, from_u8, to_u8, max_plaintext,
}
use newppp.Proto.Codec.{
  FrameEncoder, FrameDecoder, encoder, encode, encode_into, decoder, set_cipher, feed, clear,
  next_frame, read,
}
use newppp.Proto.Codec.RoundTrip.{frame_for, passes, moved, next_frame-encode}
use newppp.Proto.Codec.Chunks.{read-joined, Agrees, delivers}

abbrev sender : FrameEncoder
sender = encoder sample_cipher stream

abbrev receiver : FrameDecoder
receiver = set_cipher (decoder none (some Window.new) max_plaintext) sample_cipher

abbrev hi : List ℕ
hi = b'h' ∷ b'i' ∷ []

abbrev header : List ℕ
header = 2 ∷ 6 ∷ 0 ∷ 0 ∷ 1 ∷ 0 ∷ 0 ∷ 0 ∷ 18 ∷ 0 ∷ 0 ∷ 0 ∷ 1 ∷ 0 ∷ 0 ∷ 0 ∷ 0 ∷ 0 ∷ 0 ∷ 0 ∷ []

abbrev tag : List ℕ
tag = 0 ∷ 0 ∷ 0 ∷ 0 ∷ 0 ∷ 0 ∷ 0 ∷ 0 ∷ 0 ∷ 0 ∷ 0 ∷ 1 ∷ 0 ∷ 0 ∷ 0 ∷ 0 ∷ []

abbrev wire : List ℕ
wire = header ++ (hi ++ tag)

abbrev the_frame : Frame
the_frame = record {
  ftype = data_frame;
  flags = 0;
  sid = 1;
  counter = 1;
  aad = take 12 header;
  payload = hi;
}

wire_is_encoded : (encode sender data_frame 0 1 hi).1 ≡ ok wire
unfolding encode encode_into encoder seal_slice nonce_for build_header to_u8 to_le to_be
    Counter.next stream
wire_is_encoded = refl

full_receiver : (next_frame (feed receiver wire)).1 ≡ ok (some the_frame)
unfolding next_frame feed decoder set_cipher parse_header from_u8 from_le decipher nonce_for to_be
    check Window.new
full_receiver = refl

next_frame-encode_example : next_frame (feed receiver (wire ++ (9 ∷ []))) ≡ (
  record receiver { buf = 9 ∷ []; window = moved receiver.window (Counter.next sender.counters).1 },
  if passes receiver.window (Counter.next sender.counters).1
      then ok (some (frame_for sender data_frame 0 1 hi))
      else err replayed,
)
unfolding encoder decoder set_cipher
next_frame-encode_example =
    next_frame-encode sender sample-IsAead receiver data_frame 0 1 hi wire (9 ∷ []) (omega arith)
      (omega arith) refl refl refl (omega arith) (omega arith) wire_is_encoded

-- The frame, cut in its header.
abbrev chunks : List (List ℕ)
chunks = take 3 wire ∷ drop 3 wire ∷ []

read-joined_example : (rest : List (List ℕ)) × Agrees receiver chunks rest
read-joined_example = read-joined receiver chunks (λ e. cc, (λ e. cc, tt))

read_answers : (read receiver (delivers chunks)).2 ≡ ok (some the_frame)
unfolding read next_frame feed decoder set_cipher parse_header from_u8 from_le decipher nonce_for
    to_be check Window.new
read_answers = refl

short_receiver : (next_frame (feed receiver hi)).1 ≡ ok none
unfolding next_frame feed decoder set_cipher
short_receiver = refl

-- A forged tag.
abbrev forged : FrameDecoder
forged = feed receiver (header ++ (hi ++ (7 ∷ drop 1 tag)))

forged_fails : (next_frame forged).1 ≡ err open_failed
unfolding next_frame feed decoder set_cipher parse_header from_u8 from_le decipher nonce_for to_be
forged_fails = refl

cleared_is_empty : (clear forged).buf ≡ []
unfolding clear
cleared_is_empty = refl
