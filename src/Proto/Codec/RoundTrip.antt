-- ===== src/Proto/Codec/RoundTrip.antt =====
-- src/proto/frame.rs: `FrameEncoder::encode` against `FrameDecoder::next_frame`.
use newppp.Prelude.{
  ℕ, ◌+◌, ◌^◌, ◌≤◌, ◌<◌, ◌≡◌, refl, ap, ◌∙◌, Bool, true, false, ltb, if◌then◌else◌, List, [], ◌++◌,
  length, take, drop, length-append, take-append, drop-append, append_assoc, Option, none, some,
  arith, ltb→ge, Bool-cases, inl, inr, ◌⊎◌,
}
use newppp.Proto.Error.{Error, Result, ok, err, replayed}
use newppp.Proto.Counter
use newppp.Proto.Window.{ReplayWindow, check}
use newppp.Proto.Cipher.{IsAead, seal_slice, decipher}
use newppp.Proto.Cipher.Open.{length-seal_slice, decipher-seal_slice}
use newppp.Proto.Frame.{FrameType, Frame, HeaderInfo, build_header}
use newppp.Proto.Frame.Header.{header_of, length-build_header, parse_header-build_header}
use newppp.Proto.Codec.{
  FrameEncoder, FrameDecoder, append_sealed, encode, feed, frame_of, after_open, decrypt, unseal,
  with_header, next_frame,
}

abbrev pub header_for : FrameEncoder → FrameType → ℕ → ℕ → List ℕ → List ℕ
header_for enc t flags sid payload =
    build_header t flags sid (length payload + 16) (Counter.next enc.counters).1

-- The header, the ciphertext and the tag make up the frame.
record IsWire (enc : FrameEncoder) (t : FrameType) (flags sid : ℕ) (payload wire : List ℕ)
    : Type 0 where
  text : List ℕ
  tag : List ℕ
  fits : length payload ≤ enc.limit
  sealed :
      seal_slice enc.cipher
        (Counter.next enc.counters).1
        (take 12 (header_for enc t flags sid payload))
        payload
      ≡ ok (text, tag)
  bytes : wire ≡ header_for enc t flags sid payload ++ (text ++ tag)

Seal-cases :
    (r : Result (List ℕ × List ℕ))
    → ((text : List ℕ) × (tag : List ℕ) × (r ≡ ok (text, tag))) ⊎ ((e : Error) × (r ≡ err e))
Seal-cases (ok (text, tag)) = inl (text, tag, refl)
Seal-cases (err e) = inr (e, refl)

encode-IsWire :
    (enc : FrameEncoder) (t : FrameType) (flags sid : ℕ) (payload wire : List ℕ)
    → (encode enc t flags sid payload).1 ≡ ok wire
    → IsWire enc t flags sid payload wire
unfolding encode append_sealed
encode-IsWire enc t flags sid payload wire e = elim (Bool-cases (ltb enc.limit (length payload))) [
  | inl over ↦ absurd (ground arith)
  | inr fits ↦
      elim (Seal-cases (
        seal_slice enc.cipher (Counter.next enc.counters).1
          (take 12 (header_for enc t flags sid payload)) payload)) [
            | inl (text, tag, s) ↦ record {
              text = text;
              tag = tag;
              fits = ltb→ge _ _ fits;
              sealed = s;
              bytes = ground arith;
            }
            | inr (x, s) ↦ absurd (ground arith)
          ]
]

-- The bytes of a whole frame at the head of the buffer.
next_frame-whole :
    (d : FrameDecoder) (t : FrameType) (flags sid counter n : ℕ) (ct more : List ℕ)
    → flags < 2 ^ 16
    → sid < 2 ^ 32
    → n < 2 ^ 32
    → counter < 2 ^ 64
    → length ct ≡ n
    → 16 ≤ n
    → n ≤ d.limit + 16
    → d.buf ≡ build_header t flags sid n counter ++ (ct ++ more)
    → next_frame d ≡ unseal (record d { buf = more }) (header_of t flags sid n counter) ct
unfolding next_frame with_header
next_frame-whole d t flags sid counter n ct more hf hs hn hc len lo hi hb =
    let header = build_header t flags sid n counter in
    let head : take 20 d.buf ≡ header =
      rw hb (take-append 20 header (ct ++ more) (length-build_header t flags sid n counter)) in
    let body : drop 20 d.buf ≡ ct ++ more =
      rw hb (drop-append 20 header (ct ++ more) (length-build_header t flags sid n counter)) in
    let total : length d.buf ≡ 20 + (n + length more) = omega (
      arith,
      ap length hb,
      length-append header (ct ++ more),
      length-append ct more,
      length-build_header t flags sid n counter,
    ) in
    rw
      (
        head,
        parse_header-build_header t flags sid n counter hf hs hn hc,
        body,
        take-append n ct more len,
        drop-append n ct more len,
      )
      (ground (arith, total))

-- The frame that the peer gets.
abbrev pub frame_for : FrameEncoder → FrameType → ℕ → ℕ → List ℕ → Frame
frame_for enc t flags sid payload = record {
  ftype = t;
  flags = flags;
  sid = sid;
  counter = (Counter.next enc.counters).1;
  aad = take 12 (header_for enc t flags sid payload);
  payload = payload;
}

-- How a decoder's replay window takes a counter.
abbrev pub passes : Option ReplayWindow → ℕ → Bool
passes none counter = true
passes (some w) counter = (check w counter).1

abbrev pub moved : Option ReplayWindow → ℕ → Option ReplayWindow
moved none counter = none
moved (some w) counter = some (check w counter).0

after_open-window :
    (w : Option ReplayWindow) (d : FrameDecoder) (info : HeaderInfo) (p : List ℕ)
    → d.window ≡ w
    → after_open d info (ok p) ≡ (
      record d { window = moved w info.counter },
      if passes w info.counter then ok (some (frame_of info p)) else err replayed,
    )
unfolding after_open
after_open-window w d info p e = ground arith

counter-lt : (enc : FrameEncoder) → (Counter.next enc.counters).1 < 2 ^ 64
unfolding Counter.next
counter-lt enc = omega arith

module _ (enc : FrameEncoder) (laws : IsAead enc.cipher.aead) where
  -- What `encode` makes of a payload within the limits is taken from the buffer by a decoder that holds
  -- the same cipher, has an empty buffer and at least the encoder's limit: type, flags, session id,
  -- counter, additional data and payload come back, unless the decoder's replay window refuses the
  -- counter, which it answers with `replayed`. The window moves by that counter, and exactly the bytes
  -- behind the frame stay in the buffer.
  pub next_frame-encode :
      (d : FrameDecoder) (t : FrameType) (flags sid : ℕ) (payload wire more : List ℕ)
      → flags < 2 ^ 16
      → sid < 2 ^ 32
      → d.raw ≡ false
      → d.cipher ≡ some enc.cipher
      → d.buf ≡ []
      → enc.limit ≤ d.limit
      → enc.limit + 16 < 2 ^ 32
      → (encode enc t flags sid payload).1 ≡ ok wire
      → next_frame (feed d (wire ++ more)) ≡ (
        record d { buf = more; window = moved d.window (Counter.next enc.counters).1 },
        if passes d.window (Counter.next enc.counters).1
            then ok (some (frame_for enc t flags sid payload))
            else err replayed,
      )
  unfolding feed unseal decrypt
  next_frame-encode d t flags sid payload wire more hf hs hr hc hb hl fits e =
      let w = encode-IsWire enc t flags sid payload wire e in
      let counter = (Counter.next enc.counters).1 in
      let header = header_for enc t flags sid payload in
      let n = length payload + 16 in
      let (text_length, tag_length) =
        length-seal_slice enc.cipher laws counter (take 12 header) payload w.text w.tag w.sealed in
      let len : length (w.text ++ w.tag) ≡ n =
        omega (arith, length-append w.text w.tag, text_length, tag_length) in
      let buffer : d.buf ++ (wire ++ more) ≡ header ++ ((w.text ++ w.tag) ++ more) =
        rw (hb, w.bytes) (append_assoc header (w.text ++ w.tag) more) in
      next_frame-whole (feed d (wire ++ more)) t flags sid counter n (w.text ++ w.tag) more hf hs
        (omega (arith, w.fits)) (counter-lt enc) len (omega arith) (omega (arith, w.fits)) buffer
      ∙ ground (
        arith,
        after_open-window d.window (record d { buf = more }) (header_of t flags sid n counter)
            payload refl,
        decipher-seal_slice enc.cipher laws counter (take 12 header) payload w.text w.tag w.sealed,
      )

  -- A raw decoder, such as the server's on the first frame, hands the frame out with its payload still
  -- sealed: the cipher opens it, under the frame's counter and additional data, to what was encoded.
  pub next_frame-encode_raw :
      (d : FrameDecoder) (t : FrameType) (flags sid : ℕ) (payload wire more : List ℕ)
      → flags < 2 ^ 16
      → sid < 2 ^ 32
      → d.raw ≡ true
      → d.buf ≡ []
      → length payload ≤ d.limit
      → enc.limit + 16 < 2 ^ 32
      → (encode enc t flags sid payload).1 ≡ ok wire
      → (ct : List ℕ) × (next_frame (feed d (wire ++ more)) ≡ (
        record d { buf = more },
        ok (some (record (frame_for enc t flags sid payload) { payload = ct })),
      ))
        × (decipher enc.cipher
              (Counter.next enc.counters).1
              (take 12 (header_for enc t flags sid payload))
              ct
            ≡ ok payload)
  unfolding feed unseal
  next_frame-encode_raw d t flags sid payload wire more hf hs hr hb room fits e =
      let w = encode-IsWire enc t flags sid payload wire e in
      let counter = (Counter.next enc.counters).1 in
      let header = header_for enc t flags sid payload in
      let (text_length, tag_length) =
        length-seal_slice enc.cipher laws counter (take 12 header) payload w.text w.tag w.sealed in
      let len : length (w.text ++ w.tag) ≡ length payload + 16 =
        omega (arith, length-append w.text w.tag, text_length, tag_length) in
      let buffer : d.buf ++ (wire ++ more) ≡ header ++ ((w.text ++ w.tag) ++ more) =
        rw (hb, w.bytes) (append_assoc header (w.text ++ w.tag) more) in
      (
        w.text ++ w.tag,
        next_frame-whole (feed d (wire ++ more)) t flags sid counter (length payload + 16)
              (w.text ++ w.tag) more hf hs (omega (arith, w.fits)) (counter-lt enc) len
              (omega arith) (omega (arith, room)) buffer
            ∙ ground (arith, hr),
        decipher-seal_slice enc.cipher laws counter (take 12 header) payload w.text w.tag w.sealed,
      )
