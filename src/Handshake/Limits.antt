-- ===== src/Handshake/Limits.antt =====
-- src/client/wt.rs and src/server/wt.rs: the frame limit that each side takes from the handshake.
use newppp.Prelude.{
  ℕ, ◌+◌, ◌^◌, ◌≤◌, ◌<◌, ◌≡◌, refl, ap, List, [], ◌++◌, none, some, take, arith, append-nil,
}
use newppp.Prelude.Bytes.{to_le, from_le-to_le, length-to_le}
use newppp.Proto.Error.{ok}
use newppp.Proto.Cipher.{Aead, IsAead, FrameCipher}
use newppp.Proto.Cipher
use newppp.Proto.Frame.{Frame, max_plaintext, max_plaintext_cap, negotiate}
use newppp.Proto.Frame
use newppp.Proto.Codec.{FrameDecoder, encode, decoder, next_frame, feed}
use newppp.Proto.Codec.RoundTrip.{next_frame-encode, frame_for}
use newppp.Proto.Auth.{AuthPayload}
use newppp.Server.Login.{accepted}
use newppp.Handshake.{Session, server_encoder, after_auth, adopt, adopt_limit}

-- A limit that the command line lets through.
abbrev pub IsLimit : ℕ → Type 0
IsLimit n = (max_plaintext ≤ n) × (n ≤ max_plaintext_cap)

renegotiate :
    (own theirs : ℕ)
    → IsLimit own
    → IsLimit theirs
    → negotiate (negotiate own theirs) own ≡ negotiate own theirs
unfolding negotiate
renegotiate own theirs h k = omega arith

negotiate_below :
    (own theirs : ℕ)
    → IsLimit own
    → (negotiate own theirs ≤ own) × (negotiate own theirs + 16 < 2 ^ 32)
unfolding negotiate
negotiate_below own theirs h = omega arith

take-to_le : (n : ℕ) → take 4 (to_le 4 n) ≡ to_le 4 n
unfolding to_le
take-to_le n = refl

adopt-frame :
    (own theirs n : ℕ) (f : Frame)
    → IsLimit own
    → IsLimit theirs
    → negotiate own theirs ≡ n
    → f.payload ≡ to_le 4 n
    → adopt own f Frame.auth_ok ≡ some n
unfolding adopt
adopt-frame own theirs n f ho ht e p =
    let small : n < 2 ^ 32 = omega (arith, e, negotiate_below own theirs ho) in
    rw (p, take-to_le n, from_le-to_le 4 n small, length-to_le 4 n, ← e)
      (ap some (renegotiate own theirs ho ht))

module _ (derive : List ℕ → List ℕ → List ℕ) (chacha : List ℕ → Aead) where
  -- Once the server has accepted a client's AUTH payload, the AUTH_OK frame that it sends is decoded by
  -- the client under the session key, and the client's limit is then the server's. Both advertised a
  -- limit between the floor and the cap.
  pub adopt_limit-after_auth :
      (uid key : List ℕ) (a : AuthPayload) (own : ℕ) (s : Session) (wire : List ℕ)
      → IsAead (chacha s.session_key)
      → IsLimit a.max_plaintext
      → IsLimit own
      → after_auth derive chacha own (accepted uid key a) ≡ some s
      → s.reply ≡ ok wire
      → adopt_limit a.max_plaintext
          (next_frame (
            feed
              (decoder (some (Cipher.new chacha (derive key a.salt))) none a.max_plaintext)
              wire)).1
        ≡ some s.limit
  unfolding after_auth adopt_limit adopt decoder Cipher.new
  adopt_limit-after_auth uid key a own s wire laws ha ho e sent =
      let n = negotiate a.max_plaintext own in
      let enc = server_encoder derive chacha s.session_key s.limit in
      let lim : n ≡ s.limit = ground arith in
      let secret : derive key a.salt ≡ s.session_key = ground arith in
      let bytes : (encode enc Frame.auth_ok 0 0 (to_le 4 s.limit)).1 ≡ ok wire = ground arith in
      let d : FrameDecoder =
        decoder (some (Cipher.new chacha s.session_key)) none a.max_plaintext in
      let bounds : (s.limit ≤ a.max_plaintext) × (s.limit + 16 < 2 ^ 32) =
        omega (arith, lim, negotiate_below a.max_plaintext own ha) in
      let read =
        next_frame-encode enc laws d Frame.auth_ok 0 0 (to_le 4 s.limit) wire [] (omega arith)
          (omega arith) refl refl refl bounds.0 bounds.1 bytes in
      let answer : (next_frame (feed d (wire ++ []))).1
          ≡ ok (some (frame_for enc Frame.auth_ok 0 0 (to_le 4 s.limit))) =
        rw read in
      let reads : (next_frame (feed d wire)).1
          ≡ ok (some (frame_for enc Frame.auth_ok 0 0 (to_le 4 s.limit))) =
        rw (append-nil wire) at answer in
      rw (secret, reads)
        (adopt-frame a.max_plaintext own s.limit (frame_for enc Frame.auth_ok 0 0 (to_le 4 s.limit))
          ha ho lim refl)
