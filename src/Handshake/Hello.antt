-- ===== src/Handshake/Hello.antt =====
-- src/client/wt.rs, src/server/wt.rs and src/server/mod.rs: the client's AUTH frame at the server.
use newppp.Prelude.{
  false, ℕ, ◌+◌, ◌^◌, ◌≤◌, ◌<◌, ◌≡◌, ◌%◌, refl, ap, Bool, true, List, [], ◌∷◌, ◌++◌, Option, some,
  length, length-append, append-nil, bytes_eq_refl, arith, All,
}
use newppp.Prelude.Bytes.{to_le, length-to_le}
use newppp.Proto.Error.{Result, ok}
use newppp.Proto.Cipher.{Aead, IsAead, decipher}
use newppp.Proto.Cipher
use newppp.Proto.Frame.{Frame, max_plaintext}
use newppp.Proto.Frame
use newppp.Proto.Codec.{FrameDecoder, decoder, next_frame, feed}
use newppp.Proto.Codec.RoundTrip.{next_frame-encode_raw, frame_for}
use newppp.Proto.Auth.{AuthPayload, auth_window, auth_mac, verify, decode, proto_version_compatible}
use newppp.Proto.Auth
use newppp.Proto.Auth.RoundTrip.{IsWire, decode-encode_padded}
use newppp.Proto.Auth.Verify.{verify_iff}
use newppp.Server.State.Nonce.{Seen, contains_key, nonce_key, check_and_remember_nonce}
use newppp.Server.Login.Accepted.{new_nonce-remembered}
use newppp.Server.Login.{Users, accepted, opens_to}
use newppp.Server.Login.Own.{Shut, auth_from_frame-skip, auth_from_frame-own}
use newppp.Handshake.{
  auth_payload, client_encoder, client_auth, first_decoder, after_auth, auth_by_type, handle_auth,
}

length-encode_auth :
    (utf8 : List ℕ → Bool) (a : AuthPayload)
    → IsWire utf8 a
    → length (Auth.encode a) ≡ 78 + length a.uid
unfolding Auth.encode
length-encode_auth utf8 a w = omega (
  arith,
  w.salt_width,
  w.nonce_width,
  w.mac_width,
  length-append a.salt (
      to_le 8 a.ts
      ++ (a.nonce ++ ((length a.uid % 256) ∷ (a.uid ++ (a.mac ++ to_le 4 a.max_plaintext))))),
  length-append (to_le 8 a.ts)
      (a.nonce ++ ((length a.uid % 256) ∷ (a.uid ++ (a.mac ++ to_le 4 a.max_plaintext)))),
  length-append a.nonce ((length a.uid % 256) ∷ (a.uid ++ (a.mac ++ to_le 4 a.max_plaintext))),
  length-append a.uid (a.mac ++ to_le 4 a.max_plaintext),
  length-append a.mac (to_le 4 a.max_plaintext),
  length-to_le 8 a.ts,
  length-to_le 4 a.max_plaintext,
)

module _ (derive : List ℕ → List ℕ → List ℕ) (chacha : List ℕ → Aead) (print : ℕ → List ℕ)
    (hmac : List ℕ → List ℕ → List ℕ) (utf8 : List ℕ → Bool) where
  verify_own :
      (now : ℕ) (key uid salt nonce : List ℕ) (ts limit : ℕ)
      → length (auth_mac hmac key uid ts nonce) ≡ 32
      → now ≤ ts + auth_window
      → ts ≤ now + auth_window
      → verify hmac now (auth_payload hmac key uid salt nonce ts limit) key auth_window ≡ true
  unfolding auth_payload
  verify_own now key uid salt nonce ts limit l early late =
      (verify_iff hmac now (auth_payload hmac key uid salt nonce ts limit) key auth_window refl).1
        (early, late, refl)

  version_own :
      (key uid salt nonce : List ℕ) (ts limit : ℕ)
      → proto_version_compatible (auth_payload hmac key uid salt nonce ts limit) ≡ true
  unfolding auth_payload proto_version_compatible
  version_own key uid salt nonce ts limit = refl

  -- The AUTH frame that a client with a configured uid and key writes gets it in: the server reads the
  -- frame, opens it under this user's key, remembers the nonce and goes on with the session of this user
  -- and payload. The fields have their widths, the padding is at most 511 bytes, the clocks differ by at
  -- most a minute, the nonce is not in the cache, which has room, and the keys that the server tries before
  -- do not open the frame.
  pub handle_auth-client_auth :
      (now later : ℕ) (front back : Users) (seen : Seen) (own : ℕ) (uid key salt nonce : List ℕ)
      (ts limit : ℕ) (pad wire : List ℕ)
      → IsAead (chacha key)
      → IsWire utf8 (auth_payload hmac key uid salt nonce ts limit)
      → length pad ≤ 511
      → limit + 16 < 2 ^ 32
      → now ≤ ts + auth_window
      → ts ≤ now + auth_window
      → (client_auth
          (client_encoder chacha key limit)
          (auth_payload hmac key uid salt nonce ts limit)
          pad).1
        ≡ ok wire
      → ((f : Frame)
          → (next_frame (feed first_decoder wire)).1 ≡ ok (some f)
          → All (Shut print hmac chacha utf8 f) front)
      → contains_key (nonce_key print uid nonce ts) seen ≡ false
      → length seen < 50000
      → handle_auth derive chacha print hmac utf8 now later
          (front ++ ((uid, key) ∷ back))
          seen
          own
          (next_frame (feed first_decoder wire)).1
        ≡ (
          (check_and_remember_nonce print later seen uid nonce ts).0,
          after_auth derive chacha own
              (accepted uid key (auth_payload hmac key uid salt nonce ts limit)),
        )
  unfolding client_auth handle_auth auth_by_type decoder Cipher.new auth_payload
  handle_auth-client_auth now later front back seen own uid key salt nonce ts limit pad wire laws w
        short small early late sent shut unseen below_cap =
      let a = auth_payload hmac key uid salt nonce ts limit in
      let enc = client_encoder chacha key limit in
      let room : length (Auth.encode a ++ pad) ≤ max_plaintext = omega (
        arith,
        short,
        w.uid_width,
        length-encode_auth utf8 a w,
        length-append (Auth.encode a) pad,
      ) in
      let (ct, read, opens) =
        next_frame-encode_raw enc laws first_decoder Frame.auth 0 0 (Auth.encode a ++ pad) wire []
          (omega arith) (omega arith) refl refl room small sent in
      let sealed : Frame = record (frame_for enc Frame.auth 0 0 (Auth.encode a ++ pad)) {
        payload = ct;
      } in
      let answer : (next_frame (feed first_decoder wire)).1 ≡ ok (some sealed) =
        rw (append-nil wire) at (ap (λ (x : FrameDecoder × Result (Option Frame)). x.1) read) in
      let fresh = new_nonce-remembered print later seen uid nonce ts unseen below_cap in
      let own_key : opens_to print hmac chacha utf8 key sealed ≡ ok a =
        rw opens (decode-encode_padded utf8 a pad w) in
      let turn =
        auth_from_frame-own print hmac chacha utf8 now later uid key back seen sealed a own_key
          (bytes_eq_refl uid) (version_own key uid salt nonce ts limit)
          (verify_own now key uid salt nonce ts limit w.mac_width early late) fresh in
      let others : All (Shut print hmac chacha utf8 sealed) front = shut sealed answer in
      let login =
        auth_from_frame-skip print hmac chacha utf8 now later front ((uid, key) ∷ back) seen sealed
          others in
      rw (answer, login, turn) refl
