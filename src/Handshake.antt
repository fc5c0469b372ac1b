-- ===== src/Handshake.antt =====
-- The AUTH handshake of a WebTransport connection, both sides: `WtConn::connect` of src/client/wt.rs and
-- the first half of `handle_wt_conn` in src/server/wt.rs. `derive` is the session key of a static key
-- and a salt (HKDF, a crate's); the random salt, nonce and padding are arguments.
use newppp.Prelude.{
  ℕ, ◌≡◌, Bool, true, false, if◌then◌else◌, ltb, List, [], ◌∷◌, ◌++◌, Option, none, some, take,
  length,
}
use newppp.Prelude.Bytes.{to_le, from_le}
use newppp.Proto.Error.{Result, ok, err}
use newppp.Proto.Counter.{stream, stream_server}
use newppp.Proto.Cipher.{Aead, FrameCipher}
use newppp.Proto.Cipher
use newppp.Proto.Frame.{Frame, max_plaintext, negotiate, proto_version}
use newppp.Proto.Frame
use newppp.Proto.Codec.{FrameEncoder, FrameDecoder, encode, decoder, next_frame}
use newppp.Proto.Auth.{AuthPayload, auth_mac}
use newppp.Proto.Auth
use newppp.Server.State.Nonce.{Seen}
use newppp.Server.Login.{Users, AuthOutcome, accepted, version_mismatch, rejected, auth_from_frame}
pub mod Limits
pub mod Hello
mod Examples

module _ (hmac : List ℕ → List ℕ → List ℕ) where
  -- The payload that the client builds.
  unfoldable pub auth_payload : List ℕ → List ℕ → List ℕ → List ℕ → ℕ → ℕ → AuthPayload
  auth_payload key uid salt nonce ts limit = record {
    proto_version = proto_version;
    salt = salt;
    ts = ts;
    nonce = nonce;
    uid = uid;
    mac = auth_mac hmac key uid ts nonce;
    max_plaintext = limit;
  }

-- The writer of the control stream, before and after the switch to the session cipher.
abbrev pub client_encoder : (List ℕ → Aead) → List ℕ → ℕ → FrameEncoder
client_encoder chacha key limit = record {
  cipher = Cipher.new chacha key;
  counters = stream;
  limit = limit;
}

unfoldable pub client_auth : FrameEncoder → AuthPayload → List ℕ → FrameEncoder × Result (List ℕ)
client_auth enc a pad = encode enc Frame.auth 0 0 (Auth.encode a ++ pad)

-- The server's first reader: no cipher yet, and `raw`.
abbrev pub first_decoder : FrameDecoder
first_decoder = record (decoder none none max_plaintext) { raw = true }

-- What the connection goes on with: the user, the session key, the negotiated limit, and the bytes of
-- the AUTH_OK frame.
pub record Session : Type 0 where
  pub uid : List ℕ
  pub session_key : List ℕ
  pub limit : ℕ
  pub reply : Result (List ℕ)

module _ (derive : List ℕ → List ℕ → List ℕ) (chacha : List ℕ → Aead) where
  abbrev pub server_encoder : List ℕ → ℕ → FrameEncoder
  server_encoder key limit = record {
    cipher = Cipher.new chacha key;
    counters = stream_server;
    limit = limit;
  }

  -- After the outcome: silence, or the reply. `own` is the server's own limit.
  unfoldable pub after_auth : ℕ → AuthOutcome → Option Session
  after_auth own rejected = none
  after_auth own (version_mismatch client server) = none
  after_auth own (accepted uid key a) =
      let limit = negotiate a.max_plaintext own in
      let session_key = derive key a.salt in
      some (record {
        uid = uid;
        session_key = session_key;
        limit = limit;
        reply = (encode (server_encoder session_key limit) Frame.auth_ok 0 0 (to_le 4 limit)).1;
      })

  module _ (print : ℕ → List ℕ) (hmac : List ℕ → List ℕ → List ℕ) (utf8 : List ℕ → Bool) where
    auth_by_type : ℕ → ℕ → Users → Seen → ℕ → Frame → Frame.FrameType → Seen × Option Session
    unfolding after_auth
    auth_by_type now later us seen own f Frame.auth =
        let (seen', outcome) = auth_from_frame print hmac chacha utf8 now later us seen f in
        (seen', after_auth own outcome)
    auth_by_type now later us seen own f _ = (seen, none)

    -- What the first read of the control stream answered.
    unfoldable pub handle_auth :
        ℕ → ℕ → Users → Seen → ℕ → Result (Option Frame) → Seen × Option Session
    unfolding auth_by_type
    handle_auth now later us seen own (ok (some f)) = auth_by_type now later us seen own f f.ftype
    handle_auth now later us seen own _ = (seen, none)

adopt : ℕ → Frame → Frame.FrameType → Option ℕ
adopt own f Frame.auth_ok =
    if ltb (length f.payload) 4 then none else some (negotiate (from_le (take 4 f.payload)) own)
adopt own f _ = none

-- The client's limit after the reply, or `none` where it gives up. `own` is what it advertised.
unfoldable pub adopt_limit : ℕ → Result (Option Frame) → Option ℕ
unfolding adopt
adopt_limit own (ok (some f)) = adopt own f f.ftype
adopt_limit own _ = none
