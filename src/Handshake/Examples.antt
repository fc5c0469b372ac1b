-- ===== src/Handshake/Examples.antt =====
-- A handshake between a client and a server, with the samples in place of the cryptography.
use newppp.Prelude.{
  All, ℕ, ◌+◌, ◌≡◌, ◌≢◌, refl, Bool, true, List, [], ◌∷◌, ◌++◌, Option, none, some, arith,
}
use newppp.Prelude.Bytes.{to_le, from_le, to_be}
use newppp.Proto.Error.{Result, ok, err, open_failed}
use newppp.Proto.Hex.{hex}
use newppp.Proto.Counter.{stream, stream_server}
use newppp.Proto.Counter
use newppp.Proto.Cipher.{Aead, IsAead, nonce_for, seal_slice, decipher, open_with}
use newppp.Proto.Cipher
use newppp.Proto.Cipher.Sample.{sample, sample-IsAead}
use newppp.Proto.Frame.{Frame, build_header, parse_header, from_u8, to_u8, negotiate, max_plaintext}
use newppp.Proto.Frame
use newppp.Proto.Codec.{encode, encode_into, decoder, next_frame, feed}
use newppp.Proto.Auth.{
  AuthPayload, auth_window, auth_mac, verify, decode, difference, proto_version_compatible,
}
use newppp.Proto.Auth
use newppp.Proto.Auth.RoundTrip.{IsWire}
use newppp.Server.State.Nonce.{Seen, contains_key, retain, check_and_remember_nonce}
use newppp.Server.State.Nonce.Replay.{Call, after_calls}
use newppp.Server.Login.{Users, accepted, rejected, version_mismatch, opens_to, auth_from_frame}
use newppp.Server.Login.Accepted.{Listed, Checked, auth_from_frame-Checked}
use newppp.Server.Login.Once.{auth_from_frame_once}
use newppp.Server.Login.Own.{Shut}
use newppp.Handshake.{
  auth_payload, client_encoder, client_auth, first_decoder, Session, after_auth, handle_auth,
  adopt_limit,
}
use newppp.Handshake.Limits.{adopt_limit-after_auth}
use newppp.Handshake.Hello.{handle_auth-client_auth}

abbrev any_utf8 : List ℕ → Bool
any_utf8 b = true

abbrev sum : List ℕ → ℕ
sum [] = 0
sum (x ∷ xs) = x + sum xs

-- 32 bytes.
abbrev checksum : List ℕ → List ℕ → List ℕ
checksum key msg = to_le 32 (sum key + sum msg)

abbrev mute : Aead
mute = record { encrypt = λ nonce aad p. none; decrypt = λ nonce aad c t. none }

-- The empty key opens nothing.
abbrev chacha : List ℕ → Aead
chacha [] = mute
chacha (k ∷ ks) = sample

abbrev derive : List ℕ → List ℕ → List ℕ
derive key salt = key ++ salt

abbrev print : ℕ → List ℕ
print n = n ∷ []

abbrev key : List ℕ
key = 42 ∷ []

abbrev random : List ℕ
random = 0 ∷ 1 ∷ 2 ∷ 3 ∷ 4 ∷ 5 ∷ 6 ∷ 7 ∷ 8 ∷ 9 ∷ 10 ∷ 11 ∷ 12 ∷ 13 ∷ 14 ∷ 15 ∷ []

abbrev alice : List ℕ
alice = b'a' ∷ b'l' ∷ []

abbrev bob : List ℕ
bob = b'b' ∷ b'o' ∷ []

abbrev hello : AuthPayload
hello = auth_payload checksum key alice random random 1000 65536

hello-IsWire : IsWire any_utf8 hello
unfolding auth_payload auth_mac to_le
hello-IsWire = record {
  version_byte = omega arith;
  salt_width = refl;
  ts_width = omega arith;
  nonce_width = refl;
  uid_width = omega arith;
  uid_utf8 = refl;
  mac_width = refl;
  limit_width = omega arith;
}

abbrev bytes_or : Result (List ℕ) → List ℕ
bytes_or (ok b) = b
bytes_or (err e) = []

abbrev no_frame : Frame
no_frame = record { ftype = Frame.auth; flags = 0; sid = 0; counter = 0; aad = []; payload = [] }

abbrev frame_or : Result (Option Frame) → Frame
frame_or (ok (some f)) = f
frame_or _ = no_frame

abbrev pad : List ℕ
pad = 7 ∷ 7 ∷ []

abbrev wire : List ℕ
wire = bytes_or (client_auth (client_encoder chacha key 65536) hello pad).1

abbrev first_frame : Frame
first_frame = frame_or (next_frame (feed first_decoder wire)).1

wire_is_sent : (client_auth (client_encoder chacha key 65536) hello pad).1 ≡ ok wire
unfolding client_auth auth_payload auth_mac Auth.encode encode encode_into seal_slice nonce_for
    build_header to_u8 to_le to_be Counter.next stream Cipher.new
wire_is_sent = refl

first_frame_is_read : (next_frame (feed first_decoder wire)).1 ≡ ok (some first_frame)
unfolding client_auth auth_payload auth_mac Auth.encode encode encode_into seal_slice nonce_for
    build_header to_u8 to_le to_be Counter.next stream Cipher.new next_frame feed decoder
    parse_header from_u8 from_le
first_frame_is_read = refl

bob-Shut : Shut print checksum chacha any_utf8 first_frame (bob, [])
unfolding client_auth auth_payload auth_mac Auth.encode encode encode_into seal_slice nonce_for
    build_header to_u8 to_le to_be Counter.next stream Cipher.new next_frame feed decoder
    parse_header from_u8 from_le decipher open_with
bob-Shut = (open_failed, refl)

only_bob-Shut :
    (f : Frame)
    → (next_frame (feed first_decoder wire)).1 ≡ ok (some f)
    → All (Shut print checksum chacha any_utf8 f) ((bob, []) ∷ [])
only_bob-Shut f e =
    let same : first_frame ≡ f = cc (e, first_frame_is_read) in rw (← same) (bob-Shut, tt)

abbrev users : Users
users = (bob, []) ∷ (alice, key) ∷ []

handle_auth-client_auth_example :
    handle_auth derive chacha print checksum any_utf8 1010 1010 users [] 32768
      (next_frame (feed first_decoder wire)).1
    ≡ (
      (check_and_remember_nonce print 1010 [] alice random 1000).0,
      after_auth derive chacha 32768 (accepted alice key hello),
    )
unfolding contains_key
handle_auth-client_auth_example =
    handle_auth-client_auth derive chacha print checksum any_utf8 1010 1010 ((bob, []) ∷ []) [] []
      32768 alice key random random 1000 65536 pad wire sample-IsAead hello-IsWire (omega arith)
      (omega arith) (omega arith) (omega arith) wire_is_sent only_bob-Shut refl (omega arith)

alice_is_accepted :
    (auth_from_frame print checksum chacha any_utf8 1010 1010 users [] first_frame).1
    ≡ accepted alice key hello
unfolding client_auth auth_payload auth_mac Auth.encode encode encode_into seal_slice nonce_for
    build_header to_u8 to_le to_be Counter.next stream Cipher.new next_frame feed decoder
    parse_header from_u8 from_le decipher open_with auth_from_frame decode verify difference
    check_and_remember_nonce contains_key retain proto_version_compatible
alice_is_accepted = refl

abbrev cache : Seen
cache = (auth_from_frame print checksum chacha any_utf8 1010 1010 users [] first_frame).0

auth_from_frame-Checked_example :
    Listed alice key users
    × Checked print checksum chacha any_utf8 1010 1010 [] cache
        (opens_to print checksum chacha any_utf8 key first_frame)
        alice
        key
        hello
auth_from_frame-Checked_example =
    auth_from_frame-Checked print checksum chacha any_utf8 1010 1010 users [] first_frame alice key
      hello alice_is_accepted

abbrev between : Call
between = record { now = 1020; uid = bob; nonce = random; ts = 1015 }

auth_from_frame_once_example :
    (auth_from_frame print checksum chacha any_utf8 1030 1030 users
      (after_calls print cache (between ∷ []))
      first_frame).1
    ≢ accepted alice key hello
unfolding auth_payload
auth_from_frame_once_example =
    auth_from_frame_once print checksum chacha any_utf8 1010 1010 users [] first_frame alice key
      hello (between ∷ []) 1030 1030 first_frame key hello alice_is_accepted (omega arith)
      (omega arith, tt) (omega arith) refl refl

abbrev no_session : Session
no_session = record { uid = []; session_key = []; limit = 0; reply = ok [] }

abbrev session_or : Option Session → Session
session_or none = no_session
session_or (some s) = s

abbrev the_session : Session
the_session = session_or (after_auth derive chacha 32768 (accepted alice key hello))

session_is_open : after_auth derive chacha 32768 (accepted alice key hello) ≡ some the_session
unfolding after_auth
session_is_open = refl

reply_is_sent : the_session.reply ≡ ok (bytes_or the_session.reply)
unfolding after_auth auth_payload auth_mac negotiate encode encode_into seal_slice nonce_for
    build_header to_u8 to_le to_be Counter.next stream_server Cipher.new
reply_is_sent = refl

adopt_limit-after_auth_example :
    adopt_limit 65536
      (next_frame (
        feed
          (decoder (some (Cipher.new chacha (derive key random))) none 65536)
          (bytes_or the_session.reply))).1
    ≡ some the_session.limit
unfolding auth_payload after_auth
adopt_limit-after_auth_example =
    adopt_limit-after_auth derive chacha alice key hello 32768 the_session
      (bytes_or the_session.reply) sample-IsAead (omega arith, omega arith)
      (omega arith, omega arith) session_is_open reply_is_sent

-- A frame of another type, or none, starts no session.
silence :
    (handle_auth derive chacha print checksum any_utf8 1010 1010 users [] 32768 (ok none)).1 ≡ none
unfolding handle_auth
silence = refl

-- A client of another protocol version is told apart, and its nonce stays unused.
abbrev old_hello : AuthPayload
old_hello = record hello { proto_version = 1 }

abbrev old_frame : Frame
old_frame =
    frame_or
      (next_frame (
        feed first_decoder
          (bytes_or (client_auth (client_encoder chacha key 65536) old_hello pad).1))).1

version_skew :
    auth_from_frame print checksum chacha any_utf8 1010 1010 users [] old_frame
    ≡ ([], version_mismatch 1 2)
unfolding client_auth auth_payload auth_mac Auth.encode encode encode_into seal_slice nonce_for
    build_header to_u8 to_le to_be Counter.next stream Cipher.new next_frame feed decoder
    parse_header from_u8 from_le decipher open_with auth_from_frame decode verify difference
    check_and_remember_nonce contains_key retain proto_version_compatible
version_skew = refl

repeated_frame :
    (auth_from_frame print checksum chacha any_utf8 1011 1011 users cache first_frame).1 ≡ rejected
unfolding client_auth auth_payload auth_mac Auth.encode encode encode_into seal_slice nonce_for
    build_header to_u8 to_le to_be Counter.next stream Cipher.new next_frame feed decoder
    parse_header from_u8 from_le decipher open_with auth_from_frame decode verify difference
    check_and_remember_nonce contains_key retain proto_version_compatible hex
repeated_frame = refl
