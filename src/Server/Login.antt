-- ===== src/Server/Login.antt =====
-- src/server/mod.rs: how the server authenticates a peer, `bearer_user` and `auth_from_frame`. The
-- users and their static keys are a list, in the order in which the hash map happens to iterate. The
-- crates are parameters: `chacha` is the AEAD of a key, `hmac` the MAC, `utf8` the test for UTF-8. The
-- clock is read twice: by the check of the time stamp, and by the nonce cache.
use newppp.Prelude.{
  ℕ, ◌≡◌, Bool, true, false, not, if◌then◌else◌, List, [], ◌∷◌, ◌++◌, Option, none, some, bytes_eq,
  take, drop, length,
}
use newppp.Proto.Error.{Result, ok, err, ◌>>=◌}
use newppp.Proto.Cipher.{Aead, decipher}
use newppp.Proto.Cipher
use newppp.Proto.Frame.{Frame, proto_version}
use newppp.Proto.Auth.{AuthPayload, auth_window, proto_version_compatible, verify, decode}
use newppp.Proto.Auth.Bearer.{Decimal, bearer_uid, verify_bearer_parts}
use newppp.Server.State.Nonce.{Seen, check_and_remember_nonce}
pub mod Accepted
pub mod Own
pub mod Once

abbrev pub Users : Type 0
Users = List (List ℕ × List ℕ)

-- `static_keys.get(uid)`.
unfoldable pub key_of : List ℕ → Users → Option (List ℕ)
key_of uid [] = none
key_of uid ((u, key) ∷ us) = if bytes_eq u uid then some key else key_of uid us

pub data AuthOutcome : Type 0 where
  accepted : List ℕ → List ℕ → AuthPayload → AuthOutcome
  version_mismatch : ℕ → ℕ → AuthOutcome
  rejected : AuthOutcome

-- `strip_prefix("Bearer ")`, or else `"bearer "`.
unfoldable pub bearer_token : List ℕ → Option (List ℕ)
bearer_token h =
    if bytes_eq (take 7 h) (b'B' ∷ b'e' ∷ b'a' ∷ b'r' ∷ b'e' ∷ b'r' ∷ b' ' ∷ [])
    then some (drop 7 h)
    else if bytes_eq (take 7 h) (b'b' ∷ b'e' ∷ b'a' ∷ b'r' ∷ b'e' ∷ b'r' ∷ b' ' ∷ [])
    then some (drop 7 h)
    else none

module _ (print : ℕ → List ℕ) (hmac : List ℕ → List ℕ → List ℕ) where
  -- The nonce is remembered, and a repeated one is refused.
  once {ℓ} : {A : Type ℓ} → ℕ → Seen → List ℕ → List ℕ → ℕ → A → A → Seen × A
  once later seen uid nonce ts yes_answer no_answer =
      let (seen', fresh) = check_and_remember_nonce print later seen uid nonce ts in
      (seen', if fresh then yes_answer else no_answer)

  module _ (chacha : List ℕ → Aead) (utf8 : List ℕ → Bool) where
    -- One turn of the loop of `auth_from_frame`: what the frame opens to under the user's key, and the
    -- outcome of the turns that follow.
    try_user :
        ℕ
        → ℕ
        → List ℕ
        → List ℕ
        → Seen
        → Result AuthPayload
        → Seen × AuthOutcome
        → Seen × AuthOutcome
    unfolding once
    try_user now later uid key seen (err e) rest = rest
    try_user now later uid key seen (ok ap) rest =
        if not (bytes_eq ap.uid uid)
        then rest
        else if not (proto_version_compatible ap)
        then (seen, version_mismatch ap.proto_version proto_version)
        else if not (verify hmac now ap key auth_window)
        then rest
        else once later seen uid ap.nonce ap.ts (accepted uid key ap) rejected

    -- What a frame holds under a key.
    abbrev pub opens_to : List ℕ → Frame → Result AuthPayload
    opens_to key f = decipher (Cipher.new chacha key) f.counter f.aad f.payload >>= decode utf8

    unfoldable pub auth_from_frame : ℕ → ℕ → Users → Seen → Frame → Seen × AuthOutcome
    unfolding try_user
    auth_from_frame now later [] seen f = (seen, rejected)
    auth_from_frame now later ((uid, key) ∷ us) seen f =
        let rest = auth_from_frame now later us seen f in
        try_user now later uid key seen (opens_to key f) rest

  module _ (d : Decimal) where
    bearer_parts :
        ℕ → Seen → List ℕ → List ℕ → Option (ℕ × List ℕ) → Seen × Option (List ℕ × List ℕ)
    unfolding once
    bearer_parts later seen uid key none = (seen, none)
    bearer_parts later seen uid key (some (ts, nonce)) =
        once later seen uid nonce ts (some (uid, key)) none

    bearer_key : ℕ → ℕ → Seen → List ℕ → List ℕ → Option (List ℕ) → Seen × Option (List ℕ × List ℕ)
    unfolding bearer_parts
    bearer_key now later seen token uid none = (seen, none)
    bearer_key now later seen token uid (some key) =
        bearer_parts later seen uid key (verify_bearer_parts d hmac now token key uid auth_window)

    bearer_named : ℕ → ℕ → Users → Seen → List ℕ → Option (List ℕ) → Seen × Option (List ℕ × List ℕ)
    unfolding bearer_key
    bearer_named now later users seen token none = (seen, none)
    bearer_named now later users seen token (some uid) =
        bearer_key now later seen token uid (key_of uid users)

    bearer_header : ℕ → ℕ → Users → Seen → Option (List ℕ) → Seen × Option (List ℕ × List ℕ)
    unfolding bearer_named
    bearer_header now later users seen none = (seen, none)
    bearer_header now later users seen (some token) =
        bearer_named now later users seen token (bearer_uid token)

    -- The header's value, if there is one.
    unfoldable pub bearer_user :
        ℕ → ℕ → Users → Seen → Option (List ℕ) → Seen × Option (List ℕ × List ℕ)
    unfolding bearer_header
    bearer_user now later users seen none = (seen, none)
    bearer_user now later users seen (some h) = bearer_header now later users seen (bearer_token h)
