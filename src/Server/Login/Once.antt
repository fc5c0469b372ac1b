-- ===== src/Server/Login/Once.antt =====
-- src/server/mod.rs and src/server/state.rs: an authentication that was accepted, seen from later ones.
use newppp.Prelude.{ℕ, ◌+◌, ◌≤◌, ◌<◌, ◌≡◌, ◌≢◌, Bool, true, false, List, All, arith}
use newppp.Proto.Cipher.{Aead}
use newppp.Proto.Frame.{Frame}
use newppp.Proto.Auth.{AuthPayload, auth_window, verify}
use newppp.Server.State.Nonce.{Seen, check_and_remember_nonce}
use newppp.Server.State.Nonce.Replay.{Call, after_calls, no_replay}
use newppp.Server.Login.{Users, accepted, auth_from_frame}
use newppp.Server.Login.Accepted.{auth_from_frame-Checked}

module _ (print : ℕ → List ℕ) (hmac : List ℕ → List ℕ → List ℕ) (chacha : List ℕ → Aead)
    (utf8 : List ℕ → Bool) where
  verify-within :
      (now : ℕ) (a : AuthPayload) (key : List ℕ)
      → verify hmac now a key auth_window ≡ true
      → now ≤ a.ts + auth_window
  unfolding verify
  verify-within now a key e = ground arith

  -- After a frame was accepted, no frame is accepted with the same uid, nonce and time stamp (above 0),
  -- whichever key it is sealed with: not later, and not after any other authentications, by frame or by
  -- bearer token, have gone to the same cache. The clocks do not run backwards, and the two readings of
  -- one call are less than a minute apart.
  pub auth_from_frame_once :
      (now later : ℕ) (us : Users) (seen : Seen) (f : Frame) (uid key : List ℕ) (a : AuthPayload)
      (cs : List Call) (now' later' : ℕ) (f' : Frame) (key' : List ℕ) (a' : AuthPayload)
      → (auth_from_frame print hmac chacha utf8 now later us seen f).1 ≡ accepted uid key a
      → 0 < a.ts
      → All (λ (c : Call). c.now ≤ later') cs
      → later' < now' + auth_window
      → a'.nonce ≡ a.nonce
      → a'.ts ≡ a.ts
      → (auth_from_frame print hmac chacha utf8 now' later' us
          (after_calls print (auth_from_frame print hmac chacha utf8 now later us seen f).0 cs)
          f').1
        ≢ accepted uid key' a'
  auth_from_frame_once now later us seen f uid key a cs now' later' f' key' a' e positive before
        close same_nonce same_ts again =
      let first =
        (auth_from_frame-Checked print hmac chacha utf8 now later us seen f uid key a e).1 in
      let cache =
        after_calls print (auth_from_frame print hmac chacha utf8 now later us seen f).0 cs in
      let second =
        (auth_from_frame-Checked print hmac chacha utf8 now' later' us cache f' uid key' a'
          again).1 in
      let c : Call = record { now = later; uid = uid; nonce = a.nonce; ts = a.ts } in
      let refused =
        no_replay print seen c cs later' first.answered before positive
          (omega (arith, verify-within now' a' key' second.verified, same_ts)) in
      let here : (check_and_remember_nonce print later' cache uid a.nonce a.ts).1 ≡ true =
        rw (← same_nonce, ← same_ts) second.answered in
      let there : (check_and_remember_nonce print later' cache uid a.nonce a.ts).1 ≡ false =
        rw first.leaves refused in
      cc
