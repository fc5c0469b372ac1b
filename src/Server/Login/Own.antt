-- ===== src/Server/Login/Own.antt =====
-- src/server/mod.rs: `auth_from_frame` on a frame that one of the users sealed.
use newppp.Prelude.{ℕ, ◌≡◌, refl, Bool, true, List, [], ◌∷◌, ◌++◌, bytes_eq, All}
use newppp.Proto.Error.{Error, ok, err}
use newppp.Proto.Cipher.{Aead}
use newppp.Proto.Frame.{Frame}
use newppp.Proto.Auth.{AuthPayload, auth_window, verify, proto_version_compatible}
use newppp.Server.State.Nonce.{Seen, check_and_remember_nonce}
use newppp.Server.Login.{Users, accepted, once, try_user, opens_to, auth_from_frame}

module _ (print : ℕ → List ℕ) (hmac : List ℕ → List ℕ → List ℕ) (chacha : List ℕ → Aead)
    (utf8 : List ℕ → Bool) where
  -- The key opens nothing in the frame.
  abbrev pub Shut : Frame → List ℕ × List ℕ → Type 0
  Shut f user = (x : Error) × (opens_to print hmac chacha utf8 user.1 f ≡ err x)

  -- The turns before the client's own.
  pub auth_from_frame-skip :
      (now later : ℕ) (front us : Users) (seen : Seen) (f : Frame)
      → All (Shut f) front
      → auth_from_frame print hmac chacha utf8 now later (front ++ us) seen f
        ≡ auth_from_frame print hmac chacha utf8 now later us seen f
  unfolding auth_from_frame try_user
  auth_from_frame-skip now later [] us seen f h = refl
  auth_from_frame-skip now later ((u, k) ∷ front) us seen f h =
      rw h.0.1 (auth_from_frame-skip now later front us seen f h.1)

  pub auth_from_frame-own :
      (now later : ℕ) (uid key : List ℕ) (us : Users) (seen : Seen) (f : Frame) (a : AuthPayload)
      → opens_to print hmac chacha utf8 key f ≡ ok a
      → bytes_eq a.uid uid ≡ true
      → proto_version_compatible a ≡ true
      → verify hmac now a key auth_window ≡ true
      → (check_and_remember_nonce print later seen uid a.nonce a.ts).1 ≡ true
      → auth_from_frame print hmac chacha utf8 now later ((uid, key) ∷ us) seen f
        ≡ ((check_and_remember_nonce print later seen uid a.nonce a.ts).0, accepted uid key a)
  unfolding auth_from_frame try_user once
  auth_from_frame-own now later uid key us seen f a o n v g fresh = rw (o, n, v, g, fresh) refl
