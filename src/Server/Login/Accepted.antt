-- ===== src/Server/Login/Accepted.antt =====
-- src/server/mod.rs: what `auth_from_frame` has checked when it accepts, and what it leaves alone.
use newppp.Prelude.{
  ◌≤◌, ◌<◌, bytes_eq_refl, false, leb, length, ◌-◌, ◌*◌, ℕ, ◌≡◌, refl, sym, ap, ◌∙◌, Bool, true,
  List, [], ◌∷◌, bytes_eq, bytes_eq→eq, Bool-cases, inl, inr, ◌⊎◌, arith, ==→eq, ◌==◌,
}
use newppp.Proto.Error.{Result, ok, err}
use newppp.Proto.Cipher.{Aead}
use newppp.Proto.Frame.{Frame, proto_version}
use newppp.Proto.Auth.{AuthPayload, auth_window, proto_version_compatible, verify}
use newppp.Server.State.Nonce.{
  Seen, contains_key, retain, nonce_key, nonce_cap, check_and_remember_nonce,
}
use newppp.Server.Login.{Users, AuthOutcome, accepted, once, try_user, opens_to, auth_from_frame}

-- The user is one of the configured ones.
abbrev pub Listed : List ℕ → List ℕ → Users → Type 0
Listed uid key [] = ⊥
Listed uid key ((u, k) ∷ us) = ((u ≡ uid) × (k ≡ key)) ⊎ Listed uid key us

-- The cache has an entry under this key.
abbrev pub Has : List ℕ → Seen → Type 0
Has key [] = ⊥
Has key ((k, ts) ∷ seen) = (k ≡ key) ⊎ Has key seen

contains_key-Has : (key : List ℕ) (seen : Seen) → contains_key key seen ≡ false → ¬ Has key seen
unfolding contains_key
contains_key-Has key [] h p = p
contains_key-Has key ((k, ts) ∷ seen) h p = elim p [
  | inl same ↦
      let hit : bytes_eq k key ≡ true = rw same (bytes_eq_refl key) in
      absurd (ground (arith, h, hit))
  | inr later ↦ contains_key-Has key seen (ground (arith, h)) later
]

length-retain : (cutoff : ℕ) (seen : Seen) → length (retain cutoff seen) ≤ length seen
unfolding retain
length-retain cutoff [] = omega arith
length-retain cutoff ((k, ts) ∷ seen) = ground (arith, length-retain cutoff seen)

-- A nonce that the cache does not have is new, while the cache has room.
pub new_nonce-remembered :
    (print : ℕ → List ℕ) (later : ℕ) (seen : Seen) (uid nonce : List ℕ) (ts : ℕ)
    → contains_key (nonce_key print uid nonce ts) seen ≡ false
    → length seen < 50000
    → (check_and_remember_nonce print later seen uid nonce ts).1 ≡ true
unfolding check_and_remember_nonce
new_nonce-remembered print later seen uid nonce ts unseen room =
    ground (arith, unseen, length-retain (later - 2 * auth_window) seen)

remembered-Has :
    (print : ℕ → List ℕ) (later : ℕ) (seen : Seen) (uid nonce : List ℕ) (ts : ℕ)
    → (check_and_remember_nonce print later seen uid nonce ts).1 ≡ true
    → (¬ Has (nonce_key print uid nonce ts) seen)
      × Has
          (nonce_key print uid nonce ts)
          (check_and_remember_nonce print later seen uid nonce ts).0
unfolding check_and_remember_nonce
remembered-Has print later seen uid nonce ts e =
    let key = nonce_key print uid nonce ts in
    elim (Bool-cases (contains_key key seen)) [
      | inl known ↦ absurd (cc (rw known at e))
      | inr new_key ↦
          elim (Bool-cases (leb nonce_cap (length (retain (later - 2 * auth_window) seen)))) [
            | inl full ↦ absurd (cc (rw (new_key, full) at e))
            | inr room ↦ (contains_key-Has key seen new_key, rw (new_key, room) (inl refl))
          ]
    ]

module _ (print : ℕ → List ℕ) (hmac : List ℕ → List ℕ → List ℕ) (chacha : List ℕ → Aead)
    (utf8 : List ℕ → Bool) where
  -- All that has to hold of an accepted frame, and what then became of the cache.
  pub record Checked (now later : ℕ) (seen seen' : Seen) (r : Result AuthPayload) (uid key : List ℕ)
      (a : AuthPayload) : Type 0 where
    pub opens : r ≡ ok a
    pub named : a.uid ≡ uid
    pub version : a.proto_version ≡ proto_version
    pub verified : verify hmac now a key auth_window ≡ true
    pub answered : (check_and_remember_nonce print later seen uid a.nonce a.ts).1 ≡ true
    pub leaves : seen' ≡ (check_and_remember_nonce print later seen uid a.nonce a.ts).0
    pub fresh : ¬ Has (nonce_key print uid a.nonce a.ts) seen
    pub remembered : Has (nonce_key print uid a.nonce a.ts) seen'

  try_user-accepted :
      (now later : ℕ) (u k : List ℕ) (seen : Seen) (r : Result AuthPayload)
      (rest : Seen × AuthOutcome) (uid key : List ℕ) (a : AuthPayload)
      → (try_user print hmac chacha utf8 now later u k seen r rest).1 ≡ accepted uid key a
      → ((u ≡ uid)
          × (k ≡ key)
          × Checked now later seen
              (try_user print hmac chacha utf8 now later u k seen r rest).0
              r
              uid
              k
              a)
        ⊎ (try_user print hmac chacha utf8 now later u k seen r rest ≡ rest)
  unfolding try_user once proto_version_compatible
  try_user-accepted now later u k seen (err x) rest uid key a e = inr refl
  try_user-accepted now later u k seen (ok b) rest uid key a e =
      elim (Bool-cases (bytes_eq b.uid u)) [
        | inr other ↦ inr (rw other)
        | inl same ↦ elim (Bool-cases (b.proto_version == proto_version)) [
          | inr skew ↦ absurd (ground arith)
          | inl fits ↦ elim (Bool-cases (verify hmac now b k auth_window)) [
            | inr bad ↦ inr (rw (same, fits, bad))
            | inl good ↦
                elim (Bool-cases (check_and_remember_nonce print later seen u b.nonce b.ts).1) [
                  | inr repeated ↦ absurd (ground arith)
                  | inl new_nonce ↦
                      let who : accepted u k b ≡ accepted uid key a = ground arith in
                      let user : u ≡ uid = cc who in
                      let secret : k ≡ key = cc who in
                      let what : b ≡ a = cc who in
                      inl (
                        user,
                        secret,
                        record {
                          opens = ap ok what;
                          named =
                              ap (λ (x : AuthPayload). x.uid) (sym what)
                              ∙ bytes_eq→eq b.uid u same
                              ∙ user;
                          version =
                              ap (λ (x : AuthPayload). x.proto_version) (sym what) ∙ ==→eq _ _ fits;
                          verified = rw (← what) good;
                          answered = rw (← what, ← user) new_nonce;
                          leaves = rw (← what, ← user, same, fits, good);
                          fresh =
                              rw (← what, ← user)
                                (remembered-Has print later seen u b.nonce b.ts new_nonce).0;
                          remembered =
                              rw (← what, ← user, same, fits, good)
                                (remembered-Has print later seen u b.nonce b.ts new_nonce).1;
                        },
                      )
                ]
          ]
        ]
      ]

  -- An accepted frame opens under the key of a configured user to a payload that names this user and
  -- this protocol version, that `verify` accepts, and whose uid, time stamp and
  -- nonce were not in the cache together, which now has them.
  pub auth_from_frame-Checked :
      (now later : ℕ) (us : Users) (seen : Seen) (f : Frame) (uid key : List ℕ) (a : AuthPayload)
      → (auth_from_frame print hmac chacha utf8 now later us seen f).1 ≡ accepted uid key a
      → Listed uid key us
        × Checked now later seen
            (auth_from_frame print hmac chacha utf8 now later us seen f).0
            (opens_to print hmac chacha utf8 key f)
            uid
            key
            a
  unfolding auth_from_frame
  auth_from_frame-Checked now later [] seen f uid key a e = absurd (cc e)
  auth_from_frame-Checked now later ((u, k) ∷ us) seen f uid key a e =
      let rest = auth_from_frame print hmac chacha utf8 now later us seen f in
      elim (try_user-accepted now later u k seen (opens_to print hmac chacha utf8 k f) rest uid key
        a e) [
          | inl (user, secret, c) ↦ (inl (user, secret), rw (← secret) c)
          | inr skipped ↦
              let (listed, c) =
                auth_from_frame-Checked now later us seen f uid key a
                  (ap (λ (x : Seen × AuthOutcome). x.1) (sym skipped) ∙ e) in
              (inr listed, rw (skipped) c)
        ]
