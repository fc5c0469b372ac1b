-- ===== src/Server/State/Nonce/Replay.antt =====
-- src/server/state.rs, `check_and_remember_nonce` over a sequence of authentications.
use newppp.Prelude.{
  ℕ, ◌+◌, ◌-◌, ◌*◌, ◌≤◌, ◌<◌, ◌≡◌, Bool, true, false, ◌==◌, ◌&&◌, ◌||◌, List, [], ◌∷◌, arith,
  bytes_eq, bytes_eq_refl, All,
}
use newppp.Proto.Auth.{auth_window}
use newppp.Server.State.Nonce.{Seen, contains_key, retain, nonce_key, check_and_remember_nonce}

-- The entry itself is in the cache.
holds : List ℕ → ℕ → Seen → Bool
holds key ts [] = false
holds key ts ((k, t) ∷ seen) = (bytes_eq k key && t == ts) || holds key ts seen

holds-contains_key :
    (key : List ℕ) (ts : ℕ) (seen : Seen) → holds key ts seen ≡ true → contains_key key seen ≡ true
unfolding holds contains_key
holds-contains_key key ts [] h = absurd (ground arith)
holds-contains_key key ts ((k, t) ∷ seen) h = ground (arith, holds-contains_key key ts seen)

holds-retain :
    (cutoff : ℕ) (key : List ℕ) (ts : ℕ) (seen : Seen)
    → cutoff < ts
    → holds key ts seen ≡ true
    → holds key ts (retain cutoff seen) ≡ true
unfolding holds retain
holds-retain cutoff key ts [] late h = h
holds-retain cutoff key ts ((k, t) ∷ seen) late h =
    ground (arith, holds-retain cutoff key ts seen late)

-- One authentication that reaches the cache.
pub record Call : Type 0 where
  pub now : ℕ
  pub uid : List ℕ
  pub nonce : List ℕ
  pub ts : ℕ

module _ (print : ℕ → List ℕ) where
  abbrev pub after_call : Seen → Call → Seen
  after_call seen c = (check_and_remember_nonce print c.now seen c.uid c.nonce c.ts).0

  abbrev pub after_calls : Seen → List Call → Seen
  after_calls seen [] = seen
  after_calls seen (c ∷ cs) = after_calls (after_call seen c) cs

  accepted-holds :
      (c : Call) (seen : Seen)
      → (check_and_remember_nonce print c.now seen c.uid c.nonce c.ts).1 ≡ true
      → holds (nonce_key print c.uid c.nonce c.ts) c.ts (after_call seen c) ≡ true
  unfolding check_and_remember_nonce holds
  accepted-holds c seen e = ground (arith, bytes_eq_refl (nonce_key print c.uid c.nonce c.ts))

  holds-after_call :
      (key : List ℕ) (ts : ℕ) (seen : Seen) (c : Call)
      → c.now - 2 * auth_window < ts
      → holds key ts seen ≡ true
      → holds key ts (after_call seen c) ≡ true
  unfolding check_and_remember_nonce holds
  holds-after_call key ts seen c late h =
      ground (arith, holds-retain (c.now - 2 * auth_window) key ts seen late h)

  holds-after_calls :
      (key : List ℕ) (ts : ℕ) (seen : Seen) (cs : List Call) (last : ℕ)
      → last - 2 * auth_window < ts
      → All (λ (c : Call). c.now ≤ last) cs
      → holds key ts seen ≡ true
      → holds key ts (after_calls seen cs) ≡ true
  holds-after_calls key ts seen [] last late before h = h
  holds-after_calls key ts seen (c ∷ cs) last late before h =
      holds-after_calls key ts (after_call seen c) cs last late before.1
        (holds-after_call key ts seen c (omega (arith, before.0)) h)

  -- Once an authentication with a time stamp above 0 was accepted, the same uid, nonce and time stamp
  -- are refused at every time less than two windows after the time stamp, whatever authentications
  -- reached the cache in between.
  pub no_replay :
      (seen : Seen) (c : Call) (cs : List Call) (last : ℕ)
      → (check_and_remember_nonce print c.now seen c.uid c.nonce c.ts).1 ≡ true
      → All (λ (c' : Call). c'.now ≤ last) cs
      → 0 < c.ts
      → last < c.ts + 2 * auth_window
      → (check_and_remember_nonce print last
          (after_calls (after_call seen c) cs)
          c.uid
          c.nonce
          c.ts).1
        ≡ false
  unfolding check_and_remember_nonce
  no_replay seen c cs last e before positive fresh =
      let key = nonce_key print c.uid c.nonce c.ts in
      let there =
        holds-after_calls key c.ts (after_call seen c) cs last (omega arith) before
          (accepted-holds c seen e) in
      rw (holds-contains_key key c.ts (after_calls (after_call seen c) cs) there)
