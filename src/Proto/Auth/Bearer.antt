-- ===== src/Proto/Auth/Bearer.antt =====
-- The bearer token of src/proto/crypto.rs, "uid.ts.nonce_hex.mac_hex". How a `u64` is printed and
-- parsed is the standard library's: a parameter, with the facts that are used as `IsDecimal`. The
-- random nonce and the clock are arguments.
use newppp.Prelude.{
  ℕ, ◌+◌, ◌^◌, ◌≤◌, ◌<◌, ◌≡◌, refl, ◌==◌, if◌then◌else◌, List, [], ◌∷◌, ◌++◌, length, All, Option,
  none, some, arith, bytes_eq, bytes_eq_refl,
}
use newppp.Prelude.Bytes.{IsByte}
use newppp.Proto.Hex.{hex, unhex, unhex-hex, hex-NoDot, NoDot}
use newppp.Proto.Auth.{difference, out_of_window, auth_mac}
use newppp.Proto.Auth.Verify.{difference_self}

pub record Decimal : Type 0 where
  pub print : ℕ → List ℕ
  pub parse : List ℕ → Option ℕ

pub record IsDecimal (d : Decimal) : Type 0 where
  pub parse-print : (n : ℕ) → n < 2 ^ 64 → d.parse (d.print n) ≡ some n
  pub print-NoDot : (n : ℕ) → NoDot (d.print n)

onto_first : ℕ → List (List ℕ) → List (List ℕ)
onto_first c [] = (c ∷ []) ∷ []
onto_first c (p ∷ ps) = (c ∷ p) ∷ ps

-- `token.split('.')`.
unfoldable pub split : List ℕ → List (List ℕ)
unfolding onto_first
split [] = [] ∷ []
split (c ∷ cs) = let ps = split cs in if c == b'.' then [] ∷ ps else onto_first c ps

-- `bearer_uid`: the first part, if it is not empty.
unfoldable pub bearer_uid : List ℕ → Option (List ℕ)
bearer_uid token = elim (split token) [ [] ↦ none | [] ∷ ps ↦ none | (c ∷ cs) ∷ ps ↦ some (c ∷ cs) ]

-- `unhex` to a known length.
sized : ℕ → Option (List ℕ) → Option (List ℕ)
sized n none = none
sized n (some v) = if length v == n then some v else none

module _ (d : Decimal) (hmac : List ℕ → List ℕ → List ℕ) where
  unfoldable pub make_bearer : List ℕ → List ℕ → ℕ → List ℕ → List ℕ
  make_bearer key uid ts nonce =
      uid
      ++ (b'.'
          ∷ (d.print ts ++ (b'.' ∷ (hex nonce ++ (b'.' ∷ hex (auth_mac hmac key uid ts nonce))))))

  -- The time window and the constant-time comparison, once the parts are parsed.
  accept :
      ℕ → List ℕ → List ℕ → ℕ → Option ℕ → Option (List ℕ) → Option (List ℕ) → Option (ℕ × List ℕ)
  accept now key uid window (some ts) (some nonce) (some mac) =
      if out_of_window now ts window
      then none
      else if difference 0 (auth_mac hmac key uid ts nonce) mac == 0
      then some (ts, nonce)
      else none
  accept now key uid window _ _ _ = none

  -- `none` where a part is missing, and where a fifth part follows.
  verify_parts : ℕ → List ℕ → List ℕ → ℕ → List (List ℕ) → Option (ℕ × List ℕ)
  unfolding accept sized
  verify_parts now key uid window (u ∷ t ∷ n ∷ m ∷ []) =
      if bytes_eq u uid
      then accept now key uid window (d.parse t) (sized 16 (unhex n)) (sized 32 (unhex m))
      else none
  verify_parts now key uid window _ = none

  unfoldable pub verify_bearer_parts : ℕ → List ℕ → List ℕ → List ℕ → ℕ → Option (ℕ × List ℕ)
  unfolding verify_parts
  verify_bearer_parts now token key uid window = verify_parts now key uid window (split token)

split-part : (p : List ℕ) → NoDot p → split p ≡ p ∷ []
unfolding split
split-part [] h = refl
split-part (c ∷ p) h = rw (split-part p h.1, h.0)

split-dot : (p rest : List ℕ) → NoDot p → split (p ++ (b'.' ∷ rest)) ≡ p ∷ split rest
unfolding split
split-dot [] rest h = refl
split-dot (c ∷ p) rest h = rw (split-dot p rest h.1, h.0)

-- The uid is read off the token without looking at the rest.
pub bearer_uid-first :
    (c : ℕ) (uid rest : List ℕ)
    → NoDot (c ∷ uid)
    → bearer_uid ((c ∷ uid) ++ (b'.' ∷ rest)) ≡ some (c ∷ uid)
unfolding bearer_uid
bearer_uid-first c uid rest h = rw (split-dot (c ∷ uid) rest h, bearer_uid)

module _ (d : Decimal) (laws : IsDecimal d) (hmac : List ℕ → List ℕ → List ℕ) where
  split-make_bearer :
      (key uid : List ℕ) (ts : ℕ) (nonce : List ℕ)
      → NoDot uid
      → All IsByte nonce
      → All IsByte (auth_mac hmac key uid ts nonce)
      → split (make_bearer d hmac key uid ts nonce)
        ≡ uid ∷ d.print ts ∷ hex nonce ∷ hex (auth_mac hmac key uid ts nonce) ∷ []
  unfolding make_bearer
  split-make_bearer key uid ts nonce hu hn hm = rw (
    split-dot uid _ hu,
    split-dot (d.print ts) _ (laws.print-NoDot ts),
    split-dot (hex nonce) _ (hex-NoDot nonce hn),
    split-part (hex (auth_mac hmac key uid ts nonce)) (hex-NoDot _ hm),
  )

  -- A token made for a uid without dots, a 64-bit time stamp and a nonce of 16 bytes, with an HMAC
  -- of 32 bytes, is accepted for that uid under the same key by a clock within the window, and its
  -- time stamp and nonce come back.
  pub verify-make :
      (now : ℕ) (key uid : List ℕ) (ts : ℕ) (nonce : List ℕ) (window : ℕ)
      → NoDot uid
      → ts < 2 ^ 64
      → length nonce ≡ 16
      → All IsByte nonce
      → length (auth_mac hmac key uid ts nonce) ≡ 32
      → All IsByte (auth_mac hmac key uid ts nonce)
      → now ≤ ts + window
      → ts ≤ now + window
      → verify_bearer_parts d hmac now (make_bearer d hmac key uid ts nonce) key uid window
        ≡ some (ts, nonce)
  unfolding verify_bearer_parts
  verify-make now key uid ts nonce window hu ht ln hn lm hm early late =
      let mac = auth_mac hmac key uid ts nonce in
      rw
        (
          split-make_bearer key uid ts nonce hu hn hm,
          bytes_eq_refl uid,
          laws.parse-print ts ht,
          unhex-hex nonce hn,
          unhex-hex mac hm,
          ln,
          lm,
          difference_self mac,
        )
        (ground arith)
