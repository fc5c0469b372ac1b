-- ===== src/Proto/Auth.antt =====
-- `AuthPayload` of src/proto/crypto.rs, the payload of an AUTH frame. HMAC-SHA256 is a crate's: it is a
-- parameter, a function of the key and the message. A uid is the list of its bytes, and the test
-- whether bytes are UTF-8 is a parameter. The clock is an argument.
use Prim.Native.Nat.{bit_or, bit_xor}
use newppp.Prelude.{
  ℕ, ◌+◌, ◌-◌, ◌*◌, ◌%◌, ◌^◌, ◌≤◌, ◌<◌, ◌≡◌, Bool, true, false, not, ltb, leb, ◌==◌, ◌||◌,
  if◌then◌else◌, List, [], ◌∷◌, ◌++◌, length, take, drop,
}
use newppp.Prelude.Bytes.{to_le, from_le}
use newppp.Proto.Error.{Result, ok, err, ◌>>◌, ensure, auth_truncated, bad_utf8}
use newppp.Proto.Frame.{at, slice, max_plaintext, proto_version}
pub mod RoundTrip
pub mod Verify
pub mod Bearer
mod Examples

abbrev pub auth_window : ℕ
auth_window = 60

pub record AuthPayload : Type 0 where
  pub proto_version : ℕ
  pub salt : List ℕ
  pub ts : ℕ
  pub nonce : List ℕ
  pub uid : List ℕ
  pub mac : List ℕ
  pub max_plaintext : ℕ

-- `uid.len() as u8`; that it fits is asserted in debug builds only.
unfoldable pub encode : AuthPayload → List ℕ
encode a =
    a.proto_version
    ∷ (a.salt
        ++ (to_le 8 a.ts
            ++ (a.nonce ++ ((length a.uid % 256) ∷ (a.uid ++ (a.mac ++ to_le 4 a.max_plaintext))))))

-- The limit at `p`, or the baseline where a v1 payload ends there.
abbrev limit_at : List ℕ → ℕ → ℕ
limit_at b p = if leb (p + 4) (length b) then from_le (slice b p (p + 4)) else max_plaintext

module _ (utf8 : List ℕ → Bool) where
  unfoldable pub decode : List ℕ → Result AuthPayload
  decode b =
      let ul = at b 41 in
      let p = 42 + ul in
      ensure (leb (1 + 16 + 8 + 16 + 1 + 32) (length b)) auth_truncated
      >> (ensure (leb (p + 32) (length b)) auth_truncated
          >> (ensure (utf8 (slice b 42 p)) bad_utf8
              >> ok (record {
                proto_version = at b 0;
                salt = slice b 1 17;
                ts = from_le (slice b 17 25);
                nonce = slice b 25 41;
                uid = slice b 42 p;
                mac = slice b p (p + 32);
                max_plaintext = limit_at b (p + 32);
              })))

unfoldable pub proto_version_compatible : AuthPayload → Bool
proto_version_compatible a = a.proto_version == proto_version

-- `b"newppp-auth|"`.
abbrev pub auth_label : List ℕ
auth_label = b'n' ∷ b'e' ∷ b'w' ∷ b'p' ∷ b'p' ∷ b'p' ∷ b'-' ∷ b'a' ∷ b'u' ∷ b't' ∷ b'h' ∷ b'|' ∷ []

-- The constant-time comparison: `diff |= a ^ b` over both strings, as far as the shorter goes.
unfoldable pub difference : ℕ → List ℕ → List ℕ → ℕ
difference diff (a ∷ as') (b ∷ bs) = difference (bit_or diff (bit_xor a b)) as' bs
difference diff _ _ = diff

-- `now.saturating_sub(ts) > window || ts.saturating_sub(now) > window`.
abbrev pub out_of_window : ℕ → ℕ → ℕ → Bool
out_of_window now ts window = ltb window (now - ts) || ltb window (ts - now)

module _ (hmac : List ℕ → List ℕ → List ℕ) where
  unfoldable pub auth_mac : List ℕ → List ℕ → ℕ → List ℕ → List ℕ
  auth_mac key uid ts nonce =
      hmac key (auth_label ++ (uid ++ ((b'|' ∷ []) ++ (to_le 8 ts ++ ((b'|' ∷ []) ++ nonce)))))

  unfoldable pub verify : ℕ → AuthPayload → List ℕ → ℕ → Bool
  unfolding auth_mac
  verify now a key window =
      if out_of_window now a.ts window
      then false
      else difference 0 (auth_mac key a.uid a.ts a.nonce) a.mac == 0
