-- ===== src/Proto/Cipher.antt =====
-- `FrameCipher` of src/proto/crypto.rs. ChaCha20-Poly1305 is a crate's: it is a parameter `Aead`, with
-- its documented behaviour as `IsAead`.
use newppp.Prelude.{
  ℕ, ◌+◌, ◌-◌, ◌≤◌, ◌≡◌, leb, List, [], ◌∷◌, ◌++◌, length, take, drop, Option, none, some,
}
use newppp.Prelude.Bytes.{to_be}
use newppp.Proto.Error.{
  Result, ok, err, ◌>>=◌, ◌>>◌, ensure, seal_failed, open_failed, ciphertext_too_short,
}
pub mod Open
pub mod Sample

-- `encrypt nonce aad plaintext` gives the ciphertext and the tag; `decrypt nonce aad ciphertext tag`
-- gives the plaintext, if the tag is right.
pub record Aead : Type 0 where
  pub encrypt : List ℕ → List ℕ → List ℕ → Option (List ℕ × List ℕ)
  pub decrypt : List ℕ → List ℕ → List ℕ → List ℕ → Option (List ℕ)

pub record IsAead (a : Aead) : Type 0 where
  pub length-ciphertext :
      (n ad p c t : List ℕ) → a.encrypt n ad p ≡ some (c, t) → length c ≡ length p
  pub length-tag : (n ad p c t : List ℕ) → a.encrypt n ad p ≡ some (c, t) → length t ≡ 16
  pub decrypt-encrypt :
      (n ad p c t : List ℕ) → a.encrypt n ad p ≡ some (c, t) → a.decrypt n ad c t ≡ some p

pub record FrameCipher : Type 0 where
  pub aead : Aead

abbrev pub tag_len : ℕ
tag_len = 16

unfoldable pub new : (List ℕ → Aead) → List ℕ → FrameCipher
new chacha key = record { aead = chacha key }

-- 4 zero bytes and the counter, most significant byte first.
unfoldable pub nonce_for : ℕ → List ℕ
nonce_for counter = 0 ∷ 0 ∷ 0 ∷ 0 ∷ to_be 8 counter

-- The buffer after encryption in place, and the tag.
unfoldable pub seal_slice : FrameCipher → ℕ → List ℕ → List ℕ → Result (List ℕ × List ℕ)
seal_slice c counter aad buf = elim (c.aead.encrypt (nonce_for counter) aad buf) [
  | none ↦ err seal_failed
  | some r ↦ ok r
]

unfoldable pub seal : FrameCipher → ℕ → List ℕ → List ℕ → Result (List ℕ)
unfolding seal_slice
seal c counter aad plaintext = do (buf, tag) ← seal_slice c counter aad plaintext; ok (buf ++ tag)

unfoldable pub open_with : Option (List ℕ) → Result (List ℕ)
open_with none = err open_failed
open_with (some p) = ok p

unfoldable pub decipher : FrameCipher → ℕ → List ℕ → List ℕ → Result (List ℕ)
unfolding open_with
decipher c counter aad ciphertext =
    let at = length ciphertext - tag_len in
    ensure (leb tag_len (length ciphertext)) ciphertext_too_short
    >> open_with (c.aead.decrypt (nonce_for counter) aad (take at ciphertext) (drop at ciphertext))
