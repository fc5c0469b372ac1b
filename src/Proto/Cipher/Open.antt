-- ===== src/Proto/Cipher/Open.antt =====
-- src/proto/crypto.rs: `FrameCipher::seal` and `FrameCipher::open`.
use newppp.Prelude.{
  ℕ, ◌-◌, ◌≡◌, refl, List, ◌++◌, length, length-append, take-append, drop-append, some, arith,
}
use newppp.Proto.Error.{ok, >>=-eq-ok}
use newppp.Proto.Cipher.{IsAead, FrameCipher, nonce_for, seal_slice, seal, decipher}

module _ (c : FrameCipher) (laws : IsAead c.aead) where
  pub seal_slice-encrypt :
      (counter : ℕ) (aad p buf tag : List ℕ)
      → seal_slice c counter aad p ≡ ok (buf, tag)
      → c.aead.encrypt (nonce_for counter) aad p ≡ some (buf, tag)
  unfolding seal_slice
  seal_slice-encrypt counter aad p buf tag e = ground arith

  -- `seal_slice` keeps the length of the buffer, and the tag has 16 bytes.
  pub length-seal_slice :
      (counter : ℕ) (aad p buf tag : List ℕ)
      → seal_slice c counter aad p ≡ ok (buf, tag)
      → (length buf ≡ length p) × (length tag ≡ 16)
  length-seal_slice counter aad p buf tag e =
      let sealed = seal_slice-encrypt counter aad p buf tag e in
      (laws.length-ciphertext _ _ _ _ _ sealed, laws.length-tag _ _ _ _ _ sealed)

  pub decipher-seal_slice :
      (counter : ℕ) (aad p buf tag : List ℕ)
      → seal_slice c counter aad p ≡ ok (buf, tag)
      → decipher c counter aad (buf ++ tag) ≡ ok p
  unfolding decipher
  decipher-seal_slice counter aad p buf tag e =
      let sealed = seal_slice-encrypt counter aad p buf tag e in
      let at : length (buf ++ tag) - 16 ≡ length buf =
        omega (arith, length-append buf tag, laws.length-tag _ _ _ _ _ sealed) in
      rw (at, take-append (length buf) buf tag refl, drop-append (length buf) buf tag refl)
        (ground (
          arith,
          laws.decrypt-encrypt _ _ _ _ _ sealed,
          length-append buf tag,
          laws.length-tag _ _ _ _ _ sealed,
        ))

  -- `open` gives back what `seal` was given, under the same counter and the same additional data.
  pub decipher-seal :
      (counter : ℕ) (aad p ct : List ℕ)
      → seal c counter aad p ≡ ok ct
      → decipher c counter aad ct ≡ ok p
  unfolding seal
  decipher-seal counter aad p ct e =
      let ((buf, tag), sealed, out) = >>=-eq-ok (seal_slice c counter aad p) _ e in
      let same : buf ++ tag ≡ ct = cc out in
      rw (← same) (decipher-seal_slice counter aad p buf tag sealed)
