-- ===== src/Proto/Cipher/Sample.antt =====
-- An instance of `IsAead`, for the examples: the plaintext stays, and the tag is the nonce, padded.
use newppp.Prelude.{
  ℕ, ◌≡◌, List, [], ◌∷◌, ◌++◌, length, take, length-take, length-append, bytes_eq, bytes_eq_refl,
  if◌then◌else◌, Option, none, some, arith,
}
use newppp.Proto.Cipher.{Aead, IsAead, FrameCipher}

abbrev zeros : List ℕ
zeros = 0 ∷ 0 ∷ 0 ∷ 0 ∷ 0 ∷ 0 ∷ 0 ∷ 0 ∷ 0 ∷ 0 ∷ 0 ∷ 0 ∷ 0 ∷ 0 ∷ 0 ∷ 0 ∷ []

abbrev pub sample_tag : List ℕ → List ℕ
sample_tag nonce = take 16 (nonce ++ zeros)

abbrev pub sample : Aead
sample = record {
  encrypt = λ nonce aad p. some (p, sample_tag nonce);
  decrypt = λ nonce aad c t. if bytes_eq t (sample_tag nonce) then some c else none;
}

sample_length : (n : List ℕ) → length (sample_tag n) ≡ 16
sample_length n = length-take 16 (n ++ zeros) (omega (arith, length-append n zeros))

length-sample :
    (n p c t : List ℕ)
    → ◌≡◌ {A = Option (List ℕ × List ℕ)} (some (p, sample_tag n)) (some (c, t))
    → length t ≡ 16
length-sample n p c t e = let same : sample_tag n ≡ t = cc e in rw (← same) (sample_length n)

sample_opens :
    (n p c t : List ℕ)
    → ◌≡◌ {A = Option (List ℕ × List ℕ)} (some (p, sample_tag n)) (some (c, t))
    → (if bytes_eq t (sample_tag n) then some c else none) ≡ some p
sample_opens n p c t e =
    let same : t ≡ sample_tag n = cc e in
    let text : c ≡ p = cc e in rw (same, text, bytes_eq_refl (sample_tag n))

pub sample-IsAead : IsAead sample
sample-IsAead = record {
  length-ciphertext = λ n ad p c t e. let text : c ≡ p = cc e in rw text;
  length-tag = λ n ad p c t e. length-sample n p c t e;
  decrypt-encrypt = λ n ad p c t e. sample_opens n p c t e;
}

abbrev pub sample_cipher : FrameCipher
sample_cipher = record { aead = sample }
