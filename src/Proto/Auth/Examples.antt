-- ===== src/Proto/Auth/Examples.antt =====
-- An authentication at work, with a sum in place of the MAC.
use newppp.Prelude.{
  ℕ, ◌+◌, ◌≡◌, ◌↔◌, refl, ap, Bool, true, List, [], ◌∷◌, ◌++◌, none, some, arith, All,
}
use newppp.Prelude.Bytes.{IsByte, to_le, to_le-IsByte, from_le, from_le-to_le}
use newppp.Proto.Error.{ok}
use newppp.Proto.Hex.{hex, unhex, unhex-hex, hex-NoDot}
use newppp.Proto.Auth.{
  AuthPayload, encode, decode, auth_mac, verify, auth_window, proto_version_compatible,
}
use newppp.Proto.Auth.RoundTrip.{IsWire, decode-encode_padded}
use newppp.Proto.Auth.Verify.{IsAuthentic, verify_iff}
use newppp.Proto.Auth.Bearer.{Decimal, IsDecimal, make_bearer, verify_bearer_parts, verify-make}

abbrev any_utf8 : List ℕ → Bool
any_utf8 b = true

abbrev sum : List ℕ → ℕ
sum [] = 0
sum (x ∷ xs) = x + sum xs

-- 32 bytes.
abbrev checksum : List ℕ → List ℕ → List ℕ
checksum key msg = to_le 32 (sum key + sum msg)

abbrev key : List ℕ
key = 42 ∷ []

abbrev nonce : List ℕ
nonce = 0 ∷ 1 ∷ 2 ∷ 3 ∷ 4 ∷ 5 ∷ 6 ∷ 7 ∷ 8 ∷ 9 ∷ 10 ∷ 11 ∷ 12 ∷ 13 ∷ 14 ∷ 15 ∷ []

abbrev alice : List ℕ
alice = b'a' ∷ b'l' ∷ []

abbrev payload : AuthPayload
payload = record {
  proto_version = 2;
  salt = nonce;
  ts = 1000;
  nonce = nonce;
  uid = alice;
  mac = auth_mac checksum key alice 1000 nonce;
  max_plaintext = 65536;
}

payload-IsWire : IsWire any_utf8 payload
unfolding auth_mac to_le
payload-IsWire = record {
  version_byte = omega arith;
  salt_width = refl;
  ts_width = omega arith;
  nonce_width = refl;
  uid_width = omega arith;
  uid_utf8 = refl;
  mac_width = refl;
  limit_width = omega arith;
}

decode-encode_padded_example : decode any_utf8 (encode payload ++ (1 ∷ 2 ∷ [])) ≡ ok payload
decode-encode_padded_example = decode-encode_padded any_utf8 payload (1 ∷ 2 ∷ []) payload-IsWire

verify_iff_example :
    (verify checksum 1030 payload key auth_window ≡ true)
    ↔ IsAuthentic checksum 1030 payload key auth_window
verify_iff_example = verify_iff checksum 1030 payload key auth_window refl

same_version : proto_version_compatible payload ≡ true
unfolding proto_version_compatible
same_version = refl

-- A notation for numbers without dots: 16 digits, the low byte first.
abbrev fixed_width : Decimal
fixed_width = record {
  print = λ n. hex (to_le 8 n);
  parse = λ s. elim (unhex s) [ none ↦ none | some b ↦ some (from_le b) ];
}

fixed_width-IsDecimal : IsDecimal fixed_width
fixed_width-IsDecimal = record {
  parse-print = λ n h.
      rw (fixed_width, unhex-hex (to_le 8 n) (to_le-IsByte 8 n)) (ap some (from_le-to_le 8 n h));
  print-NoDot = λ n. hex-NoDot (to_le 8 n) (to_le-IsByte 8 n);
}

abbrev token : List ℕ
token = make_bearer fixed_width checksum key alice 1000 nonce

nonce_bytes : All IsByte nonce
nonce_bytes = ground arith

mac_bytes : All IsByte (auth_mac checksum key alice 1000 nonce)
unfolding auth_mac
mac_bytes = to_le-IsByte 32 _

verify-make_example :
    verify_bearer_parts fixed_width checksum 1030 token key alice auth_window ≡ some (1000, nonce)
unfolding auth_mac to_le
verify-make_example =
    verify-make fixed_width fixed_width-IsDecimal checksum 1030 key alice 1000 nonce auth_window
      (refl, (refl, tt)) (omega arith) refl nonce_bytes refl mac_bytes (omega arith) (omega arith)
