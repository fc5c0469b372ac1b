-- ===== src/Proto/Auth/RoundTrip.antt =====
-- src/proto/crypto.rs: `AuthPayload::encode` against `AuthPayload::decode`.
use newppp.Prelude.{
  ℕ, zero, suc, ◌+◌, ◌-◌, ◌%◌, ◌^◌, ◌≤◌, ◌<◌, ◌≡◌, refl, ap, ◌∙◌, Bool, true, List, [], ◌∷◌, ◌++◌,
  length, drop, length-append, length-drop, take-append, drop-append, drop-add, append_assoc, arith,
}
use newppp.Prelude.Bytes.{to_le, from_le, from_le-to_le, length-to_le}
use newppp.Proto.Error.{ok}
use newppp.Proto.Frame.{at, slice}
use newppp.Proto.Auth.{AuthPayload, encode, decode}

-- The widths of the fields in Rust, and a uid of at most 255 UTF-8 bytes.
pub record IsWire (utf8 : List ℕ → Bool) (a : AuthPayload) : Type 0 where
  pub version_byte : a.proto_version < 256
  pub salt_width : length a.salt ≡ 16
  pub ts_width : a.ts < 2 ^ 64
  pub nonce_width : length a.nonce ≡ 16
  pub uid_width : length a.uid ≤ 255
  pub uid_utf8 : utf8 a.uid ≡ true
  pub mac_width : length a.mac ≡ 32
  pub limit_width : a.max_plaintext < 2 ^ 32

-- `xs` stands at `i`, up to `j`, and `ys` behind it.
cut :
    (b : List ℕ) (i j : ℕ) (xs ys : List ℕ)
    → drop i b ≡ xs ++ ys
    → i + length xs ≡ j
    → (slice b i j ≡ xs) × (drop j b ≡ ys)
cut b i j xs ys h e =
    let width : j - i ≡ length xs = omega (arith, e) in
    (
      rw (width, h) (take-append (length xs) xs ys refl),
      rw (← e) (drop-add i (length xs) b ∙ rw h (drop-append (length xs) xs ys refl)),
    )

at-drop : (b : List ℕ) (i x : ℕ) (ys : List ℕ) → drop i b ≡ x ∷ ys → at b i ≡ x
at-drop [] zero x ys h = cc
at-drop [] (suc i) x ys h = cc
at-drop (y ∷ b) zero x ys h = cc
at-drop (y ∷ b) (suc i) x ys h = at-drop b i x ys h

-- Where the fields of the payload `b` stand.
record Fields (a : AuthPayload) (b : List ℕ) (p : ℕ) : Type 0 where
  version : at b 0 ≡ a.proto_version
  salt : slice b 1 17 ≡ a.salt
  ts : from_le (slice b 17 25) ≡ a.ts
  nonce : slice b 25 41 ≡ a.nonce
  ul : at b 41 ≡ length a.uid
  uid : slice b 42 p ≡ a.uid
  mac : slice b p (p + 32) ≡ a.mac
  limit : from_le (slice b (p + 32) (p + 32 + 4)) ≡ a.max_plaintext
  long : p + 36 ≤ length b

encode-Fields :
    (utf8 : List ℕ → Bool) (a : AuthPayload) (pad : List ℕ)
    → IsWire utf8 a
    → Fields a (encode a ++ pad) (42 + length a.uid)
unfolding encode
encode-Fields utf8 a pad w =
    let b = encode a ++ pad in
    let ul = length a.uid in
    let p = 42 + ul in
    let tail7 = to_le 4 a.max_plaintext ++ pad in
    let tail6 = a.mac ++ tail7 in
    let tail5 = a.uid ++ tail6 in
    let tail4 = (ul % 256) ∷ tail5 in
    let tail3 = a.nonce ++ tail4 in
    let tail2 = to_le 8 a.ts ++ tail3 in
    let whole : drop 1 b ≡ a.salt ++ tail2 = simp append_assoc in
    let (salt, at17) = cut b 1 17 a.salt tail2 whole (omega (arith, w.salt_width)) in
    let (ts, at25) = cut b 17 25 (to_le 8 a.ts) tail3 at17 (omega (arith, length-to_le 8 a.ts)) in
    let (nonce, at41) = cut b 25 41 a.nonce tail4 at25 (omega (arith, w.nonce_width)) in
    let (len, at42) = cut b 41 42 ((ul % 256) ∷ []) tail5 at41 (omega arith) in
    let (uid, atp) = cut b 42 p a.uid tail6 at42 refl in
    let (mac, atq) = cut b p (p + 32) a.mac tail7 atp (omega (arith, w.mac_width)) in
    let (lim, end) =
      cut b (p + 32) (p + 32 + 4) (to_le 4 a.max_plaintext) pad atq
        (omega (arith, length-to_le 4 a.max_plaintext)) in
    record {
      version = refl;
      salt = salt;
      ts = rw ts (from_le-to_le 8 a.ts w.ts_width);
      nonce = nonce;
      ul = at-drop b 41 (ul % 256) tail5 at41 ∙ omega (arith, w.uid_width);
      uid = uid;
      mac = mac;
      limit = rw lim (from_le-to_le 4 a.max_plaintext w.limit_width);
      long = omega (
        arith,
        length-drop (p + 32) b,
        ap length atq,
        length-append (to_le 4 a.max_plaintext) pad,
        length-to_le 4 a.max_plaintext,
      );
    }

module _ (utf8 : List ℕ → Bool) where
  decode-Fields :
      (a : AuthPayload) (b : List ℕ)
      → utf8 a.uid ≡ true
      → Fields a b (42 + length a.uid)
      → decode utf8 b ≡ ok a
  unfolding decode
  decode-Fields a b valid f =
      rw (f.ul, f.uid, f.version, f.salt, f.ts, f.nonce, f.mac, f.limit, valid)
        (ground (arith, f.long))

  -- An AUTH payload whose fields have their widths, with a uid of at most 255 UTF-8 bytes, is decoded
  -- as it was encoded, whatever padding stands behind it.
  pub decode-encode_padded :
      (a : AuthPayload) (pad : List ℕ) → IsWire utf8 a → decode utf8 (encode a ++ pad) ≡ ok a
  decode-encode_padded a pad w =
      decode-Fields a (encode a ++ pad) w.uid_utf8 (encode-Fields utf8 a pad w)
