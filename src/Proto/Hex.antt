-- ===== src/Proto/Hex.antt =====
-- `hex` and `unhex` of src/proto/crypto.rs. Text is the list of its bytes.
use Prim.Native.Nat.{bit_or}
use newppp.Prelude.{
  ℕ, suc, ◌+◌, ◌-◌, ◌*◌, ◌/◌, ◌%◌, ◌<◌, ◌≡◌, refl, Bool, true, false, ltb, leb, ◌==◌, ◌&&◌,
  if◌then◌else◌, List, [], ◌∷◌, length, All, all_below, all_below_sound, Option, none, some, arith,
}
use newppp.Prelude.Bytes.{IsByte}

-- The digits of the format `{x:02x}`.
digit : ℕ → ℕ
digit d = if ltb d 10 then b'0' + d else b'a' + (d - 10)

unfoldable pub hex : List ℕ → List ℕ
unfolding digit
hex [] = []
hex (x ∷ b) = digit (x / 16) ∷ digit (x % 16) ∷ hex b

-- `(c as char).to_digit(16)`.
to_digit : ℕ → Option ℕ
to_digit c =
    if leb b'0' c && leb c b'9'
    then some (c - b'0')
    else if leb b'a' c && leb c b'f'
    then some (c - b'a' + 10)
    else if leb b'A' c && leb c b'F'
    then some (c - b'A' + 10)
    else none

-- `((hi << 4) | lo) as u8`, before the bytes that follow.
pair_onto : Option ℕ → Option ℕ → Option (List ℕ) → Option (List ℕ)
pair_onto (some hi) (some lo) (some b) = some ((bit_or (hi * 16) lo % 256) ∷ b)
pair_onto _ _ _ = none

-- A string of odd length is refused; the last clause but one is such a rest.
unfoldable pub unhex : List ℕ → Option (List ℕ)
unfolding to_digit pair_onto
unhex [] = some []
unhex (c ∷ []) = none
unhex (hi ∷ lo ∷ s) = pair_onto (to_digit hi) (to_digit lo) (unhex s)

-- Every byte, checked by evaluation.
byte_comes_back : ℕ → Bool
unfolding digit to_digit pair_onto
byte_comes_back x =
    elim (pair_onto (to_digit (digit (x / 16))) (to_digit (digit (x % 16))) (some [])) [
      | none ↦ false
      | some [] ↦ false
      | some (y ∷ ys) ↦ y == x
    ]

bytes_come_back : all_below 256 byte_comes_back ≡ true
unfolding all_below byte_comes_back
bytes_come_back = refl

digits-byte :
    (x : ℕ) (b : List ℕ)
    → x < 256
    → pair_onto (to_digit (digit (x / 16))) (to_digit (digit (x % 16))) (some b) ≡ some (x ∷ b)
unfolding pair_onto byte_comes_back
digits-byte x b h = ground (arith, all_below_sound 256 byte_comes_back x bytes_come_back h)

-- `unhex` reads back what `hex` wrote.
pub unhex-hex : (b : List ℕ) → All IsByte b → unhex (hex b) ≡ some b
unfolding unhex hex
unhex-hex [] h = refl
unhex-hex (x ∷ b) h = rw (unhex-hex b h.1) (digits-byte x b h.0)

pub length-hex : (b : List ℕ) → length (hex b) ≡ 2 * length b
unfolding hex
length-hex [] = omega arith
length-hex (x ∷ b) = omega (arith, length-hex b)

digit-ne-dot : (d : ℕ) → d < 16 → (digit d == b'.') ≡ false
unfolding digit
digit-ne-dot d h = ground arith

-- No byte is a dot.
abbrev pub NoDot : List ℕ → Type 0
NoDot = All (λ c. (c == b'.') ≡ false)

pub hex-NoDot : (b : List ℕ) → All IsByte b → NoDot (hex b)
unfolding hex
hex-NoDot [] h = tt
hex-NoDot (x ∷ b) h =
    (digit-ne-dot (x / 16) (omega arith), (digit-ne-dot (x % 16) (omega arith), hex-NoDot b h.1))

length-pair_onto :
    (hi lo : Option ℕ) (t : Option (List ℕ)) (out : List ℕ)
    → pair_onto hi lo t ≡ some out
    → (s : List ℕ) × (t ≡ some s) × (length out ≡ suc (length s))
unfolding pair_onto
length-pair_onto none lo t out e = absurd (cc e)
length-pair_onto (some hi) none t out e = absurd (cc e)
length-pair_onto (some hi) (some lo) none out e = absurd (cc e)
length-pair_onto (some hi) (some lo) (some s) out e = (s, refl, ground (arith, e))

-- Two digits to a byte.
pub length-unhex : (s out : List ℕ) → unhex s ≡ some out → length s ≡ 2 * length out
unfolding unhex
length-unhex [] out e = ground (arith, e)
length-unhex (c ∷ []) out e = absurd (cc e)
length-unhex (hi ∷ lo ∷ s) out e =
    let (t, rest, long) = length-pair_onto (to_digit hi) (to_digit lo) (unhex s) out e in
    omega (arith, length-unhex s t rest, long)
