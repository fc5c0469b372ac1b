-- ===== src/Prelude/Bits.antt =====
-- Single bits of a word, and what a shift, `|` and `&` do to them.
use Prim.Native.Nat.{
  ℕ, zero, suc, ◌+◌, ◌-◌, ◌*◌, ◌/◌, ◌%◌, ◌^◌, ◌≤◌, ◌<◌, min, max, bit_and, bit_or,
}
use Prim.Native.Nat.{
  digits, bitwise, bit_and-bitwise, bit_or-bitwise, bit_xor, bit_xor-bitwise, differ,
}
use mathlib.Core.Path.{◌≡◌, refl, sym, ap, ◌∙◌}
use native.Mathlib.Nat.{
  pow-suc, one-le-pow, mod-lt, mod-eq_of_lt, div-add-mod', mul-add-mod_self_right,
}
use native.Mathlib.Omega.{arith}
use newppp.Prelude.Tests.{ltb, ◌==◌, if◌then◌else◌}

-- The fuel of the library's recursion on digits does not matter once it is enough.
module _ (last : ℕ → ℕ) (op : ℕ → ℕ → ℕ) where
  same_digits : (f g x y : ℕ) → x ≤ f → x ≤ g → digits last op f x y ≡ digits last op g x y
  same_digits (suc f) (suc g) (suc x) y hf hg =
      rw (same_digits f g (suc x / 2) (y / 2) (omega arith) (omega arith))
  same_digits (suc f) (suc g) zero y hf hg = refl
  same_digits (suc f) zero (suc x) y hf hg = absurd (omega arith)
  same_digits (suc f) zero zero y hf hg = refl
  same_digits zero (suc g) (suc x) y hf hg = absurd (omega arith)
  same_digits zero (suc g) zero y hf hg = refl
  same_digits zero zero zero y hf hg = refl
  same_digits zero zero (suc x) y hf hg = refl

  bitwise_digit :
      (x y : ℕ)
      → bitwise last op (suc x) y ≡ bitwise last op (suc x / 2) (y / 2) * 2 + op (suc x % 2) (y % 2)
  bitwise_digit x y =
      let half = same_digits x (suc x / 2) (suc x / 2) (y / 2) (omega arith) (omega arith) in
      omega (arith, half)

pub bit_or_digit : (x y : ℕ) → bit_or x y ≡ bit_or (x / 2) (y / 2) * 2 + max (x % 2) (y % 2)
bit_or_digit (suc x) y = simp bit_or-bitwise (bitwise_digit (λ b. b) max x y)
bit_or_digit zero y = simp bit_or-bitwise (omega arith)

pub bit_and_digit : (x y : ℕ) → bit_and x y ≡ bit_and (x / 2) (y / 2) * 2 + min (x % 2) (y % 2)
bit_and_digit (suc x) y = simp bit_and-bitwise (bitwise_digit (λ b. 0) min x y)
bit_and_digit zero y = simp bit_and-bitwise (omega arith)

-- Bit `d` of `x`, the lowest first.
unfoldable pub bit : ℕ → ℕ → ℕ
bit x zero = x % 2
bit x (suc d) = bit (x / 2) d

pub bit-le : (x d : ℕ) → bit x d ≤ 1
unfolding bit
bit-le x zero = omega arith
bit-le x (suc d) = bit-le (x / 2) d

pub bit-zero : (d : ℕ) → bit 0 d ≡ 0
unfolding bit
bit-zero zero = refl
bit-zero (suc d) = bit-zero d

pub bit-bit_or : (x y d : ℕ) → bit (bit_or x y) d ≡ max (bit x d) (bit y d)
unfolding bit
bit-bit_or x y zero = omega (arith, bit_or_digit x y)
bit-bit_or x y (suc d) =
    let half : bit_or x y / 2 ≡ bit_or (x / 2) (y / 2) = omega (arith, bit_or_digit x y) in
    rw half (bit-bit_or (x / 2) (y / 2) d)

pub bit-bit_and : (x y d : ℕ) → bit (bit_and x y) d ≡ min (bit x d) (bit y d)
unfolding bit
bit-bit_and x y zero = omega (arith, bit_and_digit x y)
bit-bit_and x y (suc d) =
    let half : bit_and x y / 2 ≡ bit_and (x / 2) (y / 2) = omega (arith, bit_and_digit x y) in
    rw half (bit-bit_and (x / 2) (y / 2) d)

pub pow_pos : (k : ℕ) → 0 < 2 ^ k
pow_pos k = one-le-pow k 2 (omega arith)

pow_half : (k : ℕ) → 2 ^ suc k / 2 ≡ 2 ^ k
pow_half k = omega arith

-- `1 << k` has bit `k` alone.
pub bit-pow : (k d : ℕ) → bit (2 ^ k) d ≡ (if k == d then 1 else 0)
unfolding bit
bit-pow zero zero = refl
bit-pow zero (suc d) = ground (arith, bit-zero d)
bit-pow (suc k) zero = ground (arith, pow-suc 2 k)
bit-pow (suc k) (suc d) = rw (pow_half k) (bit-pow k d ∙ ground arith)

bit_and-zero_below : (f x : ℕ) → x ≤ f → bit_and x 0 ≡ 0
bit_and-zero_below f zero h = refl
bit_and-zero_below zero (suc x) h = absurd (omega arith)
bit_and-zero_below (suc f) (suc x) h =
    omega (arith, bit_and_digit (suc x) 0, bit_and-zero_below f (suc x / 2) (omega arith))

pub bit_and-zero : (x : ℕ) → bit_and x 0 ≡ 0
bit_and-zero x = bit_and-zero_below x x (omega arith)

-- `x & (1 << k)` is that bit in its place.
pub bit_and-pow : (x k : ℕ) → bit_and x (2 ^ k) ≡ bit x k * 2 ^ k
unfolding bit
bit_and-pow x zero = omega (arith, bit_and_digit x 1, bit_and-zero (x / 2))
bit_and-pow x (suc k) =
    rw (bit_and_digit x (2 ^ suc k), pow_half k, bit_and-pow (x / 2) k)
      (omega (arith, ap (λ (t : ℕ). bit (x / 2) k * t) (pow-suc 2 k)))

-- `x << s` moves each bit up by `s`.
pub bit-shift : (x s d : ℕ) → bit (x * 2 ^ s) d ≡ (if ltb d s then 0 else bit x (d - s))
unfolding bit
bit-shift x zero d =
    let whole : x * 2 ^ 0 ≡ x = omega arith in
    let none_out : d - 0 ≡ d = omega arith in rw whole (ground (arith, none_out))
bit-shift x (suc s) zero = ground (arith, ap (λ (t : ℕ). x * t) (pow-suc 2 s))
bit-shift x (suc s) (suc d) =
    let half : x * 2 ^ suc s / 2 ≡ x * 2 ^ s = omega (arith, ap (λ (t : ℕ). x * t) (pow-suc 2 s)) in
    rw half (bit-shift x s d ∙ ground arith)

mod_pow_half : (x w : ℕ) → x % 2 ^ suc w / 2 ≡ x / 2 % 2 ^ w
mod_pow_half x w =
    let high = x / 2 ^ suc w in
    let low = x % 2 ^ suc w in
    let small : low / 2 < 2 ^ w = omega (arith, mod-lt x (pow_pos (suc w)), pow-suc 2 w) in
    let split : x / 2 ≡ high * 2 ^ w + low / 2 =
      omega (arith, div-add-mod' x (2 ^ suc w), ap (λ (t : ℕ). high * t) (pow-suc 2 w)) in
    sym (rw split (mul-add-mod_self_right high (2 ^ w) (low / 2) ∙ mod-eq_of_lt small))

-- A w-bit word keeps its low bits.
pub bit-mod_pow : (x w d : ℕ) → bit (x % 2 ^ w) d ≡ (if ltb d w then bit x d else 0)
unfolding bit
bit-mod_pow x zero d = ground (arith, bit-zero d)
bit-mod_pow x (suc w) zero =
    ground (arith, div-add-mod' x (2 ^ suc w), ap (λ (t : ℕ). x / 2 ^ suc w * t) (pow-suc 2 w))
bit-mod_pow x (suc w) (suc d) = rw (mod_pow_half x w) (bit-mod_pow (x / 2) w d ∙ ground arith)

bit_or-zero_below : (f x y : ℕ) → x + y ≤ f → bit_or x y ≡ 0 → (x ≡ 0) × (y ≡ 0)
bit_or-zero_below zero x y h e = omega arith
bit_or-zero_below (suc f) zero zero h e = omega arith
bit_or-zero_below (suc f) x y h e =
    let halves : (x / 2 ≡ 0) × (y / 2 ≡ 0) =
      bit_or-zero_below f (x / 2) (y / 2) (omega arith) (omega (arith, bit_or_digit x y)) in
    omega (arith, bit_or_digit x y, halves.0, halves.1)

-- `x | y` is 0 only if both are.
pub bit_or-eq-zero : (x y : ℕ) → bit_or x y ≡ 0 → (x ≡ 0) × (y ≡ 0)
bit_or-eq-zero x y e = bit_or-zero_below (x + y) x y (omega arith) e

pub bit_xor_digit : (x y : ℕ) → bit_xor x y ≡ bit_xor (x / 2) (y / 2) * 2 + differ (x % 2) (y % 2)
bit_xor_digit (suc x) y = simp bit_xor-bitwise (bitwise_digit (λ b. b) differ x y)
bit_xor_digit zero y = simp bit_xor-bitwise (omega arith)

differ-eq-zero : (a b : ℕ) → differ a b ≡ 0 → a ≡ b
differ-eq-zero zero b e = omega (arith, e)
differ-eq-zero (suc a) zero e = absurd (omega (arith, e))
differ-eq-zero (suc a) (suc b) e = ap suc (differ-eq-zero a b e)

bit_xor-zero_below : (f x y : ℕ) → x + y ≤ f → bit_xor x y ≡ 0 → x ≡ y
bit_xor-zero_below zero x y h e = omega arith
bit_xor-zero_below (suc f) zero zero h e = refl
bit_xor-zero_below (suc f) x y h e =
    let halves : x / 2 ≡ y / 2 =
      bit_xor-zero_below f (x / 2) (y / 2) (omega arith) (omega (arith, bit_xor_digit x y)) in
    let ends : x % 2 ≡ y % 2 = differ-eq-zero _ _ (omega (arith, bit_xor_digit x y)) in
    omega (arith, halves, ends)

-- `x ^ y` is 0 only for equal numbers.
pub bit_xor-eq-zero : (x y : ℕ) → bit_xor x y ≡ 0 → x ≡ y
bit_xor-eq-zero x y e = bit_xor-zero_below (x + y) x y (omega arith) e

differ_self : (a : ℕ) → differ a a ≡ 0
differ_self zero = refl
differ_self (suc a) = differ_self a

bit_xor_self_below : (f x : ℕ) → x ≤ f → bit_xor x x ≡ 0
bit_xor_self_below f zero h = refl
bit_xor_self_below zero (suc x) h = absurd (omega arith)
bit_xor_self_below (suc f) (suc x) h = omega (
  arith,
  bit_xor_digit (suc x) (suc x),
  bit_xor_self_below f (suc x / 2) (omega arith),
  differ_self (suc x % 2),
)

pub bit_xor_self : (x : ℕ) → bit_xor x x ≡ 0
bit_xor_self x = bit_xor_self_below x x (omega arith)
