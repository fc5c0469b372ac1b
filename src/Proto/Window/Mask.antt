-- ===== src/Proto/Window/Mask.antt =====
-- What `check` reads and writes in the mask, bit by bit.
use Prim.Native.Nat.{bit_and, bit_or}
use native.Mathlib.Nat.{pow-le-pow_right, mod-eq_of_lt}
use newppp.Prelude.{ℕ, ◌-◌, ◌*◌, ◌^◌, ◌<◌, ◌≡◌, ◌∙◌, ltb, ◌==◌, if◌then◌else◌, arith}
use newppp.Prelude.Bits.{
  bit, bit-le, bit-pow, bit-bit_or, bit-shift, bit-mod_pow, bit_and-pow, pow_pos,
}
use newppp.Proto.Window.{shl, slide}

shl_one : (d : ℕ) → d < 64 → shl 1 d ≡ 2 ^ d
shl_one d h =
    let below = pow-le-pow_right {n = 2} (omega arith) {i = d} {j = 63} (omega arith) in
    let fits : 1 * 2 ^ d < 2 ^ 64 = omega (arith, below) in mod-eq_of_lt fits ∙ omega arith

-- `mask & (1 << d) == 0` asks for bit `d`.
pub test_bit : (m d : ℕ) → d < 64 → (bit_and m (shl 1 d) == 0) ≡ (bit m d == 0)
test_bit m d h = rw (shl_one d h, bit_and-pow m d) (ground (arith, pow_pos d, bit-le m d))

-- `mask |= 1 << d` sets bit `d` and leaves the others.
pub set_bit : (m d k : ℕ) → d < 64 → bit (bit_or m (shl 1 d)) k ≡ (if d == k then 1 else bit m k)
set_bit m d k h = rw (shl_one d h, bit-bit_or m (2 ^ d) k, bit-pow d k) (ground (arith, bit-le m k))

bit-one : (k : ℕ) → bit 1 k ≡ (if 0 == k then 1 else 0)
bit-one k = bit-pow 0 k

pub bit-slide :
    (m s k : ℕ)
    → k < 64
    → bit (slide m s) k
      ≡ (if k == 0 then 1 else if s == 64 then 0 else if ltb k s then 0 else bit m (k - s))
unfolding slide
bit-slide m s k h = ground (
  arith,
  bit-one k,
  bit-bit_or (shl m s) 1 k,
  bit-mod_pow (m * 2 ^ s) 64 k,
  bit-shift m s k,
  bit-le (shl m s) k,
)
