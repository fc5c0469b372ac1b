-- ===== src/Prelude/Int.antt =====
-- Signed numbers, as `i64` where nothing overflows.
use newppp.Prelude.Tests.{leb, if◌then◌else◌}
use Prim.Native.Nat.{ℕ, ◌+◌, ◌-◌, ◌*◌}
use mathlib.Core.Path.{◌≡◌}
use native.Mathlib.Omega.{arith}

pub data ℤ : Type 0 where
  pos : ℕ → ℤ
  negsuc : ℕ → ℤ

-- The difference of two natural numbers.
infix 60 ◌⊖◌
unfoldable pub ◌⊖◌ : ℕ → ℕ → ℤ
a ⊖ b = if leb b a then pos (a - b) else negsuc (b - a - 1)

unfoldable pub plus : ℤ → ℕ → ℤ
plus (pos n) k = pos (n + k)
plus (negsuc n) k = k ⊖ (n + 1)

unfoldable pub minus : ℤ → ℕ → ℤ
minus (pos n) k = n ⊖ k
minus (negsuc n) k = negsuc (n + k)

unfoldable pub scale : ℤ → ℕ → ℤ
scale (pos n) k = pos (n * k)
scale (negsuc n) k = 0 ⊖ ((n + 1) * k)

pub plus-⊖ : (a b k : ℕ) → plus (a ⊖ b) k ≡ (a + k) ⊖ b
unfolding ◌⊖◌ plus
plus-⊖ a b k = ground arith

pub scale_days-⊖ : (a b : ℕ) → scale (a ⊖ b) 86400 ≡ (a * 86400) ⊖ (b * 86400)
unfolding ◌⊖◌ scale
scale_days-⊖ a b = ground arith

pub ⊖-cancel : (a b k : ℕ) → (a + k) ⊖ (b + k) ≡ a ⊖ b
unfolding ◌⊖◌
⊖-cancel a b k = ground arith

pub ⊖-pos : (a b : ℕ) → (a + b) ⊖ b ≡ pos a
unfolding ◌⊖◌
⊖-pos a b = ground arith

pub plus-minus : (n s k : ℕ) → plus (minus (pos n) s) (s + k) ≡ pos (n + k)
unfolding minus plus ◌⊖◌
plus-minus n s k = ground arith
