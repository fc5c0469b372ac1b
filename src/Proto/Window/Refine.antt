-- ===== src/Proto/Window/Refine.antt =====
-- src/proto/crypto.rs: `ReplayWindow` against the specification in Spec.
use newppp.Prelude.{ℕ, ◌-◌, ◌<◌, min, ◌≡◌, refl, ap, if◌then◌else◌, List, [], ◌∷◌, arith}
use newppp.Prelude.Bits.{bit, bit-pow}
use newppp.Proto.Window.{ReplayWindow, new, check, answers}
use newppp.Proto.Window.Spec.{member, highest, fresh, remember, fresh_answers, member_above}
use newppp.Proto.Window.Mask.{test_bit, set_bit, bit-slide}

-- Bit `d` of the mask says whether the counter `d` below the highest was seen.
pub record Represents (w : ReplayWindow) (seen : List ℕ) : Type 0 where
  pub top : w.highest ≡ highest seen
  pub bits :
      (d : ℕ)
      → d < 64
      → d < w.highest
      → bit w.mask d ≡ (if member (w.highest - d) seen then 1 else 0)

new-Represents : Represents new []
unfolding new
new-Represents = record { top = refl; bits = λ d h k. absurd (omega arith) }

pub check-fresh :
    (w : ReplayWindow) (seen : List ℕ) (c : ℕ) → Represents w seen → (check w c).1 ≡ fresh seen c
unfolding check
check-fresh w seen c r =
    ground
      (arith, r.top, member_above c seen, test_bit w.mask (w.highest - c), r.bits (w.highest - c))

check_top :
    (w : ReplayWindow) (seen : List ℕ) (c : ℕ)
    → Represents w seen
    → (check w c).0.highest ≡ highest (remember seen c)
unfolding check
check_top w seen c r =
    ground
      (arith, r.top, member_above c seen, test_bit w.mask (w.highest - c), r.bits (w.highest - c))

check_bits :
    (w : ReplayWindow) (seen : List ℕ) (c : ℕ)
    → Represents w seen
    → (d : ℕ) → d < 64
    → d < (check w c).0.highest
    → bit (check w c).0.mask d
      ≡ (if member ((check w c).0.highest - d) (remember seen c) then 1 else 0)
unfolding check
check_bits w seen c r d h k = ground (
  arith,
  r.top,
  member_above c seen,
  test_bit w.mask (w.highest - c),
  r.bits (w.highest - c),
  r.bits d,
  r.bits (d - (c - w.highest)),
  member_above (c - d) seen,
  bit-pow 0 d,
  bit-slide w.mask (min (c - w.highest) 64) d,
  set_bit w.mask (w.highest - c) d,
)

check-Represents :
    (w : ReplayWindow) (seen : List ℕ) (c : ℕ)
    → Represents w seen
    → Represents (check w c).0 (remember seen c)
check-Represents w seen c r = record { top = check_top w seen c r; bits = check_bits w seen c r }

answers-fresh :
    (w : ReplayWindow) (seen cs : List ℕ) → Represents w seen → answers w cs ≡ fresh_answers seen cs
unfolding answers fresh_answers
answers-fresh w seen [] r = refl
answers-fresh w seen (c ∷ cs) r = rw (check-fresh w seen c r) (
    ap (◌∷◌ (fresh seen c))
      (answers-fresh (check w c).0 (remember seen c) cs (check-Represents w seen c r)))

-- On any sequence of counters the 64-bit mask answers exactly as a filter that remembers every
-- counter it accepted: it accepts a counter if and only if that is not 0, was not accepted before,
-- and is less than 64 behind the highest accepted one.
pub answers-fresh_answers : (cs : List ℕ) → answers new cs ≡ fresh_answers [] cs
answers-fresh_answers cs = answers-fresh new [] cs new-Represents
