-- ===== src/Proto/Window.antt =====
-- The replay filter of src/proto/crypto.rs: `ReplayWindow`, a 64-bit mask below the highest counter.
use Prim.Native.Nat.{bit_and, bit_or}
use newppp.Prelude.{
  ℕ, ◌+◌, ◌-◌, ◌*◌, ◌%◌, ◌^◌, ◌≤◌, ◌<◌, min, Bool, true, false, not, ◌||◌, ltb, leb, ◌==◌,
  if◌then◌else◌, List, [], ◌∷◌,
}
pub mod Spec
mod Mask
pub mod Refine
mod Examples

pub record ReplayWindow : Type 0 where
  pub highest : ℕ
  pub mask : ℕ

unfoldable pub new : ReplayWindow
new = record { highest = 0; mask = 0 }

-- `m << s` on `u64`.
abbrev pub shl : ℕ → ℕ → ℕ
shl m s = m * 2 ^ s % 2 ^ 64

-- The mask after the window moved up by `highest' - highest`.
pub slide : ℕ → ℕ → ℕ
slide mask shift = if shift == 64 then 1 else bit_or (shl mask shift) 1

unfoldable pub check : ReplayWindow → ℕ → ReplayWindow × Bool
unfolding slide
check w counter =
    if counter == 0
    then (w, false)
    else if w.highest == 0
    then (record { highest = counter; mask = 1 }, true)
    else if ltb w.highest counter
    then (record { highest = counter; mask = slide w.mask (min (counter - w.highest) 64) }, true)
    else (let d = w.highest - counter in
        if leb 64 d || not (bit_and w.mask (shl 1 d) == 0)
        then (w, false)
        else (record w { mask = bit_or w.mask (shl 1 d) }, true))

-- The answers to a sequence of counters.
pub answers : ReplayWindow → List ℕ → List Bool
answers w [] = []
answers w (c ∷ cs) = (check w c).1 ∷ answers (check w c).0 cs
