-- ===== src/Prelude/Pigeon.antt =====
-- Lists of numbers: membership, and the pigeonhole principle.
use newppp.Prelude.Tests.{◌==◌, if◌then◌else◌}
use newppp.Prelude.Lists.{length}
use Prim.Native.Nat.{ℕ, zero, suc, ◌≤◌, ◌<◌}
use mathlib.Core.Path.{◌≡◌, refl}
use mathlib.Core.Bool.{Bool, true, false, ◌||◌}
use mathlib.Core.List.{List, [], ◌∷◌, ◌++◌}
use mathlib.Core.Logic.{◌≢◌}
use native.Mathlib.Omega.{arith}

unfoldable pub mem : ℕ → List ℕ → Bool
mem x [] = false
mem x (y ∷ ys) = (y == x) || mem x ys

without : ℕ → List ℕ → List ℕ
without x [] = []
without x (y ∷ ys) = if y == x then ys else y ∷ without x ys

length-without : (x : ℕ) (ys : List ℕ) → mem x ys ≡ true → length ys ≡ suc (length (without x ys))
unfolding mem without
length-without x [] h = absurd (cc h)
length-without x (y ∷ ys) h = ground (arith, length-without x ys)

mem-without : (x z : ℕ) (ys : List ℕ) → z ≢ x → mem z ys ≡ true → mem z (without x ys) ≡ true
unfolding mem without
mem-without x z [] d h = absurd (cc h)
mem-without x z (y ∷ ys) d h = ground (arith, mem-without x z ys)

pub mem-append : (x : ℕ) (xs ys : List ℕ) → mem x (xs ++ ys) ≡ (mem x xs || mem x ys)
unfolding mem
mem-append x [] ys = refl
mem-append x (y ∷ xs) ys = ground (arith, mem-append x xs ys)

-- `n` different members of a list: the list is at least this long.
pub pigeonhole :
    (n : ℕ) (f : ℕ → ℕ) (ys : List ℕ)
    → ((k : ℕ) → k < n → mem (f k) ys ≡ true)
    → ((j k : ℕ) → j < k → k < n → f j ≢ f k)
    → n ≤ length ys
pigeonhole zero f ys inside different = omega arith
pigeonhole (suc n) f ys inside different =
    let rest =
      pigeonhole n f (without (f n) ys)
        (λ k h. mem-without (f n) (f k) ys (different k n h (omega arith)) (inside k (omega arith)))
        (λ j k h l. different j k h (omega arith)) in
    omega (arith, rest, length-without (f n) ys (inside n (omega arith)))
