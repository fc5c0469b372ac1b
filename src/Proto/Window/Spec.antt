-- ===== src/Proto/Window/Spec.antt =====
-- The replay filter as it is meant: it remembers every counter that it accepted.
use newppp.Prelude.{
  ℕ, ◌+◌, ◌≤◌, ◌<◌, max, ◌≡◌, refl, Bool, true, false, not, ◌&&◌, ltb, ◌==◌, if◌then◌else◌, List,
  [], ◌∷◌, arith,
}

abbrev pub member : ℕ → List ℕ → Bool
member c [] = false
member c (s ∷ seen) = if s == c then true else member c seen

abbrev pub highest : List ℕ → ℕ
highest [] = 0
highest (s ∷ seen) = max s (highest seen)

-- A counter is fresh if it is not 0, was not seen, and is less than 64 behind the highest.
abbrev pub fresh : List ℕ → ℕ → Bool
fresh seen c = not (c == 0) && (not (member c seen) && ltb (highest seen) (c + 64))

abbrev pub remember : List ℕ → ℕ → List ℕ
remember seen c = if fresh seen c then c ∷ seen else seen

unfoldable pub fresh_answers : List ℕ → List ℕ → List Bool
fresh_answers seen [] = []
fresh_answers seen (c ∷ cs) = fresh seen c ∷ fresh_answers (remember seen c) cs

pub member-le : (c : ℕ) (seen : List ℕ) → member c seen ≡ true → c ≤ highest seen
member-le c [] h = absurd (cc)
member-le c (s ∷ seen) h = ground (arith, member-le c seen)

pub member_above : (c : ℕ) (seen : List ℕ) → highest seen < c → member c seen ≡ false
member_above c [] h = refl
member_above c (s ∷ seen) h = ground (arith, member_above c seen)
