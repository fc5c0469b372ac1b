-- ===== src/Clock/Months.antt =====
-- src/clock.rs: `MONTHS` against the names of the months in their order.
use newppp.Prelude.{
  ℕ, ◌+◌, ◌≤◌, ◌<◌, ◌≡◌, refl, sym, Bool, true, false, not, ◌&&◌, List, [], ◌∷◌, some, length,
  arith, bytes_eq, bytes_eq→eq, bytes_eq_refl, Bool-cases, inl, inr, ◌⊎◌,
}
use newppp.Prelude.Text.{text}
use newppp.Clock.{months, find_month}

-- The English names of the months.
abbrev pub names : List (List ℕ)
names =
    text "Jan"
    ∷ text "Feb"
    ∷ text "Mar"
    ∷ text "Apr"
    ∷ text "May"
    ∷ text "Jun"
    ∷ text "Jul"
    ∷ text "Aug"
    ∷ text "Sep"
    ∷ text "Oct"
    ∷ text "Nov"
    ∷ text "Dec"
    ∷ []

-- `t` is the name with the number `n`, where the first of the list has the number `from`.
abbrev pub IsNth : List ℕ → ℕ → ℕ → List (List ℕ) → Type 0
IsNth t n from [] = ⊥
IsNth t n from (name ∷ rest) = ((t ≡ name) × (n ≡ from)) ⊎ IsNth t n (from + 1) rest

abbrev numbered : ℕ → List (List ℕ) → List (List ℕ × ℕ)
numbered from [] = []
numbered from (name ∷ rest) = (name, from) ∷ numbered (from + 1) rest

abbrev absent : List ℕ → List (List ℕ) → Bool
absent name [] = true
absent name (other ∷ rest) = not (bytes_eq name other) && absent name rest

abbrev all_differ : List (List ℕ) → Bool
all_differ [] = true
all_differ (name ∷ rest) = absent name rest && all_differ rest

find_month-IsNth :
    (t : List ℕ) (n from : ℕ) (ns : List (List ℕ))
    → find_month t (numbered from ns) ≡ some n
    → IsNth t n from ns
unfolding find_month
find_month-IsNth t n from [] e = absurd (cc e)
find_month-IsNth t n from (name ∷ rest) e = elim (Bool-cases (bytes_eq name t)) [
  | inl this ↦
      let same : some from ≡ some n = rw this at e in inl (sym (bytes_eq→eq name t this), cc same)
  | inr other ↦ inr (find_month-IsNth t n (from + 1) rest (rw other at e))
]

absent-IsNth :
    (name t : List ℕ) (n from : ℕ) (ns : List (List ℕ))
    → absent name ns ≡ true
    → IsNth t n from ns
    → bytes_eq name t ≡ false
absent-IsNth name t n from [] a h = absurd h
absent-IsNth name t n from (other ∷ rest) a h = elim h [
  | inl (same, number) ↦ rw same (ground arith)
  | inr later ↦ absent-IsNth name t n (from + 1) rest (ground arith) later
]

IsNth-find_month :
    (t : List ℕ) (n from : ℕ) (ns : List (List ℕ))
    → all_differ ns ≡ true
    → IsNth t n from ns
    → find_month t (numbered from ns) ≡ some n
unfolding find_month
IsNth-find_month t n from [] a h = absurd h
IsNth-find_month t n from (name ∷ rest) a h = elim h [
  | inl (same, number) ↦ rw (same, number, bytes_eq_refl name) refl
  | inr later ↦
      rw (absent-IsNth name t n (from + 1) rest (ground arith) later)
        (IsNth-find_month t n (from + 1) rest (ground arith) later)
]

IsNth-bounds :
    (t : List ℕ) (n from : ℕ) (ns : List (List ℕ))
    → IsNth t n from ns
    → (from ≤ n) × (n < from + length ns)
IsNth-bounds t n from [] h = absurd h
IsNth-bounds t n from (name ∷ rest) h = elim h [
  | inl (same, number) ↦ (omega (arith, number), omega (arith, number))
  | inr later ↦
      let b = IsNth-bounds t n (from + 1) rest later in (omega (arith, b.0), omega (arith, b.1))
]

pub find_month-names : (t : List ℕ) (n : ℕ) → find_month t months ≡ some n → IsNth t n 1 names
find_month-names t n e = find_month-IsNth t n 1 names e

pub names-find_month : (t : List ℕ) (n : ℕ) → IsNth t n 1 names → find_month t months ≡ some n
names-find_month t n h = IsNth-find_month t n 1 names refl h

pub names-bounds : (t : List ℕ) (n : ℕ) → IsNth t n 1 names → (1 ≤ n) × (n ≤ 12)
names-bounds t n h = let b = IsNth-bounds t n 1 names h in (b.0, omega (arith, b.1))
