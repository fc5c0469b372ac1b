-- ===== src/Client/Breaker/Trip.antt =====
-- src/client/outbound.rs: `CircuitBreaker` over a sequence of reports.
use newppp.Prelude.{
  ℕ, suc, ◌+◌, ◌^◌, ◌≤◌, ◌<◌, ◌≡◌, refl, ◌∙◌, Bool, true, false, leb, if◌then◌else◌, List, [], ◌∷◌,
  Option, none, some, arith,
}
use newppp.Client.Breaker.{
  CircuitBreaker, new, still_tripped, can_try, record_success, count_failure, fail_tripped,
  record_failure,
}

-- A report: a success, or a failure with the two times of its call.
pub data Report : Type 0 where
  success : Report
  failure : ℕ → ℕ → Report

unfoldable pub reported : CircuitBreaker → Report → CircuitBreaker
reported cb success = record_success cb
reported cb (failure now later) = record_failure cb now later

-- The breaker after some reports, the newest first, whichever calls they come from.
abbrev pub after_reports : CircuitBreaker → List Report → CircuitBreaker
after_reports cb [] = cb
after_reports cb (r ∷ rs) = reported (after_reports cb rs) r

-- How many failures came since the last success.
abbrev pub streak : List Report → ℕ
streak [] = 0
streak (success ∷ rs) = 0
streak (failure now later ∷ rs) = suc (streak rs)

abbrev pub is_some : Option ℕ → Bool
is_some none = false
is_some (some t) = true

-- The state of the breaker, told by the streak.
abbrev pub Explained : ℕ → ℕ → CircuitBreaker → ℕ → Type 0
Explained threshold cooldown cb n =
    (is_some cb.tripped_until ≡ leb threshold n)
    × (cb.consecutive_failures ≡ (if leb threshold n then 0 else n))
    × (cb.threshold ≡ threshold)
    × (cb.cooldown ≡ cooldown)

failure-Explained :
    (threshold cooldown : ℕ) (cb : CircuitBreaker) (o : Option ℕ) (n now later : ℕ)
    → cb.tripped_until ≡ o
    → threshold < 2 ^ 32
    → Explained threshold cooldown cb n
    → Explained threshold cooldown (fail_tripped cb o now later) (suc n)
unfolding fail_tripped count_failure
failure-Explained threshold cooldown cb none n now later e h (t, c, s, d) =
    (ground arith, ground arith, ground arith, ground arith)
failure-Explained threshold cooldown cb (some u) n now later e h (t, c, s, d) =
    (ground arith, ground arith, ground arith, ground arith)

-- With a threshold of 1 to 2^32 - 1: after any reports in any order, the breaker is tripped exactly
-- if at least `threshold` failures came since the last success; below the threshold it counts
-- exactly these failures.
pub after_reports-Explained :
    (threshold cooldown : ℕ) (rs : List Report)
    → 0 < threshold
    → threshold < 2 ^ 32
    → Explained threshold cooldown (after_reports (new threshold cooldown) rs) (streak rs)
unfolding new reported record_success record_failure
after_reports-Explained threshold cooldown [] lo hi = (ground arith, ground arith, refl, refl)
after_reports-Explained threshold cooldown (success ∷ rs) lo hi =
    let (t, c, s, d) = after_reports-Explained threshold cooldown rs lo hi in
    (ground arith, ground arith, s, d)
after_reports-Explained threshold cooldown (failure now later ∷ rs) lo hi =
    failure-Explained threshold cooldown (after_reports (new threshold cooldown) rs) _ (streak rs)
      now later refl hi (after_reports-Explained threshold cooldown rs lo hi)

-- No failure was reported after `last`.
abbrev pub NotAfter : ℕ → List Report → Type 0
NotAfter last [] = Unit {0}
NotAfter last (success ∷ rs) = NotAfter last rs
NotAfter last (failure now later ∷ rs) = (later ≤ last) × NotAfter last rs

abbrev UntilAtMost : ℕ → CircuitBreaker → Type 0
UntilAtMost t cb = (u : ℕ) → cb.tripped_until ≡ some u → u ≤ t

failure-UntilAtMost :
    (t : ℕ) (cb : CircuitBreaker) (o : Option ℕ) (now later : ℕ)
    → cb.tripped_until ≡ o
    → later + cb.cooldown ≤ t
    → UntilAtMost t cb
    → UntilAtMost t (fail_tripped cb o now later)
unfolding fail_tripped count_failure
failure-UntilAtMost t cb none now later e h v u is = ground (arith, v u)
failure-UntilAtMost t cb (some w) now later e h v u is = ground (arith, v u)

failure-cooldown :
    (cb : CircuitBreaker) (o : Option ℕ) (now later : ℕ)
    → cb.tripped_until ≡ o
    → (fail_tripped cb o now later).cooldown ≡ cb.cooldown
unfolding fail_tripped count_failure
failure-cooldown cb none now later e = ground arith
failure-cooldown cb (some u) now later e = ground arith

after_reports-UntilAtMost :
    (threshold cooldown last : ℕ) (rs : List Report)
    → NotAfter last rs
    → ((after_reports (new threshold cooldown) rs).cooldown ≡ cooldown)
      × UntilAtMost (last + cooldown) (after_reports (new threshold cooldown) rs)
unfolding new reported record_success record_failure fail_tripped count_failure
after_reports-UntilAtMost threshold cooldown last [] h = (refl, λ u e. absurd (ground arith))
after_reports-UntilAtMost threshold cooldown last (success ∷ rs) h =
    ((after_reports-UntilAtMost threshold cooldown last rs h).0, λ u e. absurd (ground arith))
after_reports-UntilAtMost threshold cooldown last (failure now later ∷ rs) h =
    let cb = after_reports (new threshold cooldown) rs in
    let (same, v) = after_reports-UntilAtMost threshold cooldown last rs h.1 in
    (
      failure-cooldown cb cb.tripped_until now later refl ∙ same,
      failure-UntilAtMost (last + cooldown) cb cb.tripped_until now later refl
          (omega (arith, h.0, same)) v,
    )

can_try-late :
    (o : Option ℕ) (t now : ℕ)
    → ((u : ℕ) → o ≡ some u → u ≤ t)
    → t ≤ now
    → still_tripped o now ≡ false
unfolding still_tripped
can_try-late none t now v h = refl
can_try-late (some u) t now v h = ground (arith, v u refl)

-- Once the cooldown has passed since the last failure, the primary path is tried again, whatever was
-- reported before.
pub can_try_again :
    (threshold cooldown last now : ℕ) (rs : List Report)
    → NotAfter last rs
    → last + cooldown ≤ now
    → can_try (after_reports (new threshold cooldown) rs) now ≡ true
unfolding can_try
can_try_again threshold cooldown last now rs h late = rw (
    can_try-late (after_reports (new threshold cooldown) rs).tripped_until (last + cooldown) now
      (after_reports-UntilAtMost threshold cooldown last rs h).1 late)
