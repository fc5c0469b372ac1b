-- ===== src/Client/Breaker.antt =====
-- `CircuitBreaker` of src/client/outbound.rs. The clock is an argument: a call that reads it twice
-- takes two times. `consecutive_failures` is a `u32`, and its increment wraps as in a release
-- build.
use newppp.Prelude.{
  ℕ, ◌+◌, ◌%◌, ◌^◌, ◌≤◌, ◌<◌, ◌≡◌, Bool, true, false, not, ltb, leb, if◌then◌else◌, List, [], ◌∷◌,
  Option, none, some,
}
pub mod Trip
mod Examples

-- `BREAKER_THRESHOLD`, and `BREAKER_COOLDOWN` in seconds.
abbrev pub breaker_threshold : ℕ
breaker_threshold = 3

abbrev pub breaker_cooldown : ℕ
breaker_cooldown = 60

pub record CircuitBreaker : Type 0 where
  pub consecutive_failures : ℕ
  pub tripped_until : Option ℕ
  pub threshold : ℕ
  pub cooldown : ℕ

unfoldable pub new : ℕ → ℕ → CircuitBreaker
new threshold cooldown = record {
  consecutive_failures = 0;
  tripped_until = none;
  threshold = threshold;
  cooldown = cooldown;
}

-- `tripped_until.is_some_and(|t| now < t)`.
unfoldable pub still_tripped : Option ℕ → ℕ → Bool
still_tripped none now = false
still_tripped (some t) now = ltb now t

unfoldable pub can_try : CircuitBreaker → ℕ → Bool
unfolding still_tripped
can_try cb now = not (still_tripped cb.tripped_until now)

unfoldable pub is_open : CircuitBreaker → ℕ → Bool
is_open cb now = not (can_try cb now)

unfoldable pub record_success : CircuitBreaker → CircuitBreaker
record_success cb = record cb { consecutive_failures = 0; tripped_until = none }

-- A failure of a breaker that is not tripped.
count_failure : CircuitBreaker → ℕ → CircuitBreaker
count_failure cb later =
    let failures = (cb.consecutive_failures + 1) % 2 ^ 32 in
    if leb cb.threshold failures
    then record cb { consecutive_failures = 0; tripped_until = some (later + cb.cooldown) }
    else record cb { consecutive_failures = failures }

fail_tripped : CircuitBreaker → Option ℕ → ℕ → ℕ → CircuitBreaker
unfolding count_failure
fail_tripped cb none now later = count_failure cb later
fail_tripped cb (some t) now later =
    if ltb now t then cb else record cb { tripped_until = some (later + cb.cooldown) }

unfoldable pub record_failure : CircuitBreaker → ℕ → ℕ → CircuitBreaker
unfolding fail_tripped
record_failure cb now later = fail_tripped cb cb.tripped_until now later
