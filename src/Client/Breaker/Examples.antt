-- ===== src/Client/Breaker/Examples.antt =====
-- The tests of src/client/outbound.rs.
use newppp.Prelude.{◌≡◌, refl, true, List, [], ◌∷◌, arith}
use newppp.Client.Breaker.{
  new, can_try, is_open, still_tripped, record_failure, record_success, breaker_threshold,
  breaker_cooldown,
}
use newppp.Client.Breaker.Trip.{
  Report, success, failure, reported, after_reports, streak, Explained, after_reports-Explained,
}

-- The newest first.
abbrev three_failures : List Report
three_failures = failure 30 31 ∷ failure 20 21 ∷ failure 10 11 ∷ success ∷ failure 1 2 ∷ []

trips_after_three :
    is_open (after_reports (new breaker_threshold breaker_cooldown) three_failures) 90 ≡ true
unfolding is_open can_try still_tripped new reported record_failure record_success
trips_after_three = refl

after_reports-Explained_example :
    Explained breaker_threshold breaker_cooldown
      (after_reports (new breaker_threshold breaker_cooldown) three_failures)
      (streak three_failures)
after_reports-Explained_example =
    after_reports-Explained breaker_threshold breaker_cooldown three_failures (omega arith)
      (omega arith)
