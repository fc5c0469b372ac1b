-- ===== src/Client/Outbound.antt =====
-- `Outbound::open_tcp` and `Outbound::udp_associate` of src/client/outbound.rs on both paths. What each
-- path answers is an argument; a stream or a pipe is a number.
use newppp.Prelude.{
  ℕ, ◌+◌, ◌≤◌, ◌<◌, ◌≡◌, Bool, true, false, not, if◌then◌else◌, List, [], ◌∷◌, Option, none, some,
}
use newppp.Proto.OpenError.{OpenError, limit, denied, dial_failed, bad_target}
use newppp.Client.Breaker.{CircuitBreaker, can_try, record_success, record_failure}
pub mod History
mod Examples

-- A `TargetError`, or any other error.
pub data OpenFailure : Type 0 where
  target : OpenError → OpenFailure
  transport : OpenFailure

pub data Answer : Type 0 where
  opened : ℕ → Answer
  failed : OpenFailure → Answer

unfoldable pub fallback_worthwhile : OpenError → Bool
fallback_worthwhile limit = true
fallback_worthwhile _ = false

unfoldable pub socks5_reply_code : OpenFailure → ℕ
socks5_reply_code (target denied) = 2
socks5_reply_code (target dial_failed) = 5
socks5_reply_code _ = 1

-- The times that one call reads: in `can_try`, and twice in `record_failure`.
pub record Times : Type 0 where
  pub asked : ℕ
  pub failed_at : ℕ
  pub tripped_at : ℕ

-- The breaker, whether the fallback was used (`note_fallback`), and the answer.
after_primary : CircuitBreaker → Times → Answer → Answer → CircuitBreaker × Bool × Answer
after_primary cb t (opened s) fallback = (record_success cb, false, opened s)
after_primary cb t (failed (target e)) fallback =
    if not (fallback_worthwhile e)
    then (record_success cb, false, failed (target e))
    else (record_success cb, true, fallback)
after_primary cb t (failed transport) fallback =
    (record_failure cb t.failed_at t.tripped_at, true, fallback)

-- The arm `Both` of `open_tcp`, and likewise of `udp_associate`.
unfoldable pub open_both : CircuitBreaker → Times → Answer → Answer → CircuitBreaker × Bool × Answer
unfolding after_primary
open_both cb t primary fallback =
    if can_try cb t.asked then after_primary cb t primary fallback else (cb, true, fallback)
