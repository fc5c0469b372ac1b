-- ===== src/Client/Outbound/History.antt =====
-- src/client/outbound.rs: which path `Outbound::open_tcp` takes.
use newppp.Prelude.{◌≡◌, refl, Bool, true, false, not, ◌||◌, if◌then◌else◌, Bool-cases, inl, inr}
use newppp.Proto.OpenError.{dial_failed, limit, bad_target, denied}
use newppp.Client.Breaker.{CircuitBreaker, can_try}
use newppp.Client.Breaker.Trip.{Report, success, failure, reported}
use newppp.Client.Outbound.{
  target, transport, Answer, opened, failed, fallback_worthwhile, Times, after_primary, open_both,
}

-- What an answer of the primary path says of the transport: any answer of the server is a success.
abbrev pub report_of : Times → Answer → Report
report_of t (opened s) = success
report_of t (failed (target e)) = success
report_of t (failed transport) = failure t.failed_at t.tripped_at

-- The failures that another path may not share.
abbrev pub may_pass_elsewhere : Answer → Bool
may_pass_elsewhere (failed transport) = true
may_pass_elsewhere (failed (target limit)) = true
may_pass_elsewhere _ = false

after_primary_decides :
    (cb : CircuitBreaker) (t : Times) (primary fallback : Answer)
    → after_primary cb t primary fallback ≡ (
      reported cb (report_of t primary),
      may_pass_elsewhere primary,
      if may_pass_elsewhere primary then fallback else primary,
    )
unfolding after_primary fallback_worthwhile reported
after_primary_decides cb t (opened s) fallback = refl
after_primary_decides cb t (failed (target dial_failed)) fallback = refl
after_primary_decides cb t (failed (target limit)) fallback = refl
after_primary_decides cb t (failed (target bad_target)) fallback = refl
after_primary_decides cb t (failed (target denied)) fallback = refl
after_primary_decides cb t (failed transport) fallback = refl

-- A session takes the fallback exactly if the breaker is open or the primary path failed in a way that
-- the fallback may not share; its answer is that of the path it ends on; and the breaker hears of the
-- primary path's answer exactly if the path was tried, where a refusal by the server is a success.
pub open_both_decides :
    (cb : CircuitBreaker) (t : Times) (primary fallback : Answer)
    → open_both cb t primary fallback ≡ (
      if can_try cb t.asked then reported cb (report_of t primary) else cb,
      not (can_try cb t.asked) || may_pass_elsewhere primary,
      if not (can_try cb t.asked) || may_pass_elsewhere primary then fallback else primary,
    )
unfolding open_both
open_both_decides cb t primary fallback = elim (Bool-cases (can_try cb t.asked)) [
  | inl tried ↦ rw tried (after_primary_decides cb t primary fallback)
  | inr open_now ↦ rw open_now
]
