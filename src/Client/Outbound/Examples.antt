-- ===== src/Client/Outbound/Examples.antt =====
-- A session that is refused, and one that falls back.
use newppp.Prelude.{◌≡◌, refl}
use newppp.Proto.OpenError.{denied}
use newppp.Client.Breaker.{CircuitBreaker, new, can_try}
use newppp.Client.Outbound.{
  target, opened, failed, fallback_worthwhile, socks5_reply_code, Times, open_both,
}

abbrev closed : CircuitBreaker
closed = new 3 60

abbrev times : Times
times = record { asked = 5; failed_at = 6; tripped_at = 7 }

refused_stays :
    (open_both closed times (failed (target denied)) (opened 1)).2 ≡ failed (target denied)
unfolding open_both new can_try fallback_worthwhile
refused_stays = refl

denied_code : socks5_reply_code (target denied) ≡ 2
unfolding socks5_reply_code
denied_code = refl
