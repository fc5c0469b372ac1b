-- ===== src/Server/State/Tests.antt =====
-- The DNS cache and the reaper at work.
use newppp.Prelude.{◌+◌, ◌≡◌, refl, List, [], ◌∷◌, none, arith}
use newppp.Prelude.Assoc.{lookup, remove}
use newppp.Prelude.Pigeon.{mem}
use newppp.Prelude.Text.{text}
use newppp.Server.State.{
  ConnState, Quota, reap_conn, expired, close_all, close_session, drop_session, release_session,
}
use newppp.Server.State.Dns.{
  Store, Op, checked, inserted, get, put, retain_fresh, make_room, udp_dns_cached, udp_dns_store,
  after_ops,
}
use newppp.Server.State.Reap.{reap_idle, sweep_conns}
use newppp.Server.Hub.Conserved.{total}
use newppp.Server.Hub.Reaper.{Reaped, reap_idle_exact}

abbrev first : Store
first = record { key = text "h:53"; addr = 7; at = 100 }

abbrev second : Store
second = record { key = text "h:53"; addr = 8; at = 150 }

-- Both calls pass the check before one inserts.
abbrev ops : List Op
ops = checked 100 ∷ checked 150 ∷ inserted first ∷ inserted second ∷ []

expired_entry : udp_dns_cached 60 (after_ops 60 [] ops) (text "h:53") 211 ≡ none
unfolding udp_dns_cached make_room get put retain_fresh
expired_entry = refl

one_call :
    udp_dns_store 60 [] (text "h:53") 7 100 ≡ after_ops 60 [] (checked 100 ∷ inserted first ∷ [])
unfolding udp_dns_store make_room put retain_fresh
one_call = refl

abbrev two_sessions : ConnState
two_sessions = record {
  id = 1;
  token = 9;
  sessions =
      (5, record { token = 10; last_active = 100 })
      ∷ (6, record { token = 11; last_active = 180 })
      ∷ [];
  tcp_routes = [];
  udp_routes = [];
  max_per_conn = 4;
  last_active = 180;
  cancelled_tokens = [];
}

abbrev unused : ConnState
unused = record {
  id = 2;
  token = 19;
  sessions = [];
  tcp_routes = [];
  udp_routes = [];
  max_per_conn = 4;
  last_active = 0;
  cancelled_tokens = [];
}

abbrev quota : Quota
quota = record { active_sessions = 2; max_sessions = 4 }

reap_idle_exact_example :
    Reaped 200 50
      ((1, two_sessions) ∷ (2, unused) ∷ [])
      (reap_idle quota ((1, two_sessions) ∷ (2, unused) ∷ []) 200 50).1
    × ((reap_idle quota ((1, two_sessions) ∷ (2, unused) ∷ []) 200 50).0.active_sessions
          + total ((1, two_sessions) ∷ (2, unused) ∷ [])
        ≡ quota.active_sessions
          + total (reap_idle quota ((1, two_sessions) ∷ (2, unused) ∷ []) 200 50).1)
reap_idle_exact_example =
    reap_idle_exact ((1, two_sessions) ∷ (2, unused) ∷ []) quota 200 50
      (((λ e. absurd (omega (arith, e)), tt), (tt, tt)), (tt, tt)) (omega arith) (omega arith)

one_session_is_left :
    (reap_idle quota ((1, two_sessions) ∷ (2, unused) ∷ []) 200 50).0.active_sessions ≡ 1
unfolding reap_idle reap_conn expired close_all close_session drop_session release_session lookup
    remove
one_session_is_left = refl

cancelled_is_swept : sweep_conns ((1, record two_sessions { cancelled_tokens = 9 ∷ [] }) ∷ []) ≡ []
unfolding sweep_conns mem
cancelled_is_swept = refl
