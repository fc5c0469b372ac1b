-- ===== src/Server/State/Examples.antt =====
-- A connection with one session.
use newppp.Prelude.{◌≡◌, refl, [], ◌∷◌}
use newppp.Prelude.Assoc.{remove, lookup}
use newppp.Server.State.{
  ConnState, drop_session, reap_conn, expired, close_all, close_session, release_session, Quota,
}
use newppp.Server.State.Sessions.{IsConn}

abbrev one_session : ConnState
one_session = record {
  id = 1;
  token = 9;
  sessions = (5, record { token = 10; last_active = 100 }) ∷ [];
  tcp_routes = (5, 77) ∷ [];
  udp_routes = [];
  max_per_conn = 2;
  last_active = 100;
  cancelled_tokens = [];
}

one_session-IsConn : IsConn one_session
one_session-IsConn = record { sessions = (tt, tt); tcp = (tt, tt); udp = tt }

abbrev quota : Quota
quota = record { active_sessions = 1; max_sessions = 4 }

idle_session_is_reaped : (reap_conn quota one_session 200 50).0.active_sessions ≡ 0
unfolding reap_conn expired close_all close_session drop_session release_session lookup remove
idle_session_is_reaped = refl
