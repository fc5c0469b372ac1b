-- ===== src/Server/Hub/Balance.antt =====
-- src/server/state.rs: the quota and the sessions of a connection as `reap_idle` closes them, while no
-- other task takes a step.
use newppp.Prelude.{ℕ, ◌+◌, ◌^◌, ◌≤◌, ◌<◌, ◌≡◌, refl, ◌∙◌, List, [], ◌∷◌, arith}
use newppp.Server.State.{
  ConnState, session_count, Quota, release_session, close_session, close_all, expired, reap_conn,
}
use newppp.Server.State.Sessions.{drop_count}

-- A call that moves the quota from `q` to `q'` and the connection from `c` to `c'` keeps the rest.
pub record Balanced (q : Quota) (c : ConnState) (q' : Quota) (c' : ConnState) : Type 0 where
  pub moved : q'.active_sessions + session_count c ≡ q.active_sessions + session_count c'
  pub cap : q'.max_sessions ≡ q.max_sessions
  pub fewer : q'.active_sessions ≤ q.active_sessions

close-Balanced :
    (q : Quota) (c : ConnState) (sid : ℕ)
    → session_count c ≤ q.active_sessions
    → q.active_sessions < 2 ^ 64
    → Balanced q c (close_session q c sid).0 (close_session q c sid).1
unfolding close_session release_session
close-Balanced q c sid le top = record {
  moved = ground (arith, drop_count c sid);
  cap = ground arith;
  fewer = ground (arith, drop_count c sid);
}

close_all-Balanced :
    (q : Quota) (c : ConnState) (sids : List ℕ)
    → session_count c ≤ q.active_sessions
    → q.active_sessions < 2 ^ 64
    → Balanced q c (close_all q c sids).0 (close_all q c sids).1
unfolding close_all
close_all-Balanced q c [] le top = record { moved = refl; cap = refl; fewer = omega arith }
close_all-Balanced q c (sid ∷ sids) le top =
    let one = close-Balanced q c sid le top in
    let rest =
      close_all-Balanced (close_session q c sid).0 (close_session q c sid).1 sids
        (omega (arith, one.moved)) (omega (arith, one.fewer)) in
    record {
      moved = omega (arith, one.moved, rest.moved);
      cap = rest.cap ∙ one.cap;
      fewer = omega (arith, one.fewer, rest.fewer);
    }

pub reap-Balanced :
    (q : Quota) (c : ConnState) (now idle : ℕ)
    → session_count c ≤ q.active_sessions
    → q.active_sessions < 2 ^ 64
    → Balanced q c (reap_conn q c now idle).0 (reap_conn q c now idle).1
unfolding reap_conn
reap-Balanced q c now idle le top =
    let all = close_all-Balanced q c (expired now idle c.sessions) le top in
    record {
      moved = ground (arith, all.moved);
      cap = ground (arith, all.cap);
      fewer = ground (arith, all.fewer);
    }
