-- ===== src/Server/Hub/Examples.antt =====
-- A server with one connection and one session.
use newppp.Prelude.{◌≡◌, refl, false, true, [], ◌∷◌, none, some, arith, ◌⊎◌}
use newppp.Prelude.Assoc.{lookup, insert, has}
use newppp.Proto.OpenError.{dial_failed}
use newppp.Server.State.{
  ConnState, try_register_with, Quota, try_acquire_session, close_session, drop_session,
  release_session,
}
use newppp.Server.Hub.{ok, err, admit, open_tcp, udp_associate, feed_tcp, close_tcp}
use newppp.Server.Hub.Admit.{open_tcp_refused}
use newppp.Proto.Error
use newppp.Proto.Frame.{Frame, encode_open}
use newppp.Proto.Frame
use newppp.Server.Hub.Stream.{handle_wt_stream}
use newppp.Server.Hub.Opened.{Unchanged, Admitted, handle_wt_stream-Admitted}
use newppp.Server.Hub.World.{
  World, connected, unmapped, dropped, acquired, registered, Reach, here, next,
}
use newppp.Server.Hub.Conserved.{idle_server, Conserved, Reach-Conserved}

abbrev fresh : ConnState
fresh = record {
  id = 1;
  token = 9;
  sessions = [];
  tcp_routes = [];
  udp_routes = [];
  max_per_conn = 2;
  last_active = 0;
  cancelled_tokens = [];
}

abbrev quota : Quota
quota = record { active_sessions = 0; max_sessions = 4 }

open_tcp_ok : (open_tcp ok quota fresh 5 10 77 100).2 ≡ ok
unfolding open_tcp admit try_acquire_session try_register_with has
open_tcp_ok = refl

open_tcp_fails : (open_tcp (err dial_failed) quota fresh 5 10 77 100).2 ≡ err dial_failed
unfolding open_tcp admit try_acquire_session try_register_with has
open_tcp_fails = refl

open_tcp_refused_example :
    ((open_tcp (err dial_failed) quota fresh 5 10 77 100).0.active_sessions ≡ quota.active_sessions)
    × (lookup 5 (open_tcp (err dial_failed) quota fresh 5 10 77 100).1.sessions
        ≡ lookup 5 fresh.sessions)
open_tcp_refused_example =
    open_tcp_refused (err dial_failed) quota fresh 5 10 77 100 5 dial_failed tt (omega arith)
      open_tcp_fails

abbrev one_connection : World
one_connection = record (idle_server 4) { conns = insert 1 fresh []; mapped = 1 ∷ [] }

abbrev one_holding : World
one_holding = record one_connection {
  quota = (try_acquire_session one_connection.quota).0;
  holding = 1;
}

abbrev one_open : World
one_open = record one_holding {
  conns = insert 1 (try_register_with fresh 5 10 100).0 one_holding.conns;
  holding = 0;
}

reach_connection : Reach (idle_server 4) one_connection
unfolding lookup
reach_connection = next here (connected (idle_server 4) 1 fresh refl refl)

reach_holding : Reach (idle_server 4) one_holding
unfolding try_acquire_session
reach_holding = next reach_connection (acquired one_connection refl)

reach_open : Reach (idle_server 4) one_open
unfolding lookup insert try_register_with has
reach_open = next reach_holding (registered one_holding 1 fresh 0 5 10 100 refl refl refl)

-- The task that dials for the session is aborted with the channel, and the connection leaves the map: the
-- session and its unit stay.
abbrev orphaned : World
orphaned = record one_open { mapped = [] }

reach_orphaned : Reach (idle_server 4) orphaned
reach_orphaned = next reach_open (unmapped one_open 1)

Reach-Conserved_example : Conserved 4 orphaned
Reach-Conserved_example = Reach-Conserved 4 (omega arith) reach_orphaned

orphan_keeps_quota : orphaned.quota.active_sessions ≡ 1
unfolding try_acquire_session
orphan_keeps_quota = refl

-- Between the two halves of closing a session, the quota is one above the sessions.
abbrev half_closed : World
half_closed = record one_open {
  conns = insert 1 (drop_session (try_register_with fresh 5 10 100).0 5).0 one_open.conns;
  releasing = 1;
}

reach_half_closed : Reach (idle_server 4) half_closed
unfolding lookup insert try_register_with has drop_session
reach_half_closed = next reach_open (dropped one_open 1 (try_register_with fresh 5 10 100).0 5 refl)

feed_to_closed_channel :
    (feed_tcp (λ tx. false) quota (open_tcp ok quota fresh 5 10 77 100).1 5 false 200).2 ≡ none
unfolding feed_tcp open_tcp admit try_acquire_session try_register_with has lookup insert
feed_to_closed_channel = refl

relay_takes_quota : (udp_associate quota fresh 5 10 3 100).0.active_sessions ≡ 1
unfolding udp_associate try_acquire_session try_register_with has
relay_takes_quota = refl

close_gives_back :
    (close_tcp
      (open_tcp ok quota fresh 5 10 77 100).0
      (open_tcp ok quota fresh 5 10 77 100).1
      5).0.active_sessions
    ≡ 0
unfolding close_tcp close_session drop_session release_session open_tcp admit try_acquire_session
    try_register_with has lookup insert
close_gives_back = refl

abbrev opening : Frame
opening = record {
  ftype = Frame.open_req;
  flags = 0;
  sid = 5;
  counter = 0;
  aad = [];
  payload = 1 ∷ 0 ∷ 97 ∷ 187 ∷ 1 ∷ [];
}

handle_wt_stream-Admitted_example :
    Unchanged quota fresh (
      handle_wt_stream
        (λ host. true)
        (λ host port. ok)
        true
        (Error.ok (some opening))
        quota
        fresh
        77
        100)
    ⊎ Admitted quota fresh 5 77 100 (
        handle_wt_stream
          (λ host. true)
          (λ host port. ok)
          true
          (Error.ok (some opening))
          quota
          fresh
          77
          100)
handle_wt_stream-Admitted_example =
    handle_wt_stream-Admitted (λ host. true) (λ host port. ok) true opening quota fresh 77 100 tt
      (omega arith)
