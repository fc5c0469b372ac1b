-- ===== src/Server/Hub/Admit.antt =====
-- What the handlers of src/server/hub.rs do to the quota and to the sessions.
use newppp.Prelude.{ℕ, ◌+◌, ◌^◌, ◌<◌, ◌≡◌, false, some, arith, Bool-cases, inl, inr}
use newppp.Prelude.Assoc.{
  lookup, insert, has, lookup-insert, lookup-remove, lookup-none, insert-Distinct, Distinct,
}
use newppp.Proto.OpenError.{OpenError}
use newppp.Server.State.{
  SessionHandle, ConnState, try_register_with, drop_session, Quota, try_acquire_session,
  release_session, close_session,
}
use newppp.Server.Hub.{Outcome, ok, err, admit, open_tcp}

abbrev pub handle : ℕ → ℕ → SessionHandle
handle token now = record { token = token; last_active = now }

-- With a maximum below 2^64 and no session id registered twice: a refused OPEN leaves the quota and
-- the sessions of the connection as they were, whatever the reason: the session id is taken, a
-- limit is reached, or the target cannot be dialled.
pub open_tcp_refused :
    (dial : Outcome) (q : Quota) (c : ConnState) (sid token channel now other : ℕ) (e : OpenError)
    → Distinct c.sessions
    → q.max_sessions < 2 ^ 64
    → (open_tcp dial q c sid token channel now).2 ≡ err e
    → ((open_tcp dial q c sid token channel now).0.active_sessions ≡ q.active_sessions)
      × (lookup other (open_tcp dial q c sid token channel now).1.sessions
          ≡ lookup other c.sessions)
unfolding open_tcp admit try_register_with try_acquire_session close_session release_session
    drop_session
open_tcp_refused ok q c sid token channel now other e v cap h = (ground arith, ground arith)
open_tcp_refused (err x) q c sid token channel now other e v cap h =
    elim (Bool-cases (has sid c.sessions)) [
      | inl known ↦ (ground arith, ground arith)
      | inr free ↦ (
        ground (arith, cap, free, h, lookup-insert sid sid (handle token now) c.sessions),
        ground (
          arith,
          lookup-insert sid other (handle token now) c.sessions,
          lookup-none sid c.sessions free,
          lookup-remove sid other (insert sid (handle token now) c.sessions)
              (insert-Distinct sid (handle token now) c.sessions v),
        ),
      )
    ]

-- An accepted OPEN takes one unit of the quota, registers the session id, which was free, with the new
-- token, and gives it a route.
pub open_tcp_accepted :
    (dial : Outcome) (q : Quota) (c : ConnState) (sid token channel now : ℕ)
    → (open_tcp dial q c sid token channel now).2 ≡ ok
    → ((open_tcp dial q c sid token channel now).0.active_sessions ≡ q.active_sessions + 1)
      × (has sid c.sessions ≡ false)
      × (lookup sid (open_tcp dial q c sid token channel now).1.sessions ≡ some (handle token now))
      × (lookup sid (open_tcp dial q c sid token channel now).1.tcp_routes ≡ some channel)
unfolding open_tcp admit try_register_with try_acquire_session close_session drop_session
open_tcp_accepted ok q c sid token channel now h = (
  ground arith,
  ground arith,
  ground (arith, lookup-insert sid sid (handle token now) c.sessions),
  ground (arith, lookup-insert sid sid channel c.tcp_routes),
)
open_tcp_accepted (err x) q c sid token channel now h = absurd (ground arith)
